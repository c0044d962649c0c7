-- ===== src/Vecu/Owner.antt =====
-- The writable owner name of src/vecu.c.
use vecu_uds.Base.{
  ℕ, ◌≤◌, ◌≡◌, some, List, length, drop, arith, take-append, length-append, length-drop,
}
use vecu_uds.Vecu.{Vecu, owner_name_cap, read_owner, write_owner}

pub record IsOwner (s : Vecu) : Type 0 where
  pub buffer : length s.owner_name ≡ owner_name_cap
  pub len_capped : s.owner_len ≤ owner_name_cap

-- owner_write keeps the buffer's size, and the length within it.
pub write_owner-IsOwner :
    (bytes : List ℕ) (s t : Vecu) → IsOwner s → write_owner bytes s ≡ some t → IsOwner t
unfolding write_owner
write_owner-IsOwner bytes s t v h = ground (
  arith,
  length-append bytes (drop (length bytes) s.owner_name),
  length-drop (length bytes) s.owner_name,
)

-- What owner_write stores, owner_read gives back into any buffer that is large enough.
pub read-write_owner :
    (bytes : List ℕ) (out_cap : ℕ) (s t : Vecu)
    → write_owner bytes s ≡ some t
    → length bytes ≤ out_cap
    → read_owner out_cap t ≡ bytes
unfolding write_owner read_owner
read-write_owner bytes out_cap s t h c =
    ground (arith, take-append bytes (drop (length bytes) s.owner_name))
