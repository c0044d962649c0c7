-- ===== src/Sockets/CanIo/Opened.antt =====
-- What src/can_io.c keeps of a socket and of the name of its interface.
use vecu_uds.Base.{
  ◌+◌, ◌≤◌, List, ℕ, arith, ◌≡◌, ◌++◌, none, some, Option, ◌&&◌, ◌!=◌, length, ◌<◌, ◌∷◌, [], ◌==◌,
  if◌then◌else◌, replicate, suc, zero, refl, ◌-◌, take, ◌≢◌,
}
use vecu_uds.Sockets.{is_open, opened_fds, closed_fds}
use vecu_uds.Sockets.CanIo.{
  OpenAnswers, CanIo, can_io_open, can_io_close, set_up, copied, with_socket,
}

-- the bytes before the first zero
abbrev pub c_string : List ℕ → List ℕ
c_string [] = []
c_string (x ∷ xs) = if x == 0 then [] else x ∷ c_string xs

abbrev pub NonZero : List ℕ → Type 0
NonZero [] = Unit {0}
NonZero (x ∷ xs) = (x ≢ 0) × NonZero xs

c_string-pad :
    (name : List ℕ) (n : ℕ) → NonZero name → 0 < n → c_string (name ++ replicate n 0) ≡ name
c_string-pad [] zero h pos = elim pos [ ]
c_string-pad [] (suc n) h pos = refl
c_string-pad (x ∷ xs) n h pos = ground (arith, c_string-pad xs n h.1 pos)

NonZero-take : (n : ℕ) (name : List ℕ) → NonZero name → NonZero (take n name)
NonZero-take zero name h = tt
NonZero-take (suc n) [] h = tt
NonZero-take (suc n) (x ∷ xs) h = (h.0, NonZero-take n xs h.1)

open-close :
    (a : OpenAnswers) (name : List ℕ) (s : Option ℕ) (io : CanIo)
    → let (ok, opened, calls) = with_socket s a name in
      let (after, more) = can_io_close opened in
      (ok ≡ (is_open s && a.ifindex != 0 && a.bound))
      × (is_open opened.sock ≡ ok)
      × (opened_fds (calls ++ more) ≡ closed_fds (calls ++ more))
      × (after.sock ≡ none)
      × (after.ifname ≡ copied name)
unfolding set_up can_io_close
open-close a name none io = ground arith
open-close a name (some s) io = ground arith

length-take-le : (n : ℕ) (name : List ℕ) → length (take n name) ≤ n
length-take-le zero name = omega arith
length-take-le (suc n) [] = omega arith
length-take-le (suc n) (x ∷ xs) = omega (arith, length-take-le n xs)

length-padded : (xs : List ℕ) (n : ℕ) → length (xs ++ replicate n 0) ≡ length xs + n
length-padded [] zero = refl
length-padded [] (suc n) = omega (arith, length-padded [] n)
length-padded (x ∷ xs) n = omega (arith, length-padded xs n)

-- Opening succeeds exactly when the kernel grants the socket, an index for the name and the
-- binding; the descriptor is then kept, and otherwise none is. After can_io_close every descriptor
-- that was opened is closed, once, and none is kept. The stored name fills the 16 bytes and is, as
-- a C string, the first 15 bytes of the name, if the name has no zero byte.
pub can_io_open-close :
    (a : OpenAnswers) (name : List ℕ) (io : CanIo)
    → NonZero name
    → let (ok, opened, calls) = can_io_open a (some name) io in
      let (after, more) = can_io_close opened in
      (ok ≡ (is_open a.socket && a.ifindex != 0 && a.bound))
      × (is_open opened.sock ≡ ok)
      × (opened_fds (calls ++ more) ≡ closed_fds (calls ++ more))
      × (after.sock ≡ none)
      × (length after.ifname ≡ 16)
      × (c_string after.ifname ≡ take 15 name)
unfolding copied
can_io_open-close a name io h =
    let kept = length-take-le 15 name in
    let (ok, open_now, fds, shut, named) = open-close a name a.socket io in
    (
      ok,
      open_now,
      fds,
      shut,
      rw named (omega (arith, kept, length-padded (take 15 name) (16 - length (take 15 name)))),
      rw named (c_string-pad (take 15 name) _ (NonZero-take 15 name h) (omega arith)),
    )
