-- ===== src/IsoTp/Parts.antt =====
-- The frames of a message of at most 118 bytes, one by one: their sequence numbers tell them apart.
use vecu_uds.Base.{
  ◌-◌, ltb→lt, leb, zero, inr, inl, ◌<◌, ltb, Bool-cases, ◌≤◌, suc, ◌*◌, length, bit_and_nibble,
  ◌≡◌, ◌%◌, List, ◌+◌, ℕ, arith,
}
use mathlib.Core.List.{Memᴰ}
use mathlib.Core.List.Memᴰ
use vecu_uds.IsoTp.Segments.{segments-end, segments-more, frames_of, segments}
use vecu_uds.IsoTp.Send.{chunk_at, consecutive_frame, single_frame, next_sn, first_frame}
use vecu_uds.IsoTp.Frame.{CanFrame}

-- The sequence number of the consecutive frame number i, from 0 on.
abbrev pub sn_at : ℕ → ℕ
sn_at i = (i + 1) % 16

pub data IsPart (tx_id : ℕ) (bytes : List ℕ) (f : CanFrame) : Type 0 where
  single : length bytes ≤ 7 → f ≡ single_frame tx_id bytes → IsPart tx_id bytes f
  first : 7 < length bytes → f ≡ first_frame tx_id bytes → IsPart tx_id bytes f
  chunk :
      (i : ℕ)
      → 6 + 7 * i < length bytes
      → f ≡ consecutive_frame tx_id bytes (6 + 7 * i) (sn_at i)
      → IsPart tx_id bytes f

pub next_sn-at : (i : ℕ) → next_sn (sn_at i) ≡ sn_at (i + 1)
next_sn-at i = omega (arith, bit_and_nibble (sn_at i + 1))

-- The frame behind a chunk is the next chunk, if there is one.
segments-next :
    (tx_id : ℕ) (bytes : List ℕ) (f : CanFrame) (rounds i : ℕ)
    → 6 + 7 * i < length bytes
    → Memᴰ f
        (segments tx_id bytes rounds (6 + 7 * i + chunk_at bytes (6 + 7 * i)) (next_sn (sn_at i)))
    → Memᴰ f (segments tx_id bytes rounds (6 + 7 * (i + 1)) (sn_at (i + 1)))
segments-next tx_id bytes f rounds i h m = elim (Bool-cases (ltb 7 (length bytes - (6 + 7 * i)))) [
  | inl full ↦
      let there : 6 + 7 * i + chunk_at bytes (6 + 7 * i) ≡ 6 + 7 * (i + 1) = ground arith in
      rw (there, next_sn-at i) at m
  | inr last ↦
      let there : 6 + 7 * i + chunk_at bytes (6 + 7 * i) ≡ length bytes = ground arith in
      absurd (
        Memᴰ.not-nil (
          rw
            (segments-end tx_id bytes rounds (6 + 7 * i + chunk_at bytes (6 + 7 * i))
              (next_sn (sn_at i)) (omega arith))
            at m))
]

segments-IsPart :
    (tx_id : ℕ) (bytes : List ℕ) (f : CanFrame) (rounds i : ℕ)
    → Memᴰ f (segments tx_id bytes rounds (6 + 7 * i) (sn_at i))
    → IsPart tx_id bytes f
unfolding segments
segments-IsPart tx_id bytes f zero i m = absurd (Memᴰ.not-nil m)
segments-IsPart tx_id bytes f (suc rounds) i m =
    elim (Bool-cases (ltb (6 + 7 * i) (length bytes))) [
      | inl more ↦
          let left = ltb→lt (6 + 7 * i) (length bytes) more in
          elim (Memᴰ.cases_cons
            (rw (segments-more tx_id bytes rounds (6 + 7 * i) (sn_at i) left) at m)) [
              | inl same ↦ chunk i left same
              | inr rest ↦
                  segments-IsPart tx_id bytes f rounds (i + 1)
                    (segments-next tx_id bytes f rounds i left rest)
            ]
      | inr over ↦ absurd (
          Memᴰ.not-nil
            (rw (segments-end tx_id bytes (suc rounds) (6 + 7 * i) (sn_at i) (ground arith)) at m))
    ]

pub frames-IsPart :
    (tx_id : ℕ) (bytes : List ℕ) (f : CanFrame)
    → Memᴰ f (frames_of tx_id bytes)
    → IsPart tx_id bytes f
frames-IsPart tx_id bytes f m = elim (Bool-cases (leb (length bytes) 7)) [
  | inl short ↦ single (ground arith) (Memᴰ.eq_of_singleton (rw short at m))
  | inr long ↦ elim (Memᴰ.cases_cons (rw long at m)) [
    | inl same ↦ first (ground arith) same
    | inr rest ↦ segments-IsPart tx_id bytes f (length bytes) 0 rest
  ]
]
