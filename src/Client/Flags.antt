-- ===== src/Client/Flags.antt =====
-- The line of a trouble code, described by the bits of its status.
use vecu_uds.Base.{
  bit_and_bit_seven, bit_and_bit_five, inr, bit_and_bit_three, bit_and_bit_two, inl, ◌*◌,
  bit_and_bit_one, ◌⊎◌, ◌<◌, bit_and-one, ◌==◌, ◌%◌, append_assoc, length, ◌++◌, ◌!=◌, ◌/◌,
  if◌then◌else◌, List, Bool, bit_and, ℕ, ◌≡◌, refl, arith, [], ◌∷◌, true, false,
}
use vecu_uds.Client.{Piece, text}
use vecu_uds.Client.Dtcs.{dtc_names, name_of, status_flags, joined, format_dtc, flags}
use vecu_uds.Vecu.{codes}

-- The weights of the bits of a status that have a name.
abbrev pub bit_names : List (ℕ × List ℕ)
bit_names =
    (1, codes "testFailed")
    ∷ (2, codes "testFailedThisCycle")
    ∷ (4, codes "pending")
    ∷ (8, codes "confirmed")
    ∷ (32, codes "testFailedSinceClear")
    ∷ (128, codes "warningIndicator")
    ∷ []

abbrev pub set_names : ℕ → List (ℕ × List ℕ) → List (List ℕ)
set_names status [] = []
set_names status ((weight, name) ∷ rest) =
    let more = set_names status rest in if status / weight % 2 == 1 then name ∷ more else more

abbrev pub shown : List (List ℕ) → List ℕ
shown [] = 0x2014 ∷ []
shown (x ∷ xs) = joined (x ∷ xs)

abbrev pub described : ℕ → ℕ → List Piece
described dtc status =
    text (codes "  ") ∷ name_of (dtc_names dtc) dtc
    ++ text (codes "   [") ∷ text (shown (set_names status bit_names)) ∷ text (codes "]") ∷ []

parity : (n : ℕ) → (n % 2 ≡ 0) ⊎ (n % 2 ≡ 1)
parity n = omega arith

flag_bit :
    (masked digit weight : ℕ)
    → 0 < weight
    → masked ≡ digit % 2 * weight
    → (masked != 0) ≡ (digit % 2 == 1)
flag_bit masked digit weight some_weight h = elim (parity digit) [
  | inl even ↦ rw (h, even) (ground arith)
  | inr odd ↦ rw (h, odd) (ground (arith, some_weight))
]

one_flag :
    {A : Type 0} (b : Bool) (x : A) (xs : List A)
    → (if b then x ∷ [] else []) ++ xs ≡ (if b then x ∷ xs else xs)
one_flag true x xs = refl
one_flag false x xs = refl

six_flags :
    {A : Type 0} (b c d e f g : Bool) (u v w x y z : A)
    → (if b then u ∷ [] else [])
        ++ (if c then v ∷ [] else [])
        ++ (if d then w ∷ [] else [])
        ++ (if e then x ∷ [] else [])
        ++ (if f then y ∷ [] else [])
        ++ (if g then z ∷ [] else [])
      ≡ (let l₁ = if g then z ∷ [] else [] in
          let l₂ = if f then y ∷ l₁ else l₁ in
          let l₃ = if e then x ∷ l₂ else l₂ in
          let l₄ = if d then w ∷ l₃ else l₃ in
          let l₅ = if c then v ∷ l₄ else l₄ in if b then u ∷ l₅ else l₅)
six_flags b c d e f g u v w x y z = simp append_assoc (simp one_flag)

flags-set_names : (status : ℕ) → flags status ≡ set_names status bit_names
flags-set_names status =
    rw
      (
        flag_bit (bit_and status 0x01) (status / 1) 1 (omega arith)
            (omega (arith, bit_and-one status)),
        flag_bit (bit_and status 0x02) (status / 2) 2 (omega arith) (bit_and_bit_one status),
        flag_bit (bit_and status 0x04) (status / 4) 4 (omega arith) (bit_and_bit_two status),
        flag_bit (bit_and status 0x08) (status / 8) 8 (omega arith) (bit_and_bit_three status),
        flag_bit (bit_and status 0x20) (status / 32) 32 (omega arith) (bit_and_bit_five status),
        flag_bit (bit_and status 0x80) (status / 128) 128 (omega arith) (bit_and_bit_seven status),
      )
      (six_flags _ _ _ _ _ _ _ _ _ _ _ _)

shown_lem : (xs : List (List ℕ)) → (if length xs == 0 then 0x2014 ∷ [] else joined xs) ≡ shown xs
shown_lem [] = refl
shown_lem (x ∷ xs) = ground arith

pub format_dtc-described : (dtc status : ℕ) → format_dtc dtc status ≡ described dtc status
unfolding format_dtc status_flags
format_dtc-described dtc status = rw (flags-set_names status, shown_lem) refl
