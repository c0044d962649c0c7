-- ===== src/IsoTp/Layout.antt =====
-- The layout of a message in CAN frames after ISO 15765-2, counted out from the front of the message,
-- and that it is the layout of src/isotp.c.
use vecu_uds.Base.{
  append-nil, length-take, bit_and_byte, bit_or_disjoint, bit_and_eleven_bits, sym, take_all, ap₂,
  ◌∙◌, bit_and_nibble, ◌>>>◌, inr, length-drop, ◌/◌, bit_or, bit_and, ap, u8, ◌-◌, leb, replicate,
  inl, if◌then◌else◌, ltb, ◌≤◌, Bool-cases, ◌+◌, ◌++◌, ◌%◌, ◌<◌, drop, length, take, List, ℕ, ◌≡◌,
  refl, arith, [], ◌∷◌, true, false, zero, suc,
}
use vecu_uds.IsoTp.Segments.{segments, frames_of}
use vecu_uds.IsoTp.Frame.{max_payload, CanFrame}
use vecu_uds.IsoTp.Send.{next_sn, first_frame, single_frame, chunk_at, consecutive_frame}

-- A frame with the bytes in use, filled up to eight with zeros.
abbrev pub laid : ℕ → List ℕ → CanFrame
laid tx_id used = record { can_id = tx_id % 2048; payload = used ++ replicate (8 - length used) 0 }

-- Seven bytes each of what is left of the message; frame number `n` carries `n` modulo 16.
unfoldable pub numbered : ℕ → ℕ → ℕ → List ℕ → List CanFrame
numbered tx_id zero n rest = []
numbered tx_id (suc rounds) n rest = elim (ltb 0 (length rest)) [
  | false ↦ []
  | true ↦ laid tx_id ((0x20 + n % 16) ∷ take 7 rest) ∷ numbered tx_id rounds (n + 1) (drop 7 rest)
]

-- A single frame, or a first frame with twelve bits of length and six bytes, and the numbered ones.
abbrev pub layout : ℕ → List ℕ → List CanFrame
layout tx_id bytes =
    if leb (length bytes) 7
    then laid tx_id (length bytes ∷ bytes) ∷ []
    else laid tx_id ((0x10 + length bytes / 256) ∷ length bytes % 256 ∷ take 6 bytes)
      ∷ numbered tx_id (length bytes) 1 (drop 6 bytes)

module _ {ℓ} {A : Type ℓ} where
  drop_all : (n : ℕ) (xs : List A) → length xs ≤ n → drop n xs ≡ []
  drop_all zero [] h = refl
  drop_all zero (x ∷ xs) h = absurd (omega arith)
  drop_all (suc n) [] h = refl
  drop_all (suc n) (x ∷ xs) h = drop_all n xs (omega arith)

  drop-add : (a b : ℕ) (xs : List A) → drop (a + b) xs ≡ drop b (drop a xs)
  drop-add zero b xs = let e : 0 + b ≡ b = omega arith in ap (λ n. drop n xs) e
  drop-add (suc a) b [] = drop_all (suc a + b) [] (omega arith) ∙ sym (drop_all b [] (omega arith))
  drop-add (suc a) b (x ∷ xs) =
      let e : suc a + b ≡ suc (a + b) = omega arith in ap (λ n. drop n (x ∷ xs)) e ∙ drop-add a b xs

-- What send_multiframe copies at an offset is the next seven bytes, or what is left.
take-chunk_at :
    (bytes : List ℕ) (offset : ℕ)
    → take (chunk_at bytes offset) (drop offset bytes) ≡ take 7 (drop offset bytes)
take-chunk_at bytes offset = elim (Bool-cases (ltb 7 (length bytes - offset))) [
  | inl more ↦ rw more refl
  | inr rest ↦ rw rest (
      take_all (length bytes - offset) (drop offset bytes) (omega (arith, length-drop offset bytes))
      ∙ sym (take_all 7 (drop offset bytes) (ground (arith, length-drop offset bytes, rest))))
]

drop-chunk_at :
    (bytes : List ℕ) (offset : ℕ)
    → drop (offset + chunk_at bytes offset) bytes ≡ drop 7 (drop offset bytes)
drop-chunk_at bytes offset = elim (Bool-cases (ltb 7 (length bytes - offset))) [
  | inl more ↦ rw more (drop-add offset 7 bytes)
  | inr rest ↦ rw rest (
      drop_all (offset + (length bytes - offset)) bytes (omega arith)
      ∙ sym (drop_all 7 (drop offset bytes) (ground (arith, length-drop offset bytes, rest))))
]

consecutive_frame-laid :
    (tx_id : ℕ) (bytes : List ℕ) (offset sn n : ℕ)
    → sn ≡ n % 16
    → consecutive_frame tx_id bytes offset sn
      ≡ laid tx_id ((0x20 + n % 16) ∷ take 7 (drop offset bytes))
consecutive_frame-laid tx_id bytes offset sn n same =
    let pci : u8 (bit_or 0x20 (bit_and sn 0x0F)) ≡ 0x20 + n % 16 = omega (
      arith,
      bit_and_nibble sn,
      bit_or_disjoint 4 2 (bit_and sn 0x0F) (omega (arith, bit_and_nibble sn)),
    ) in
    rw (take-chunk_at bytes offset, pci, bit_and_eleven_bits tx_id) refl

segments-numbered :
    (tx_id : ℕ) (bytes : List ℕ) (rounds offset sn n : ℕ)
    → sn ≡ n % 16
    → segments tx_id bytes rounds offset sn ≡ numbered tx_id rounds n (drop offset bytes)
unfolding segments numbered
segments-numbered tx_id bytes zero offset sn n same = refl
segments-numbered tx_id bytes (suc rounds) offset sn n same =
    elim (Bool-cases (ltb offset (length bytes))) [
      | inl more ↦
          let some_left : ltb 0 (length (drop offset bytes)) ≡ true =
            ground (arith, length-drop offset bytes, more) in
          let turned : next_sn sn ≡ (n + 1) % 16 = omega (arith, bit_and_nibble (sn + 1)) in
          rw (more, some_left, segments, numbered)
            (ap₂ (λ f fs. f ∷ fs) (consecutive_frame-laid tx_id bytes offset sn n same)
              (segments-numbered tx_id bytes rounds (offset + chunk_at bytes offset) (next_sn sn)
                  (n + 1) turned
                ∙ ap (numbered tx_id rounds (n + 1)) (drop-chunk_at bytes offset)))
      | inr over ↦
          let none_left : ltb 0 (length (drop offset bytes)) ≡ false =
            ground (arith, length-drop offset bytes, over) in
          rw (over, none_left, segments, numbered) refl
    ]

pub first_frame-laid :
    (tx_id : ℕ) (bytes : List ℕ)
    → 7 < length bytes
    → length bytes ≤ max_payload
    → first_frame tx_id bytes
      ≡ laid tx_id ((0x10 + length bytes / 256) ∷ length bytes % 256 ∷ take 6 bytes)
first_frame-laid tx_id bytes long fits =
    let len = length bytes in
    let high : u8 (bit_or 0x10 (bit_and (len >>> 8) 0x0F)) ≡ 0x10 + len / 256 = omega (
      arith,
      bit_and_nibble (len >>> 8),
      bit_or_disjoint 4 1 (bit_and (len >>> 8) 0x0F) (omega (arith, bit_and_nibble (len >>> 8))),
    ) in
    let low : u8 (bit_and len 0xFF) ≡ len % 256 = omega (arith, bit_and_byte len) in
    let full : length (take 6 bytes) ≡ 6 = omega (arith, length-take 6 bytes) in
    rw (high, low, full, bit_and_eleven_bits tx_id) (rw append-nil refl)

single_frame-laid :
    (tx_id : ℕ) (bytes : List ℕ)
    → length bytes ≤ 7
    → single_frame tx_id bytes ≡ laid tx_id (length bytes ∷ bytes)
single_frame-laid tx_id bytes short =
    let len : u8 (bit_and (length bytes) 0x0F) ≡ length bytes =
      omega (arith, bit_and_nibble (length bytes)) in
    rw (len, bit_and_eleven_bits tx_id) refl

pub frames_of-layout :
    (tx_id : ℕ) (bytes : List ℕ)
    → length bytes ≤ max_payload
    → frames_of tx_id bytes ≡ layout tx_id bytes
frames_of-layout tx_id bytes fits = elim (Bool-cases (leb (length bytes) 7)) [
  | inl short ↦ rw short (ap (λ f. f ∷ []) (single_frame-laid tx_id bytes (ground (arith, short))))
  | inr long ↦ rw long (
      ap₂ (λ f fs. f ∷ fs) (first_frame-laid tx_id bytes (ground (arith, long)) fits)
        (segments-numbered tx_id bytes (length bytes) 6 1 1 refl))
]
