-- ===== src/Client/Documented.antt =====
-- What client/diag_tool.py relies on in the package udsoncan: the request that a method sends, and
-- what it makes of the response, as ISO 14229 and the package's manual have them.
use vecu_uds.Base.{
  get_or, ◌<◌, ◌+◌, ltb, ◌^◌, ◌==◌, length, ◌*◌, if◌then◌else◌, Bool, List, Option, [], ◌∷◌, true,
  ◌&&◌, ℕ, ◌≡◌, ◌≢◌, some, none,
}
use vecu_uds.Uds.Reply.{Outcome, reply}
use vecu_uds.Client.{uncaught, Method, DidCodec, Udsoncan, ok, raised, negative_response}
use vecu_uds.Client.Codecs.{from_bytes}

-- The other end: what it answers to a request, and its state afterwards.
abbrev pub Wire : Type 0 → Type 0
Wire S = List ℕ → S → Outcome × S

-- The method sends `req`; of a response that `parse` reads it returns the value, and it raises
-- NegativeResponseException at a negative one (0x78 asks it to wait).
pub record Sends {S A : Type 0} (wire : Wire S) (req : List ℕ) (parse : List ℕ → Option A)
    (method : Method S A) : Type 0 where
  pub accepted :
      (s t : S) (bytes : List ℕ) (a : A)
      → wire req s ≡ (reply bytes, t)
      → parse bytes ≡ some a
      → method s ≡ (ok a, t)
  pub refused :
      (s t : S) (nrc : ℕ)
      → wire req s ≡ (reply (0x7F ∷ get_or req 0 0 ∷ nrc ∷ []), t)
      → nrc ≢ 0x78
      → method s ≡ (raised negative_response, t)

abbrev pub stripped : List ℕ → List ℕ → Option (List ℕ)
stripped [] bytes = some bytes
stripped (x ∷ xs) [] = none
stripped (x ∷ xs) (b ∷ bs) = let rest = stripped xs bs in if b == x then rest else none

abbrev pub exactly : ℕ → Option (List ℕ) → Option (List ℕ)
exactly n none = none
exactly n (some payload) = if length payload == n then some payload else none

abbrev pub void : {A : Type 0} → Option A → Option (Unit {0})
void none = none
void (some a) = some tt

abbrev pub decoded : DidCodec → Option (List ℕ) → Option (List ℕ)
decoded codec none = none
decoded codec (some payload) = some (codec.decode payload)

abbrev pub all_ascii : List ℕ → Bool
all_ascii [] = true
all_ascii (b ∷ bs) = ltb b 128 && all_ascii bs

-- A code of three bytes and its status byte; a code 0 is left open, the package may skip it.
abbrev pub and_entry : ℕ → ℕ → Option (List (ℕ × ℕ)) → Option (List (ℕ × ℕ))
and_entry dtc status none = none
and_entry dtc status (some rest) = if dtc == 0 then none else some ((dtc, status) ∷ rest)

unfoldable pub dtc_entries : List ℕ → Option (List (ℕ × ℕ))
dtc_entries [] = some []
dtc_entries (a ∷ b ∷ c ∷ d ∷ rest) = and_entry (a * 2 ^ 16 + b * 2 ^ 8 + c) d (dtc_entries rest)
dtc_entries bytes = none

abbrev pub after_mask : Option (List ℕ) → Option (List (ℕ × ℕ))
after_mask (some (mask ∷ bytes)) = dtc_entries bytes
after_mask bytes = none

pub record Documented {S : Type 0} (lib : Udsoncan S) (wire : Wire S) : Type 0 where
  pub session :
      Sends wire
        (0x10 ∷ 0x03 ∷ [])
        (λ bytes. void (exactly 4 (stripped (0x50 ∷ 0x03 ∷ []) bytes)))
        (lib.change_session 0x03)
  pub seed : Sends wire (0x27 ∷ 0x01 ∷ []) (stripped (0x67 ∷ 0x01 ∷ [])) (lib.request_seed 1)
  pub key :
      (key : List ℕ)
      → Sends wire
          (0x27 ∷ 0x02 ∷ key)
          (λ bytes. void (stripped (0x67 ∷ 0x02 ∷ []) bytes))
          (lib.send_key 1 key)
  pub unlock :
      (algo : List ℕ → Option (List ℕ)) (s t : S) (seed key : List ℕ)
      → lib.request_seed 1 s ≡ (ok seed, t)
      → from_bytes 0 seed ≢ 0
      → algo seed ≡ some key
      → lib.unlock_security_access algo 1 s ≡ lib.send_key 1 key t
  pub already :
      (algo : List ℕ → Option (List ℕ)) (s t : S) (seed : List ℕ)
      → lib.request_seed 1 s ≡ (ok seed, t)
      → 0 < length seed
      → from_bytes 0 seed ≡ 0
      → lib.unlock_security_access algo 1 s ≡ (ok tt, t)
  pub write :
      (dids : ℕ → Option DidCodec) (codec : DidCodec) (value bytes : List ℕ)
      → dids 0xF200 ≡ some codec
      → codec.encode value ≡ some bytes
      → Sends wire
          (0x2E ∷ 0xF2 ∷ 0x00 ∷ bytes)
          (λ bytes. void (stripped (0x6E ∷ 0xF2 ∷ 0x00 ∷ []) bytes))
          (lib.write_data_by_identifier dids 0xF200 value)
  pub not_encoded :
      (dids : ℕ → Option DidCodec) (codec : DidCodec) (value : List ℕ) (s : S)
      → dids 0xF200 ≡ some codec
      → codec.encode value ≡ none
      → lib.write_data_by_identifier dids 0xF200 value s ≡ (raised uncaught, s)
  pub read :
      (dids : ℕ → Option DidCodec) (codec : DidCodec) (high low : ℕ)
      → high < 2 ^ 8
      → low < 2 ^ 8
      → dids (high * 2 ^ 8 + low) ≡ some codec
      → Sends wire
          (0x22 ∷ high ∷ low ∷ [])
          (λ bytes. decoded codec (exactly codec.len (stripped (0x62 ∷ high ∷ low ∷ []) bytes)))
          (lib.read_data_by_identifier dids (high * 2 ^ 8 + low))
  pub dtcs :
      (mask : ℕ)
      → Sends wire
          (0x19 ∷ 0x02 ∷ mask ∷ [])
          (λ bytes. after_mask (stripped (0x59 ∷ 0x02 ∷ []) bytes))
          (lib.get_dtc_by_status_mask mask)
  pub clear :
      Sends wire
        (0x14 ∷ 0xFF ∷ 0xFF ∷ 0xFF ∷ [])
        (λ bytes. void (stripped (0x54 ∷ []) bytes))
        (lib.clear_dtc 0xFFFFFF)
  pub raw :
      (req bytes : List ℕ) (s t : S)
      → wire req s ≡ (reply bytes, t)
      → lib.exchange req s ≡ (ok bytes, t)
  pub ascii_len : (n : ℕ) → (lib.ascii_codec n).len ≡ n
  pub ascii_decode :
      (n : ℕ) (bytes : List ℕ)
      → length bytes ≡ n
      → all_ascii bytes ≡ true
      → (lib.ascii_codec n).decode bytes ≡ bytes
