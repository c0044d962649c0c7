-- ===== src/Uds/Reply.antt =====
-- What the handlers of src/uds.c share: their return convention and their helpers. A request and
-- a response are lists of bytes, and `resp_cap` is a number.
use vecu_uds.Base.{
  ℕ, ◌+◌, Bool, List, [], ◌∷◌, ◌==◌, ◌!=◌, ◌||◌, if◌then◌else◌, get_or, bit_and, bit_or, u8, ◌<<◌,
  ◌>>>◌,
}
use vecu_uds.Clock.{Env}
use vecu_uds.Types.{suppress_pos_resp_bit}
use vecu_uds.Types.Sid
use vecu_uds.Types.Session
use vecu_uds.Vecu.{get_session, Vecu}

-- The return convention of a handler: 0, with the bytes to send; 1, with bytes that the caller must
-- not send; -1, nothing.
pub data Outcome : Type 0 where
  reply : List ℕ → Outcome
  suppressed : List ℕ → Outcome
  dropped : Outcome

-- uds_handler_fn
abbrev pub Handler : Type 0
Handler = Env → List ℕ → ℕ → Vecu → Outcome × Vecu

-- `req[i]`; a handler looks at the length first.
abbrev pub byte_at : List ℕ → ℕ → ℕ
byte_at req i = get_or req i 0

-- build_nrc
abbrev pub build_nrc : ℕ → ℕ → List ℕ
build_nrc sid nrc = Sid.negative_response ∷ sid ∷ u8 nrc ∷ []

-- A negative response, with the state as it is.
abbrev pub refuse : List ℕ → ℕ → Vecu → Outcome × Vecu
refuse req nrc s = (reply (build_nrc (byte_at req 0) nrc), s)

-- `sub_raw & (uint8_t)~UDS_SUPPRESS_POS_RESP_BIT`
abbrev pub sub_function : ℕ → ℕ
sub_function sub_raw = bit_and sub_raw 0x7F

-- `if (sub_raw & UDS_SUPPRESS_POS_RESP_BIT) return 1; return 0;`
abbrev pub answer : ℕ → List ℕ → Outcome
answer sub_raw bytes =
    if bit_and sub_raw suppress_pos_resp_bit != 0 then suppressed bytes else reply bytes

-- rd16_be, rd32_be, from index `i`
abbrev pub rd16_be : List ℕ → ℕ → ℕ
rd16_be p i = bit_or (byte_at p i << 8) (byte_at p (i + 1))

abbrev pub rd32_be : List ℕ → ℕ → ℕ
rd32_be p i =
    bit_or (bit_or (bit_or (byte_at p i << 24) (byte_at p (i + 1) << 16)) (byte_at p (i + 2) << 8))
      (byte_at p (i + 3))

-- wr32_be
abbrev pub wr32_be : ℕ → List ℕ
wr32_be v = u8 (v >>> 24) ∷ u8 (v >>> 16) ∷ u8 (v >>> 8) ∷ u8 v ∷ []

unfoldable pub is_extended_session : Vecu → Bool
is_extended_session s =
    let cur = get_session s in cur == Session.extended || cur == Session.programming
