-- ===== src/Client/Codecs.antt =====
-- The coders of client/diag_tool.py, and the key algorithm.
use vecu_uds.Base.{
  bit_xor, ◌!=◌, none, ◌%◌, ◌||◌, ◌+◌, length, ◌==◌, ltb, some, ◌^◌, ◌*◌, Option, map,
  if◌then◌else◌, ◌/◌, ℕ, List, [], ◌∷◌,
}
use vecu_uds.Client.{DidCodec}

-- bytes(n) codes and decodes itself.
abbrev pub raw_codec : ℕ → DidCodec
raw_codec n = record {
  encode = λ val. if length val != n then none else some val;
  decode = λ payload. payload;
  len = n;
}

abbrev pub consed : ℕ → Option (List ℕ) → Option (List ℕ)
consed c none = none
consed c (some cs) = some (c ∷ cs)

-- str.encode("ascii"), and bytes.decode("ascii", errors="replace")
unfoldable pub encode_ascii : List ℕ → Option (List ℕ)
encode_ascii [] = some []
encode_ascii (c ∷ cs) = let rest = consed c (encode_ascii cs) in if ltb c 128 then rest else none

unfoldable pub decode_ascii : List ℕ → List ℕ
decode_ascii bs = map (λ b. if ltb b 128 then b else 0xFFFD) bs

abbrev pub fitting : ℕ → Option (List ℕ) → Option (List ℕ)
fitting max_len none = none
fitting max_len (some b) = if ltb max_len (length b) then none else some b

abbrev pub var_ascii_codec : ℕ → DidCodec
var_ascii_codec max_len = record {
  encode = λ val. fitting max_len (encode_ascii val);
  decode = decode_ascii;
  len = max_len;
}

-- DIDS
unfoldable pub codecs : (ℕ → DidCodec) → ℕ → Option DidCodec
codecs ascii_codec did =
    if did == 0xF190
    then some (ascii_codec 17)
    else if did == 0xF18C
    then some (ascii_codec 12)
    else if did == 0xF187
    then some (ascii_codec 8)
    else if did == 0xF200
    then some (var_ascii_codec 32)
    else if did == 0x010C
    then some (raw_codec 2)
    else if did == 0x010D || did == 0x0105
    then some (raw_codec 1)
    else none

-- int.from_bytes(seed, "big") and k.to_bytes(4, "big")
unfoldable pub from_bytes : ℕ → List ℕ → ℕ
from_bytes acc [] = acc
from_bytes acc (b ∷ bs) = from_bytes (acc * 256 + b) bs

abbrev pub to_bytes : ℕ → List ℕ
to_bytes k = k / 2 ^ 24 ∷ k / 2 ^ 16 % 256 ∷ k / 2 ^ 8 % 256 ∷ k % 256 ∷ []

-- security_algo; `none` is its ValueError, or the OverflowError of to_bytes
unfoldable pub security_algo : List ℕ → Option (List ℕ)
security_algo seed =
    if length seed != 4
    then none
    else let k = bit_xor (from_bytes 0 seed) 0xDEADBEEF in
      if ltb k (2 ^ 32) then some (to_bytes k) else none
