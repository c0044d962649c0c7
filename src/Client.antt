-- ===== src/Client.antt =====
-- client/diag_tool.py: what its commands do with the package udsoncan, which is a parameter. Text is
-- the list of its code points, and what is printed the list of an f-string's pieces.
use vecu_uds.Base.Int.{ℤ}
use vecu_uds.Base.{refl, ◌≡◌, ℕ, List, [], ◌∷◌, ◌++◌, Option, none, some}
pub mod Codecs
pub mod Dtcs
pub mod Commands
pub mod Documented
pub mod Ecu
pub mod Calls
pub mod Unlock
pub mod Unlocked
pub mod Access
pub mod WriteName
pub mod Flags
pub mod ReadDtc
pub mod ClearDtc
pub mod Values
pub mod Identify
pub mod Monitor
mod Fixtures
mod Examples

-- What ends a command: the exceptions that main catches, and all others.
pub data Error : Type 0 where
  negative_response timed_out os_error uncaught : Error

pub data Result (A : Type 0) : Type 0 where
  ok : A → Result A
  raised : Error → Result A

-- A piece of an f-string: text, `{x!r}`, `{n}`, `{n:0wX}`, `{n:wd}`
pub data Piece : Type 0 where
  text repr_of : List ℕ → Piece
  decimal : ℕ → Piece
  hex : (width n : ℕ) → Piece
  padded : (width : ℕ) → ℤ → Piece

-- A coder of one identifier's value, as udsoncan.DidCodec: `none` is an exception.
pub record DidCodec : Type 0 where
  pub encode : List ℕ → Option (List ℕ)
  pub decode : List ℕ → List ℕ
  pub len : ℕ

-- A method of udsoncan.client.Client, over what is at the other end of the connection.
abbrev pub Method : Type 0 → Type 0 → Type 0
Method S A = S → Result A × S

-- What the commands call of the package. The codecs and the algorithm are what the configuration
-- hands over; `exchange` is empty_rxqueue, send and wait_frame of the connection.
pub record Udsoncan (S : Type 0) : Type 0 where
  pub ascii_codec : ℕ → DidCodec
  pub change_session : ℕ → Method S (Unit {0})
  pub read_data_by_identifier : (ℕ → Option DidCodec) → ℕ → Method S (List ℕ)
  pub write_data_by_identifier : (ℕ → Option DidCodec) → ℕ → List ℕ → Method S (Unit {0})
  pub get_dtc_by_status_mask : ℕ → Method S (List (ℕ × ℕ))
  pub clear_dtc : ℕ → Method S (Unit {0})
  pub request_seed : ℕ → Method S (List ℕ)
  pub send_key : ℕ → List ℕ → Method S (Unit {0})
  pub unlock_security_access : (List ℕ → Option (List ℕ)) → ℕ → Method S (Unit {0})
  pub exchange : List ℕ → Method S (List ℕ)

-- The other end, and the lines printed so far.
pub record World (S : Type 0) : Type 0 where
  pub ecu : S
  pub printed : List (List Piece)

abbrev pub Action : Type 0 → Type 0 → Type 0
Action S A = World S → Result A × World S

abbrev value_of : {A : Type 0} → Result A → Option A
value_of (ok a) = some a
value_of (raised e) = none

module _ {S : Type 0} where
  abbrev continue : {A B : Type 0} → (A → Action S B) → Result A → Action S B
  continue f (ok a) w = f a w
  continue f (raised e) w = (raised e, w)

  infixl 5 ◌>>=◌ ◌>>◌
  abbrev pub ◌>>=◌ : {A B : Type 0} → Action S A → (A → Action S B) → Action S B
  ◌>>=◌ m f w = let (r, w') = m w in continue f r w'

  abbrev pub ◌>>◌ : {B : Type 0} → Action S (Unit {0}) → Action S B → Action S B
  m >> k = m >>= λ _. k

  abbrev pub pure : {A : Type 0} → A → Action S A
  pure a w = (ok a, w)

  abbrev pub or_raise : {A : Type 0} → Option A → Action S A
  or_raise none w = (raised uncaught, w)
  or_raise (some a) w = (ok a, w)

  -- `none` is that the action was left by an exception, which is caught
  abbrev pub attempt : {A : Type 0} → Action S A → Action S (Option A)
  attempt m w = let (r, w') = m w in (ok (value_of r), w')

  abbrev pub call : {A : Type 0} → Method S A → Action S A
  call m w = let (r, t) = m w.ecu in (r, record w { ecu = t })

  abbrev pub print : List Piece → Action S (Unit {0})
  print line w = (ok tt, record w { printed = w.printed ++ line ∷ [] })

  pub call_ok :
      {A B : Type 0} (m : Method S A) (f : A → Action S B) (w : World S) (a : A) (t : S)
      → m w.ecu ≡ (ok a, t)
      → (call m >>= f) w ≡ f a (record w { ecu = t })
  call_ok m f w a t h = rw (◌>>=◌, h) refl
