-- ===== src/Uds/Sections/Guarded.antt =====
-- Which sections of src/uds.c change the owner name.
use vecu_uds.Types.Sid
use vecu_uds.Base.{
  inr, none, inl, some, sym, ap, Option, not, false, ◌||◌, true, ◌∙◌, ◌≡◌, ℕ, Bool, List, refl,
  arith,
}
use vecu_uds.Uds.Sections.{look, refuse_if, Program, section, return}
use vecu_uds.Uds.Sections.Each.{
  tester_present-Each, security_access-Each, read_did-Each, read_dtc-Each, clear_dtc-Each,
  ecu_reset-Each, session_control-Each, request_rule, Each, Covers,
}
use vecu_uds.Uds.OwnerName.{registered-IsGuardedEntry, IsGuardedEntry, OwnerChanged}
use vecu_uds.Vecu.{mark_tester_present, set_session, write_owner, call_write, registered_dids, Vecu}
use vecu_uds.Uds.Reply.{is_extended_session, Outcome, rd16_be, byte_at}
use vecu_uds.Did.{lookup, DidEntry, owner_write, WriteFn}
use vecu_uds.Uds.Sections.Data.{
  write_entry_program, write_found_program, write_did_program, extended_program, write_program,
  unlocked_program,
}
use vecu_uds.Security.{is_unlocked}
use vecu_uds.Clock.{Env}
use vecu_uds.Uds.Sections.Request.{request_program}

-- The request writes the owner name, and its sections so far have found a non-default session and
-- an unlocked ECU.
abbrev pub AllowsWrite : List ℕ → Bool → Bool → Type 0
AllowsWrite req session access =
    (byte_at req 0 ≡ Sid.write_data_by_identifier)
    × (rd16_be req 1 ≡ 0xF200)
    × (session ≡ true)
    × (access ≡ true)

abbrev pub Keeps : List ℕ → Bool → Bool → (Vecu → Vecu) → Type 0
Keeps req session access f =
    (s : Vecu)
    → s.dids ≡ registered_dids
    → ((f s).dids ≡ registered_dids) × (OwnerChanged s (f s) → AllowsWrite req session access)

-- With what the sections have found so far.
pub data IsGuarded (req : List ℕ) : Bool → Bool → Program → Type 0 where
  returns : {session access : Bool} {o : Outcome} → IsGuarded req session access (return o)
  sections :
      {session access : Bool} {f : Vecu → Vecu} {k : Vecu → Program}
      → Keeps req session access f
      → ((s : Vecu)
          → s.dids ≡ registered_dids
          → IsGuarded req
              (session || is_extended_session s)
              (access || is_unlocked 0x01 s.security)
              (k s))
      → IsGuarded req session access (section f k)

-- A section that leaves the identifiers and the owner name alone.
abbrev Plain : (Vecu → Vecu) → Type 0
Plain f =
    (s : Vecu)
    → ((f s).dids ≡ s.dids) × ((f s).owner_name ≡ s.owner_name) × ((f s).owner_len ≡ s.owner_len)

Plain-Keeps :
    (req : List ℕ) (session access : Bool) (f : Vecu → Vecu) → Plain f → Keeps req session access f
Plain-Keeps req session access f plain s boot =
    let (dids, name, len) = plain s in (dids ∙ boot, λ changed. ground arith)

Each-IsGuarded :
    (req : List ℕ) (p : Program) (session access : Bool)
    → Each Plain p
    → IsGuarded req session access p
Each-IsGuarded req (return o) session access Each.returns = returns
Each-IsGuarded req (section f k) session access (Each.sections plain rest) =
    sections (Plain-Keeps req session access f plain)
      λ s boot. Each-IsGuarded req (k s) _ _ (rest s)

or_right : (a b : Bool) → b ≡ true → (a || b) ≡ true
or_right true b h = refl
or_right false b h = h

or_left : (a b : Bool) → a ≡ true → (a || b) ≡ true
or_left true b h = refl
or_left false b h = cc

module _ (req : List ℕ) where
  refuse_if-IsGuarded :
      (session access b : Bool) (nrc : ℕ) (p : Program)
      → (b ≡ false → IsGuarded req session access p)
      → IsGuarded req session access (refuse_if b req nrc p)
  unfolding refuse_if
  refuse_if-IsGuarded session access true nrc p h = returns
  refuse_if-IsGuarded session access false nrc p h = h refl

  look-IsGuarded :
      (session access : Bool) (k : Vecu → Program)
      → ((s : Vecu)
          → s.dids ≡ registered_dids
          → IsGuarded req
              (session || is_extended_session s)
              (access || is_unlocked 0x01 s.security)
              (k s))
      → IsGuarded req session access (look k)
  look-IsGuarded session access k =
      sections (Plain-Keeps req session access (λ s. s) (λ s. (refl, refl, refl)))

module _ (req : List ℕ) (hit : byte_at req 0 ≡ Sid.write_data_by_identifier) where
  write-IsGuarded :
      (session access : Bool) (fn : WriteFn)
      → rd16_be req 1 ≡ 0xF200
      → session ≡ true
      → access ≡ true
      → IsGuarded req session access (write_program fn req)
  unfolding call_write write_owner
  write-IsGuarded session access owner_write did extended unlocked =
      sections (λ s boot. (ground (arith, boot), λ changed. (hit, did, extended, unlocked)))
        λ s boot. returns

  unlocked-IsGuarded :
      (session access security : Bool) (fn : WriteFn)
      → rd16_be req 1 ≡ 0xF200
      → session ≡ true
      → security ≡ true
      → IsGuarded req session access (unlocked_program security fn req)
  unlocked-IsGuarded session access false fn did extended asked = cc
  unlocked-IsGuarded session access true fn did extended asked =
      look-IsGuarded req session access _ λ s boot.
        refuse_if-IsGuarded req _ _ (not (is_unlocked 0x01 s.security)) _ _ λ unlocked.
          write-IsGuarded _ _ fn did (or_left session _ extended) (or_right access _ (ground arith))

  extended-IsGuarded :
      (session access extended security : Bool) (fn : WriteFn)
      → rd16_be req 1 ≡ 0xF200
      → extended ≡ true
      → security ≡ true
      → IsGuarded req session access (extended_program extended security fn req)
  extended-IsGuarded session access false security fn did asked asked' = cc
  extended-IsGuarded session access true security fn did asked asked' =
      look-IsGuarded req session access _ λ s boot.
        refuse_if-IsGuarded req _ _ (not (is_extended_session s)) _ _ λ extended.
          unlocked-IsGuarded _ _ security fn did (or_right session _ (ground arith)) asked'

  write_entry-IsGuarded :
      (session access : Bool) (w : Option WriteFn) (e : DidEntry)
      → e.write ≡ w
      → IsGuardedEntry (rd16_be req 1) e
      → IsGuarded req session access (write_entry_program w e req)
  write_entry-IsGuarded session access none e same guarded = returns
  write_entry-IsGuarded session access (some fn) e same (inl read_only) = cc
  write_entry-IsGuarded session access (some fn) e same (inr (did, security, extended)) =
      extended-IsGuarded session access e.requires_extended_session e.requires_security fn did
        extended security

  write_found-IsGuarded :
      (session access : Bool) (o : Option DidEntry)
      → lookup (rd16_be req 1) registered_dids ≡ o
      → IsGuarded req session access (write_found_program o req)
  write_found-IsGuarded session access none found = returns
  write_found-IsGuarded session access (some e) found =
      write_entry-IsGuarded session access e.write e refl (registered-IsGuardedEntry _ e found)

  write_did-IsGuarded :
      (env : Env) (resp_cap : ℕ) (session access : Bool)
      → IsGuarded req session access (write_did_program env req resp_cap)
  unfolding write_did_program
  write_did-IsGuarded env resp_cap session access =
      refuse_if-IsGuarded req session access _ _ _ λ four.
        look-IsGuarded req session access _ λ s boot.
          write_found-IsGuarded _ _ (lookup (rd16_be req 1) s.dids)
            (ap (lookup (rd16_be req 1)) (sym boot))

module _ (env : Env) (req : List ℕ) (resp_cap : ℕ) where
  covers : Covers env req Plain
  unfolding set_session mark_tester_present
  covers = record {
    identity = λ s. (refl, refl, refl);
    session = λ n s. (refl, refl, refl);
    reset = λ s. (refl, refl, refl);
    present = λ s. (refl, refl, refl);
    cleared = λ s. (refl, refl, refl);
    seed = λ sub s. (refl, refl, refl);
    key = λ level sid six s. (refl, refl, refl);
  }

  plain : (p : Program) → Each Plain p → IsGuarded req false false p
  plain p = Each-IsGuarded req p false false

  -- A section of a request that changes the owner name writes it, behind sections that have found a
  -- non-default session and an unlocked ECU.
  pub request-IsGuarded : IsGuarded req false false (request_program env req resp_cap)
  request-IsGuarded =
      request_rule (IsGuarded req false false) (λ o. returns) env req resp_cap
        (
          λ h. plain _ (session_control-Each Plain env req resp_cap covers),
          (
            λ h. plain _ (ecu_reset-Each Plain env req resp_cap covers),
            (
              λ h. plain _ (clear_dtc-Each Plain env req resp_cap covers),
              (
                λ h. plain _ (read_dtc-Each Plain env req resp_cap covers),
                (
                  λ h. plain _ (read_did-Each Plain env req resp_cap covers),
                  (
                    λ h. plain _ (security_access-Each Plain env req resp_cap covers (sym h)),
                    (
                      λ h. write_did-IsGuarded req (sym h) env resp_cap false false,
                      (λ h. plain _ (tester_present-Each Plain env req resp_cap covers), tt),
                    ),
                  ),
                ),
              ),
            ),
          ),
        )
