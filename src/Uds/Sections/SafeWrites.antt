-- ===== src/Uds/Sections/SafeWrites.antt =====
-- What the sections of h_write_did of src/uds.c keep.
use vecu_uds.Uds.Invariant
use vecu_uds.Base.{refl, ◌≡◌, drop, arith, Bool, Option, ◌≤◌, ℕ, List, suc, true, false, none, some}
use vecu_uds.Uds.Sections.{return}
use vecu_uds.Did.{lookup, WriteFn, DidEntry, owner_write}
use vecu_uds.Uds.Sections.Sound.{look-IsSound, refuse_if-IsSound, IsSound, returns, sections}
use vecu_uds.Clock.{Env}
use vecu_uds.Uds.Sections.Data.{
  wrote, write_found_program, write_program, unlocked_program, written_outcome, write_entry_program,
  extended_program, write_did_program,
}
use vecu_uds.Vecu.{write_owner, Vecu, call_write}
use vecu_uds.Uds.Invariant.{owner_name, Wrote-IsValid}
use vecu_uds.Uds.Reply.{rd16_be}

module _ (env : Env) (req : List ℕ) (resp_cap : ℕ) (room : 6 ≤ resp_cap) where
  wrote-IsValid :
      (o : Option Vecu) (payload : List ℕ) (s : Vecu)
      → write_owner payload s ≡ o
      → Invariant.IsValid s
      → Invariant.IsValid (wrote s o)
  wrote-IsValid none payload s e v = v
  wrote-IsValid (some t) payload s e v = Wrote-IsValid (owner_name payload e) v

  written-IsSound :
      (n : ℕ) (o : Option Vecu) → IsSound req resp_cap n (return (written_outcome o req))
  written-IsSound n none = returns (ground arith)
  written-IsSound n (some t) = returns (ground arith)

  write-IsSound : (n : ℕ) (fn : WriteFn) → IsSound req resp_cap (suc n) (write_program fn req)
  unfolding call_write
  write-IsSound n owner_write =
      sections (λ s v. wrote-IsValid (write_owner (drop 3 req) s) (drop 3 req) s refl v)
        λ s v. written-IsSound n (write_owner (drop 3 req) s)

  unlocked-IsSound :
      (n : ℕ) (security : Bool) (fn : WriteFn)
      → IsSound req resp_cap (suc (suc n)) (unlocked_program security fn req)
  unlocked-IsSound n false fn = write-IsSound (suc n) fn
  unlocked-IsSound n true fn =
      look-IsSound λ s v. refuse_if-IsSound room _ _ _ _ λ unlocked. write-IsSound n fn

  extended-IsSound :
      (n : ℕ) (extended security : Bool) (fn : WriteFn)
      → IsSound req resp_cap (suc (suc (suc n))) (extended_program extended security fn req)
  extended-IsSound n false security fn = unlocked-IsSound (suc n) security fn
  extended-IsSound n true security fn =
      look-IsSound λ s v. refuse_if-IsSound room _ _ _ _ λ session. unlocked-IsSound n security fn

  write_entry-IsSound :
      (n : ℕ) (w : Option WriteFn) (e : DidEntry)
      → IsSound req resp_cap (suc (suc (suc n))) (write_entry_program w e req)
  write_entry-IsSound n none e = returns (ground arith)
  write_entry-IsSound n (some fn) e =
      extended-IsSound n e.requires_extended_session e.requires_security fn

  write_found-IsSound :
      (n : ℕ) (o : Option DidEntry)
      → IsSound req resp_cap (suc (suc (suc n))) (write_found_program o req)
  write_found-IsSound n none = returns (ground arith)
  write_found-IsSound n (some e) = write_entry-IsSound n e.write e

  pub write_did-IsSound :
      (n : ℕ) → IsSound req resp_cap (suc (suc (suc (suc n)))) (write_did_program env req resp_cap)
  unfolding write_did_program
  write_did-IsSound n =
      refuse_if-IsSound room _ _ _ _
        λ four. look-IsSound λ s v. write_found-IsSound n (lookup (rd16_be req 1) s.dids)
