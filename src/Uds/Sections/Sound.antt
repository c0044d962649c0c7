-- ===== src/Uds/Sections/Sound.antt =====
-- What a handler of src/uds.c that is cut into sections owes the other threads.
use vecu_uds.Uds.Invariant
use vecu_uds.Base.{refl, ◌≡◌, arith, Bool, length, ◌≤◌, ℕ, List, suc, true, false}
use vecu_uds.Uds.Sections.{refusal, look, Program, refuse_if, section, return}
use vecu_uds.Vecu.{Vecu}
use vecu_uds.Uds.Format.{Answers-answer, Answers, IsPositive}
use vecu_uds.Uds.Reply.{byte_at, answer, Outcome}

-- At most so many sections are left, each keeps the state's invariant, and the return answers the
-- request.
pub data IsSound (req : List ℕ) (resp_cap : ℕ) : ℕ → Program → Type 0 where
  returns : {n : ℕ} {o : Outcome} → Answers req resp_cap o → IsSound req resp_cap n (return o)
  sections :
      {n : ℕ} {f : Vecu → Vecu} {k : Vecu → Program}
      → ((s : Vecu) → Invariant.IsValid s → Invariant.IsValid (f s))
      → ((s : Vecu) → Invariant.IsValid s → IsSound req resp_cap n (k s))
      → IsSound req resp_cap (suc n) (section f k)

module _ {req : List ℕ} {resp_cap : ℕ} where
  pub refusal-IsSound : 6 ≤ resp_cap → (n : ℕ) (nrc : ℕ) → IsSound req resp_cap n (refusal req nrc)
  refusal-IsSound room n nrc = returns (ground arith)

  pub refuse_if-IsSound :
      6 ≤ resp_cap
      → (n : ℕ) (b : Bool) (nrc : ℕ) (p : Program) → (b ≡ false → IsSound req resp_cap n p)
      → IsSound req resp_cap n (refuse_if b req nrc p)
  unfolding refuse_if
  refuse_if-IsSound room n true nrc p h = refusal-IsSound room n nrc
  refuse_if-IsSound room n false nrc p h = h refl

  pub look-IsSound :
      {n : ℕ} {k : Vecu → Program}
      → ((s : Vecu) → Invariant.IsValid s → IsSound req resp_cap n (k s))
      → IsSound req resp_cap (suc n) (look k)
  look-IsSound h = sections (λ s v. v) h

  pub answer-IsSound :
      (n : ℕ) (bytes : List ℕ)
      → length bytes ≤ resp_cap
      → IsPositive req bytes
      → 2 ≤ length req
      → IsSound req resp_cap n (return (answer (byte_at req 1) bytes))
  answer-IsSound n bytes fits pos two = returns (Answers-answer req resp_cap bytes fits pos two)
