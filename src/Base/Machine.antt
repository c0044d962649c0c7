-- ===== src/Base/Machine.antt =====
-- Sequences of calls of a component, and the same calls of what it stands for.
use vecu_uds.Base.{ap, ap₂, refl, ◌∙◌, [], ◌∷◌, ◌≡◌, List}

-- What a sequence of calls answers, and where it ends.
unfoldable pub replay : {C A S : Type 0} → (C → S → A × S) → List C → S → List A × S
replay step [] s = ([], s)
replay step (c ∷ cs) s =
    let (a, t) = step c s in let (answers, u) = replay step cs t in (a ∷ answers, u)

-- One call of the component does to what it stands for what the abstract call does.
pub record Simulates {A S T : Type 0} (Valid : S → Type 0) (view : S → T) (out : A × S)
    (spec : A × T) : Type 0 where
  pub valid : Valid out.1
  pub answer : out.0 ≡ spec.0
  pub state : view out.1 ≡ spec.1

module _ {C A S T : Type 0} (Valid : S → Type 0) (view : S → T) (step : C → S → A × S)
    (spec : C → T → A × T)
    (simulates : (c : C) (s : S)
      → Valid s
      → Simulates Valid view (step c s) (spec c (view s))) where
  pub replay-Simulates :
      (cs : List C) (s : S)
      → Valid s
      → Simulates Valid view (replay step cs s) (replay spec cs (view s))
  unfolding replay
  replay-Simulates [] s v = record { valid = v; answer = refl; state = refl }
  replay-Simulates (c ∷ cs) s v =
      let one = simulates c s v in
      let more = replay-Simulates cs (step c s).1 one.valid in
      record {
        valid = more.valid;
        answer =
            ap₂ (λ a rest. a ∷ rest) one.answer
              (more.answer ∙ ap (λ t. (replay spec cs t).0) one.state);
        state = more.state ∙ ap (λ t. (replay spec cs t).1) one.state;
      }
