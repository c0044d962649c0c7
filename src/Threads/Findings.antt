-- ===== src/Threads/Findings.antt =====
-- What the sections of a request behind src/threads.c have found, turn by turn of the dispatcher.
use vecu_uds.Base.{
  ◌==◌, [], length, ◌∷◌, ◌||◌, Bool-cases, inr, false, ℕ, inl, List, Bool, ◌≡◌, refl,
}
use vecu_uds.Vecu.{registered_dids, Vecu}
use vecu_uds.Queue.{pop_blocking, UdsQueue, Popped, popped, pop_refused, pop_waits}
use vecu_uds.Uds.Reply.{is_extended_session, Outcome, reply, suppressed, dropped}
use vecu_uds.Uds.Sections.{Program, section, return}
use vecu_uds.Uds.Sections.Guarded.{IsGuarded, AllowsWrite, request-IsGuarded}
use vecu_uds.Uds.OwnerName.{OwnerChanged}
use vecu_uds.Threads.Process.{act, Action, timer, dispatch, receive, engine, main_goes_on, signal}
use vecu_uds.Threads.{dispatch_turn, took, Ecu, answered, Dispatcher}
use vecu_uds.App.{Doubles}
use vecu_uds.Clock.{Env}
use vecu_uds.Sockets.KernelIo.{KernelIo}
use vecu_uds.Types.{max_msg_len}
use vecu_uds.Security.{is_unlocked}

-- Whether the sections of the present request have found a non-default session, and an unlocked
-- ECU, so far.
abbrev pub found_by : Dispatcher → Vecu → Bool → Bool → Bool × Bool
found_by Dispatcher.testing s session access = (session, access)
found_by Dispatcher.popping s session access = (false, false)
found_by (Dispatcher.serving req p) s session access =
    (session || is_extended_session s, access || is_unlocked 0x01 s.security)
found_by (Dispatcher.sending bytes) s session access = (session, access)
found_by Dispatcher.ended s session access = (session, access)

abbrev pub found_in : {d : Doubles} → Action d → Ecu → Bool → Bool → Bool × Bool
found_in (dispatch env) e session access = found_by e.dispatcher e.state session access
found_in (timer clock) e session access = (session, access)
found_in (receive answer) e session access = (session, access)
found_in engine e session access = (session, access)
found_in main_goes_on e session access = (session, access)
found_in (signal to_main) e session access = (session, access)

unfoldable pub found : {d : Doubles} → List (Action d) → Ecu → Bool → Bool → Bool × Bool
found [] e session access = (session, access)
found (x ∷ rest) e session access =
    let (session', access') = found_in x e session access in found rest (act x e) session' access'

-- A request that is being served is guarded by what its sections have found.
abbrev pub Tracked : Dispatcher → Bool × Bool → Type 0
Tracked Dispatcher.testing w = Unit {0}
Tracked Dispatcher.popping w = Unit {0}
Tracked (Dispatcher.serving req p) (session, access) = IsGuarded req session access p
Tracked (Dispatcher.sending bytes) w = Unit {0}
Tracked Dispatcher.ended w = Unit {0}

-- The dispatcher writes the owner name for a request that was let through.
abbrev pub WritesOwner : Dispatcher → Bool × Bool → Type 0
WritesOwner pc (session, access) =
    (req : List ℕ) × (p : Program) × (pc ≡ Dispatcher.serving req p)
    × AllowsWrite req session access

answered-Tracked : (o : Outcome) (w : Bool × Bool) → Tracked (answered o) w
answered-Tracked (reply bytes) w = elim (Bool-cases (length bytes == 0)) [
  | inl empty ↦ rw empty tt
  | inr full ↦ rw full tt
]
answered-Tracked (suppressed bytes) w = tt
answered-Tracked dropped w = tt

took-Tracked : (env : Env) (r : Popped) → Tracked (took env r) (false, false)
took-Tracked env (popped msg) = request-IsGuarded env msg max_msg_len
took-Tracked env pop_refused = tt
took-Tracked env pop_waits = tt

pub unchanged :
    {A : Type 0} (s t : Vecu)
    → t.owner_name ≡ s.owner_name
    → t.owner_len ≡ s.owner_len
    → OwnerChanged s t
    → A
unchanged s t name len (inl other) = absurd (other name)
unchanged s t name len (inr other) = absurd (other len)

module _ (env : Env) (stop : Bool) (io : KernelIo) (s : Vecu) (q : UdsQueue)
    (session access : Bool) where
  pub dispatch_turn-Tracked :
      (pc : Dispatcher)
      → s.dids ≡ registered_dids
      → Tracked pc (session, access)
      → let (after, t, r, out) = dispatch_turn env stop io pc s q in
        (t.dids ≡ registered_dids) × Tracked after (found_by pc s session access)
  dispatch_turn-Tracked Dispatcher.testing boot h =
      (boot, elim (Bool-cases stop) [ inl up ↦ rw up tt | inr down ↦ rw down tt ])
  dispatch_turn-Tracked Dispatcher.popping boot h = (boot, took-Tracked env (pop_blocking q).0)
  dispatch_turn-Tracked (Dispatcher.serving req (return o)) boot h = (boot, answered-Tracked o _)
  dispatch_turn-Tracked (Dispatcher.serving req (section f k)) boot
        (IsGuarded.sections keeps rest) =
      ((keeps s boot).0, rest s boot)
  dispatch_turn-Tracked (Dispatcher.sending bytes) boot h = (boot, tt)
  dispatch_turn-Tracked Dispatcher.ended boot h = (boot, tt)

  pub dispatch_turn-WritesOwner :
      (pc : Dispatcher)
      → s.dids ≡ registered_dids
      → Tracked pc (session, access)
      → OwnerChanged s (dispatch_turn env stop io pc s q).1
      → WritesOwner pc (session, access)
  dispatch_turn-WritesOwner Dispatcher.testing boot h = unchanged s s refl refl
  dispatch_turn-WritesOwner Dispatcher.popping boot h = unchanged s s refl refl
  dispatch_turn-WritesOwner (Dispatcher.serving req (return o)) boot h = unchanged s s refl refl
  dispatch_turn-WritesOwner (Dispatcher.serving req (section f k)) boot
        (IsGuarded.sections keeps rest) =
      λ changed. (req, section f k, refl, (keeps s boot).1 changed)
  dispatch_turn-WritesOwner (Dispatcher.sending bytes) boot h = unchanged s s refl refl
  dispatch_turn-WritesOwner Dispatcher.ended boot h = unchanged s s refl refl
