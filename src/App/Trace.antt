-- ===== src/App/Trace.antt =====
-- A worker thread: the events that it sends, in order, and its result. A send fails only when the
-- receiver is gone, and then nothing reads the events; the receiver lives here.
use hap_resigner.Prelude.{List, [], ◌∷◌, ◌++◌, Result, ok, err, Text, All}
use hap_resigner.App.State.{AppPhase, LogLevel, WorkflowEvent}

pub record Trace {ℓ} (A : Type ℓ) : Type ℓ where
  pub events : List WorkflowEvent
  pub result : Result Text A

-- What follows a step happens only if the step succeeds: `?`.
abbrev pub after {ℓ κ} :
    {A : Type ℓ} {B : Type κ} → List WorkflowEvent → Result Text A → (A → Trace B) → Trace B
after sent (ok a) f = record { events = sent ++ (f a).events; result = (f a).result }
after sent (err e) f = record { events = sent; result = err e }

infixl 5 ◌>>=◌ ◌>>◌
abbrev pub ◌>>=◌ {ℓ κ} : {A : Type ℓ} {B : Type κ} → Trace A → (A → Trace B) → Trace B
m >>= f = after m.events m.result f

abbrev pub ◌>>◌ {ℓ} : {B : Type ℓ} → Trace (Unit {0}) → Trace B → Trace B
m >> k = m >>= λ _. k

-- A call that sends nothing.
abbrev pub call {ℓ} : {A : Type ℓ} → Result Text A → Trace A
call r = record { events = []; result = r }

abbrev pub done {ℓ} : {A : Type ℓ} → A → Trace A
done a = call (ok a)

abbrev pub send : WorkflowEvent → Trace (Unit {0})
send e = record { events = e ∷ []; result = ok tt }

-- `emit_phase` and `emit` of workflow.rs.
abbrev pub emit_phase : AppPhase → Trace (Unit {0})
emit_phase p = send (WorkflowEvent.phase p)

abbrev pub emit : LogLevel → Text → Trace (Unit {0})
emit level message = send (WorkflowEvent.progress level message)

-- `if let Err(error) = … { events.send(Failed(error)) }`.
abbrev closing {ℓ} : {A : Type ℓ} → Result Text A → List WorkflowEvent
closing (ok a) = []
closing (err message) = WorkflowEvent.failed message ∷ []

unfoldable pub spawn {ℓ} : {A : Type ℓ} → Trace A → List WorkflowEvent
spawn t = t.events ++ closing t.result

pub All-append {ℓ κ} :
    {A : Type ℓ} (P : A → Type κ) (xs ys : List A) → All P xs → All P ys → All P (xs ++ ys)
All-append P [] ys p q = q
All-append P (x ∷ xs) ys (p, ps) q = (p, All-append P xs ys ps q)

-- A property of all events of a chain, from those of its steps.
pub All-after {ℓ κ} :
    {A : Type ℓ} {B : Type κ} (P : WorkflowEvent → Type 0) (sent : List WorkflowEvent)
    (r : Result Text A) (f : A → Trace B)
    → All P sent
    → ((a : A) → All P (f a).events)
    → All P (after sent r f).events
All-after P sent (ok a) f p q = All-append P sent (f a).events p (q a)
All-after P sent (err e) f p q = p
