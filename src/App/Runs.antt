-- ===== src/App/Runs.antt =====
-- A worker thread's run against the state of the user interface: the events of `spawn_resign` and of
-- `spawn_install` are applied one by one.
pub mod Working
use hap_resigner.Prelude.{
  ℕ, ◌≡◌, ◌≢◌, refl, ap, sym, ◌∙◌, subst, true, false, ◌⊎◌, inl, inr, some, List, [], ◌∷◌, ◌++◌,
  All, Text, unwrap_or, codes, ok, err,
}
use hap_resigner.External.{Libraries}
use hap_resigner.App.State.{
  DeviceInfo, AppPhase, AppState, WorkflowEvent, is_startable, can_start, can_install, apply,
  apply_all,
}
use hap_resigner.App.Trace.{Trace, ◌>>=◌, send, spawn}
use hap_resigner.App.Workflow.{HapInfo, Services, install_work, spawn_install}
use hap_resigner.App.Workflow.Busy.{IsWorking, spawn-cases, install_work-IsWorking}
use hap_resigner.App.Runs.Working.{
  apply-phase, apply_all-IsWorking, apply_all-append, All-front, ∷-eq, last_phase, phase-apply_all,
}

-- A thread that was started in the state `s` failed: the user sees the message with which its work
-- ended, and the phase that the work announced last, in which nothing else could be started.
pub record IsFailed {A : Type 0} (thread : Trace A) (s t : AppState) : Type 0 where
  pub message : Text
  pub result_is : thread.result ≡ err message
  pub phase_is : t.phase ≡ AppPhase.error
  pub error_is : t.error ≡ some message
  pub failed_is : t.failed_phase ≡ some (last_phase thread.events s.phase)
  pub busy : is_startable (last_phase thread.events s.phase) ≡ false

-- The signing succeeded: the file that it returned can be installed, under the names that it read.
pub record IsReady (thread : Trace (Text × HapInfo)) (t : AppState) : Type 0 where
  pub output : Text
  pub info : HapInfo
  pub result_is : thread.result ≡ ok (output, info)
  pub installable : can_install t ≡ true
  pub signed_is : t.signed_hap ≡ some output
  pub bundle_is : t.bundle_name ≡ some info.bundle_name
  pub ability_is : t.ability ≡ some (unwrap_or info.main_element (codes "EntryAbility"))

-- The installation succeeded: the process is the one that it returned.
pub record IsInstalled (thread : Trace ℕ) (t : AppState) : Type 0 where
  pub pid : ℕ
  pub result_is : thread.result ≡ ok pid
  pub phase_is : t.phase ≡ AppPhase.done
  pub pid_is : t.pid ≡ some pid

-- A run from `s`: between its first and its last event nothing else can be started, and after the
-- last something can.
pub record IsRun (events : List WorkflowEvent) (s : AppState) : Type 0 where
  pub busy :
      (sent rest : List WorkflowEvent)
      → events ≡ sent ++ rest
      → sent ≢ []
      → rest ≢ []
      → can_start (apply_all sent s) ≡ false
  pub ends : can_start (apply_all events s) ≡ true

-- Work that begins with a phase keeps the user from starting anything.
work-busy :
    (p : AppPhase) (later sent rest : List WorkflowEvent) (last : WorkflowEvent) (s : AppState)
    → All IsWorking (WorkflowEvent.phase p ∷ later)
    → (WorkflowEvent.phase p ∷ later) ++ (last ∷ []) ≡ sent ++ rest
    → sent ≢ []
    → rest ≢ []
    → can_start (apply_all sent s) ≡ false
unfolding apply_all
work-busy p later [] rest last s w e some_sent more = absurd (some_sent refl)
work-busy p later (x ∷ xs) rest last s (w, ws) e some_sent more =
    let (same, after) = ∷-eq e in
    apply_all-IsWorking xs (apply x s) (All-front IsWorking later xs rest last after more ws)
      (subst (λ y. can_start (apply y s) ≡ false) same (apply-phase p s ∙ w))

-- An event that ends a run: it leaves a phase from which something can be started.
abbrev IsEnding : WorkflowEvent → Type 0
IsEnding last = (t : AppState) → can_start (apply last t) ≡ true

module _ (p : AppPhase) (later : List WorkflowEvent) (s : AppState)
    (w : All IsWorking (WorkflowEvent.phase p ∷ later)) where
  abbrev work : List WorkflowEvent
  work = WorkflowEvent.phase p ∷ later

  last_of :
      (last : WorkflowEvent) → apply_all (work ++ (last ∷ [])) s ≡ apply last (apply_all work s)
  unfolding apply_all
  last_of last = apply_all-append work (last ∷ []) s

  work-IsRun :
      (events : List WorkflowEvent) (last : WorkflowEvent)
      → events ≡ work ++ (last ∷ [])
      → IsEnding last
      → IsRun events s
  work-IsRun events last split ending = record {
    busy = λ sent rest e some_sent more.
        work-busy p later sent rest last s w (sym split ∙ e) some_sent more;
    ends =
        ap (λ t. can_start (apply_all t s)) split
        ∙ ap can_start (last_of last)
        ∙ ending (apply_all work s);
  }

  work_ends-busy : can_start (apply_all work s) ≡ false
  unfolding apply_all
  work_ends-busy =
      apply_all-IsWorking later (apply (WorkflowEvent.phase p) s) w.1 (apply-phase p s ∙ w.0)

  failed-IsFailed :
      {A : Type 0} (thread : Trace A) (message : Text)
      → thread.events ≡ work
      → thread.result ≡ err message
      → IsFailed thread s (apply (WorkflowEvent.failed message) (apply_all work s))
  unfolding apply can_start
  failed-IsFailed thread message events_are result_is =
      let last = phase-apply_all work s w ∙ ap (λ es. last_phase es s.phase) (sym events_are) in
      record {
        message = message;
        result_is = result_is;
        phase_is = refl;
        error_is = refl;
        failed_is = ap some last;
        busy = subst (λ q. is_startable q ≡ false) last work_ends-busy;
      }

installed-IsEnding : (pid : ℕ) → IsEnding (WorkflowEvent.installed pid)
unfolding can_start apply is_startable
installed-IsEnding pid t = refl

failed-IsEnding : (message : Text) → IsEnding (WorkflowEvent.failed message)
unfolding can_start apply is_startable
failed-IsEnding message t = refl

-- A thread whose work begins with a phase, and sends `ending` when it succeeds.
outcome_of :
    {A : Type 0} (thread : Trace A) (ending : A → WorkflowEvent) (p : AppPhase)
    (later : List WorkflowEvent) (s : AppState) (Good : AppState → Type 0)
    → thread.events ≡ WorkflowEvent.phase p ∷ later
    → All IsWorking thread.events
    → ((a : A) (t : AppState) → thread.result ≡ ok a → Good (apply (ending a) t))
    → ((a : A) → IsEnding (ending a))
    → IsRun (spawn (thread >>= λ a. send (ending a))) s
      × (Good (apply_all (spawn (thread >>= λ a. send (ending a))) s)
          ⊎ IsFailed thread s (apply_all (spawn (thread >>= λ a. send (ending a))) s))
outcome_of thread ending p later s Good begins working good ends =
    let w = subst (All IsWorking) begins working in
    elim (spawn-cases thread ending) [
      | inl (a, result_is, split) ↦
          let split' = split ∙ ap (λ es. es ++ (ending a ∷ [])) begins in
          (
            work-IsRun p later s w _ (ending a) split' (ends a),
            inl (
                subst Good (sym (ap (λ es. apply_all es s) split' ∙ last_of p later s w (ending a)))
                  (good a (apply_all (WorkflowEvent.phase p ∷ later) s) result_is)),
          )
      | inr (message, result_is, split) ↦
          let last = WorkflowEvent.failed message in
          let split' = split ∙ ap (λ es. es ++ (last ∷ [])) begins in
          (
            work-IsRun p later s w _ last split' (failed-IsEnding message),
            inr (
                subst (IsFailed thread s)
                  (sym (ap (λ es. apply_all es s) split' ∙ last_of p later s w last))
                  (failed-IsFailed p later s w thread message begins result_is)),
          )
    ]

install_work-begins :
    (lib : Libraries) (services : Services lib) (signed_hap bundle_name ability : Text)
    (device : DeviceInfo)
    → (later : List WorkflowEvent) × ((install_work lib services signed_hap bundle_name ability
          device).events
        ≡ WorkflowEvent.phase AppPhase.installing ∷ later)
unfolding install_work
install_work-begins lib services signed_hap bundle_name ability device = (_, refl)

-- The events of `spawn_install`, applied to any state: between the first and the last nothing else can
-- be started, and after the last something can. When the installation succeeds, the state has the
-- process that it returns. When it fails, the state has its error's message and the phase that it
-- announced last.
pub spawn_install-IsRun :
    (lib : Libraries) (services : Services lib) (signed_hap bundle_name ability : Text)
    (device : DeviceInfo) (s : AppState)
    → IsRun (spawn_install lib services signed_hap bundle_name ability device) s
      × (IsInstalled
            (install_work lib services signed_hap bundle_name ability device)
            (apply_all (spawn_install lib services signed_hap bundle_name ability device) s)
          ⊎ IsFailed
              (install_work lib services signed_hap bundle_name ability device)
              s
              (apply_all (spawn_install lib services signed_hap bundle_name ability device) s))
unfolding spawn_install apply
spawn_install-IsRun lib services signed_hap bundle_name ability device s =
    let (later, begins) = install_work-begins lib services signed_hap bundle_name ability device in
    outcome_of (install_work lib services signed_hap bundle_name ability device)
      WorkflowEvent.installed AppPhase.installing later s
      (IsInstalled (install_work lib services signed_hap bundle_name ability device)) begins
      (install_work-IsWorking lib services signed_hap bundle_name ability device)
      (λ pid t result_is. record {
        pid = pid;
        result_is = result_is;
        phase_is = refl;
        pid_is = refl;
      })
      installed-IsEnding
