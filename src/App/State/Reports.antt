-- ===== src/App/State/Reports.antt =====
-- What the user sees of a failure, whatever events come.
use mathlib.Core.List.{Memᴰ}
use mathlib.Core.List.Memᴰ.{head, append_left, append_right}
use mathlib.Core.Option.{some-injective}
use hap_resigner.Prelude.{◌≡◌, refl, ap, sym, some, List, [], ◌∷◌, is_some, Text}
use hap_resigner.App.State.{
  AppState, AppPhase, LogLevel, LogEntry, WorkflowEvent, initial, apply, apply_all, with_log,
}

-- The error that is shown stands in the log as an error, and comes with the phase that failed.
pub record IsReported (s : AppState) : Type 0 where
  pub logged :
      (message : Text)
      → s.error ≡ some message
      → Memᴰ {A = LogEntry} (record { level = LogLevel.error; message = message }) s.logs
  pub phased : is_some s.failed_phase ≡ is_some s.error

same-IsReported :
    (s t : AppState)
    → t.logs ≡ s.logs
    → t.error ≡ s.error
    → t.failed_phase ≡ s.failed_phase
    → IsReported s
    → IsReported t
same-IsReported s t l e f v = record {
  logged = λ message h. rw l (v.logged message (rw (← e) h));
  phased = rw (f, e) v.phased;
}

log-IsReported :
    (level : LogLevel) (message : Text) (s : AppState)
    → IsReported s
    → IsReported (with_log level message s)
log-IsReported level message s v = record {
  logged = λ m h. append_left _ (v.logged m h);
  phased = v.phased;
}

phase-IsReported :
    (p : AppPhase) (s : AppState) → IsReported s → IsReported (apply (WorkflowEvent.phase p) s)
unfolding apply
phase-IsReported AppPhase.inspecting s v = record { logged = λ m h. cc; phased = refl }
phase-IsReported AppPhase.idle s v = same-IsReported s _ refl refl refl v
phase-IsReported AppPhase.authenticating s v = same-IsReported s _ refl refl refl v
phase-IsReported AppPhase.waiting_for_login s v = same-IsReported s _ refl refl refl v
phase-IsReported AppPhase.preparing_materials s v = same-IsReported s _ refl refl refl v
phase-IsReported AppPhase.signing s v = same-IsReported s _ refl refl refl v
phase-IsReported AppPhase.ready_to_install s v = same-IsReported s _ refl refl refl v
phase-IsReported AppPhase.installing s v = same-IsReported s _ refl refl refl v
phase-IsReported AppPhase.done s v = same-IsReported s _ refl refl refl v
phase-IsReported AppPhase.error s v = same-IsReported s _ refl refl refl v

apply-IsReported : (e : WorkflowEvent) (s : AppState) → IsReported s → IsReported (apply e s)
unfolding apply
apply-IsReported (WorkflowEvent.phase p) s v = phase-IsReported p s v
apply-IsReported (WorkflowEvent.progress level message) s v = log-IsReported level message s v
apply-IsReported (WorkflowEvent.devices found) s v = same-IsReported s _ refl refl refl v
apply-IsReported (WorkflowEvent.device_scan_failed message) s v =
    same-IsReported (with_log LogLevel.warning message s) _ refl refl refl
      (log-IsReported LogLevel.warning message s v)
apply-IsReported (WorkflowEvent.signed output bundle_name ability) s v =
    same-IsReported s _ refl refl refl v
apply-IsReported (WorkflowEvent.installed pid) s v = same-IsReported s _ refl refl refl v
apply-IsReported (WorkflowEvent.failed message) s v = record {
  logged = λ m h. append_right s.logs (
      head (ap (λ t. record { level = LogLevel.error; message = t }) (sym (some-injective _ _ h))));
  phased = refl;
}

from-IsReported :
    (es : List WorkflowEvent) (s : AppState) → IsReported s → IsReported (apply_all es s)
unfolding apply_all
from-IsReported [] s v = v
from-IsReported (e ∷ es) s v = from-IsReported es (apply e s) (apply-IsReported e s v)

-- After any events, an error that is shown stands in the log as an error, and the phase that failed
-- is set exactly when an error is shown.
pub apply_all-IsReported : (es : List WorkflowEvent) → IsReported (apply_all es initial)
unfolding initial
apply_all-IsReported es = from-IsReported es initial (record { logged = λ m h. cc; phased = refl })
