-- ===== src/App/Gui/Steps/Received.antt =====
-- What the user interface keeps when it receives an event.
use hap_resigner.Prelude.{ℕ, ◌+◌, ◌≤◌, ◌≡◌, refl, Bool, true, false, ◌⊎◌, inl, arith, is_some}
use hap_resigner.App.State.{AppState, AppPhase, WorkflowEvent, apply}
use hap_resigner.App.Gui.{HapResignerApp, Handled, handle_event, request_device_scan}
use hap_resigner.App.Gui.Steps.Handlers.{
  one_if, is_scan, is_resign, count, IsNamed, request_device_scan-Keeps,
}

abbrev pub ends_scan : WorkflowEvent → Bool
ends_scan e = elim e [
  | WorkflowEvent.devices found ↦ true
  | WorkflowEvent.device_scan_failed message ↦ true
  | _ ↦ false
]

abbrev pub is_signed : WorkflowEvent → Bool
is_signed e = elim e [ WorkflowEvent.signed output bundle_name ability ↦ true | _ ↦ false ]

-- What is kept when the interface receives an event: a scan's last one makes room for the next scan.
pub record Receives (app : HapResignerApp) (e : WorkflowEvent) (h : Handled) : Type 0 where
  pub scans :
      one_if (ends_scan e) ≤ one_if app.device_scan_running
      → one_if h.0.device_scan_running + one_if (ends_scan e)
        ≡ one_if app.device_scan_running + count is_scan h.1
  pub named : (is_signed e ≡ true → is_some app.operation_device ≡ true) → IsNamed app → IsNamed h.0
  pub device : is_some app.operation_device ≡ true → is_some h.0.operation_device ≡ true
  pub resigns : (count is_resign h.1 ≡ 0) ⊎ (is_some h.0.operation_device ≡ true)

one_if-running : (b : Bool) → 1 ≤ one_if b → one_if b ≡ 1
one_if-running true h = refl
one_if-running false h = absurd (omega arith)

scan_ended :
    (now : ℕ) (app : HapResignerApp) (state : AppState) (e : WorkflowEvent)
    → one_if (ends_scan e) ≡ 1
    → (IsNamed app → IsNamed (record app { state = state; device_scan_running = false }))
    → Receives app e
        (request_device_scan false now (record app { state = state; device_scan_running = false }))
scan_ended now app state e one named =
    let k =
      request_device_scan-Keeps false now
        (record app { state = state; device_scan_running = false }) in
    record {
      scans = λ room.
          let ran = one_if-running app.device_scan_running (omega arith) in omega (arith, k.scans);
      named = λ _ n. k.named (named n);
      device = k.device;
      resigns = k.resigns;
    }

phase-IsNamed :
    (p : AppPhase) (app : HapResignerApp)
    → IsNamed app
    → IsNamed (record app { state = apply (WorkflowEvent.phase p) app.state })
unfolding apply
phase-IsNamed AppPhase.idle app n = n
phase-IsNamed AppPhase.inspecting app n = n
phase-IsNamed AppPhase.authenticating app n = n
phase-IsNamed AppPhase.waiting_for_login app n = n
phase-IsNamed AppPhase.preparing_materials app n = n
phase-IsNamed AppPhase.signing app n = n
phase-IsNamed AppPhase.ready_to_install app n = n
phase-IsNamed AppPhase.installing app n = n
phase-IsNamed AppPhase.done app n = n
phase-IsNamed AppPhase.error app n = n

pub handle_event-Receives :
    (now : ℕ) (e : WorkflowEvent) (app : HapResignerApp) → Receives app e (handle_event now e app)
unfolding handle_event apply
handle_event-Receives now (WorkflowEvent.devices found) app =
    scan_ended now app _ (WorkflowEvent.devices found) refl (λ n. n)
handle_event-Receives now (WorkflowEvent.device_scan_failed message) app =
    scan_ended now app _ (WorkflowEvent.device_scan_failed message) refl (λ n. n)
handle_event-Receives now (WorkflowEvent.phase p) app = record {
  scans = λ _. omega arith;
  named = λ _. phase-IsNamed p app;
  device = λ d. d;
  resigns = inl refl;
}
handle_event-Receives now (WorkflowEvent.progress level message) app = record {
  scans = λ _. omega arith;
  named = λ _ n. n;
  device = λ d. d;
  resigns = inl refl;
}
handle_event-Receives now (WorkflowEvent.signed output bundle_name ability) app = record {
  scans = λ _. omega arith;
  named = λ known n h. (refl, refl, known refl);
  device = λ d. d;
  resigns = inl refl;
}
handle_event-Receives now (WorkflowEvent.installed pid) app = record {
  scans = λ _. omega arith;
  named = λ _ n. n;
  device = λ d. d;
  resigns = inl refl;
}
handle_event-Receives now (WorkflowEvent.failed message) app = record {
  scans = λ _. omega arith;
  named = λ _ n. n;
  device = λ d. d;
  resigns = inl refl;
}
