-- ===== src/App/State.antt =====
-- src/app/state.rs: the state that the user interface shows, and how an event of a worker thread
-- changes it.
pub mod Reports
use hap_resigner.Prelude.{
  ℕ, Bool, true, false, ◌&&◌, Option, none, some, List, [], ◌∷◌, ◌++◌, if◌then◌else◌, is_some, Text,
}

-- `DeviceInfo` of src/device/hdc.rs.
pub record DeviceInfo : Type 0 where
  pub target : Text
  pub udid : Text
  pub model : Text

pub data AppPhase : Type 0 where
  idle inspecting authenticating waiting_for_login preparing_materials signing : AppPhase
  ready_to_install installing done error : AppPhase

pub data LogLevel : Type 0 where
  info success warning error : LogLevel

pub record LogEntry : Type 0 where
  pub level : LogLevel
  pub message : Text

pub data WorkflowEvent : Type 0 where
  phase : AppPhase → WorkflowEvent
  progress : LogLevel → Text → WorkflowEvent
  devices : List DeviceInfo → WorkflowEvent
  device_scan_failed : Text → WorkflowEvent
  signed : Text → Text → Text → WorkflowEvent
  installed : ℕ → WorkflowEvent
  failed : Text → WorkflowEvent

pub record AppState : Type 0 where
  pub phase : AppPhase
  pub failed_phase : Option AppPhase
  pub logs : List LogEntry
  pub error : Option Text
  pub device_scan_error : Option Text
  pub devices : List DeviceInfo
  pub device : Option DeviceInfo
  pub signed_hap : Option Text
  pub bundle_name : Option Text
  pub ability : Option Text
  pub pid : Option ℕ

-- `AppState::default()`.
unfoldable pub initial : AppState
initial = record {
  phase = AppPhase.idle;
  failed_phase = none;
  logs = [];
  error = none;
  device_scan_error = none;
  devices = [];
  device = none;
  signed_hap = none;
  bundle_name = none;
  ability = none;
  pid = none;
}

unfoldable pub is_startable : AppPhase → Bool
is_startable AppPhase.idle = true
is_startable AppPhase.inspecting = false
is_startable AppPhase.authenticating = false
is_startable AppPhase.waiting_for_login = false
is_startable AppPhase.preparing_materials = false
is_startable AppPhase.signing = false
is_startable AppPhase.ready_to_install = true
is_startable AppPhase.installing = false
is_startable AppPhase.done = true
is_startable AppPhase.error = true

unfoldable pub can_start : AppState → Bool
can_start s = is_startable s.phase

abbrev is_ready : AppPhase → Bool
is_ready p = elim p [ AppPhase.ready_to_install ↦ true | _ ↦ false ]

unfoldable pub can_install : AppState → Bool
can_install s = is_ready s.phase && is_some s.signed_hap

abbrev is_inspecting : AppPhase → Bool
is_inspecting p = elim p [ AppPhase.inspecting ↦ true | _ ↦ false ]

-- `self.logs.push(LogEntry { level, message })`.
abbrev pub with_log : LogLevel → Text → AppState → AppState
with_log level message s = record s {
  logs = s.logs ++ (record { level = level; message = message } ∷ []);
}

unfoldable pub apply : WorkflowEvent → AppState → AppState
apply (phase p) s =
    let next = record s { phase = p } in
    if is_inspecting p then record next { error = none; failed_phase = none; pid = none } else next
apply (progress level message) s = with_log level message s
apply (devices found) s = record s { devices = found; device_scan_error = none }
apply (device_scan_failed message) s = record (with_log LogLevel.warning message s) {
  device_scan_error = some message;
}
apply (signed output bundle_name ability) s = record s {
  signed_hap = some output;
  bundle_name = some bundle_name;
  ability = some ability;
  phase = AppPhase.ready_to_install;
}
apply (installed pid) s = record s { pid = some pid; phase = AppPhase.done }
apply (failed message) s =
    record (with_log LogLevel.error message (record s { failed_phase = some s.phase })) {
      error = some message;
      phase = AppPhase.error;
    }

-- The user interface applies what the channel delivers, in order.
unfoldable pub apply_all : List WorkflowEvent → AppState → AppState
apply_all [] s = s
apply_all (e ∷ es) s = apply_all es (apply e s)
