-- ===== src/App/Gui.antt =====
-- The controller of src/app/gui.rs: the fields of `HapResignerApp` and what its handlers do with them.
-- The threads that a handler spawns are returned. Drawing is not modelled, the file dialog's answer is
-- an argument, and times are in milliseconds.
pub mod Steps
use hap_resigner.Prelude.{
  ℕ, ◌-◌, ◌==◌, Bool, true, false, not, ◌&&◌, ◌||◌, Option, none, some, List, [], ◌∷◌, ◌++◌,
  if◌then◌else◌, is_none, bytes_eq, and_then, Text, utf8,
}
use mathlib.Core.Option
use hap_resigner.App.State.{
  DeviceInfo, AppPhase, AppState, WorkflowEvent, initial, can_start, can_install, apply,
}
use hap_resigner.App.Devices.{device_scan_plan, find_udid, resolve_selected_device}

pub record HapResignerApp : Type 0 where
  pub state : AppState
  pub selected_hap : Option Text
  pub operation_device : Option DeviceInfo
  pub remembered_device_udid : Option Text
  pub device_scan_running : Bool
  pub device_scan_pending : Bool
  pub last_device_scan_started : ℕ
  pub install_started : Bool

-- A thread that a handler starts.
pub data Spawn : Type 0 where
  scan : Spawn
  resign : Text → DeviceInfo → Spawn
  install : Text → Text → Text → DeviceInfo → Spawn

abbrev pub Handled : Type 0
Handled = HapResignerApp × List Spawn

unfoldable pub new_app : Option Text → ℕ → Handled
new_app remembered_device_udid now = (
  record {
    state = initial;
    selected_hap = none;
    operation_device = none;
    remembered_device_udid = remembered_device_udid;
    device_scan_running = true;
    device_scan_pending = false;
    last_device_scan_started = now;
    install_started = false;
  },
  scan ∷ [],
)

-- What follows a plan, from its two fields.
abbrev pub follow_plan : ℕ → HapResignerApp → Bool → Bool → Handled
follow_plan now app true pending = (
  record app {
    device_scan_pending = pending;
    device_scan_running = true;
    last_device_scan_started = now;
  },
  scan ∷ [],
)
follow_plan now app false pending = (record app { device_scan_pending = pending }, [])

unfoldable pub request_device_scan : Bool → ℕ → HapResignerApp → Handled
request_device_scan menu_just_opened now app =
    let plan =
      device_scan_plan app.state.phase app.device_scan_running app.device_scan_pending
        (now - app.last_device_scan_started) menu_just_opened in
    follow_plan now app plan.start plan.pending

abbrev selected : HapResignerApp → List DeviceInfo → Option DeviceInfo
selected app devices =
    resolve_selected_device devices (Option.map (λ (d : DeviceInfo). d.udid) app.state.device)
      app.remembered_device_udid

unfoldable pub handle_event : ℕ → WorkflowEvent → HapResignerApp → Handled
handle_event now (WorkflowEvent.devices devices) app =
    let listed = apply (WorkflowEvent.devices devices) app.state in
    request_device_scan false now (record app {
      state = record listed { device = selected app devices };
      device_scan_running = false;
    })
handle_event now (WorkflowEvent.device_scan_failed error) app =
    request_device_scan false now (record app {
      state = apply (WorkflowEvent.device_scan_failed error) app.state;
      device_scan_running = false;
    })
handle_event now (WorkflowEvent.phase p) app =
    (record app { state = apply (WorkflowEvent.phase p) app.state }, [])
handle_event now (WorkflowEvent.progress level message) app =
    (record app { state = apply (WorkflowEvent.progress level message) app.state }, [])
handle_event now (WorkflowEvent.signed output bundle_name ability) app =
    (record app { state = apply (WorkflowEvent.signed output bundle_name ability) app.state }, [])
handle_event now (WorkflowEvent.installed pid) app =
    (record app { state = apply (WorkflowEvent.installed pid) app.state }, [])
handle_event now (WorkflowEvent.failed message) app =
    (record app { state = apply (WorkflowEvent.failed message) app.state }, [])

-- `self.state.apply(Failed("请先在顶栏选择设备"))`, as in `active_device_or_fail` without a device.
abbrev pub without_device : HapResignerApp → HapResignerApp
without_device app = record app {
  state = apply (WorkflowEvent.failed (utf8 "请先在顶栏选择设备")) app.state;
}

-- `start_resign` behind `active_device_or_fail`.
abbrev pub start_on : Text → HapResignerApp → Option DeviceInfo → Handled
start_on path app none = (without_device app, [])
start_on path app (some device) =
    let cleared = record app.state { logs = [] } in
    let inspecting = apply (WorkflowEvent.phase AppPhase.inspecting) cleared in
    (
      record app {
        selected_hap = some path;
        operation_device = some device;
        install_started = false;
        state = record inspecting { signed_hap = none; bundle_name = none; ability = none };
      },
      resign path device ∷ [],
    )

unfoldable pub start_resign : Text → HapResignerApp → Handled
start_resign path app =
    if not (can_start app.state) then (app, []) else start_on path app app.state.device

-- `picked` is what the file dialog returns.
abbrev pub start_picked : Option Text → HapResignerApp → Handled
start_picked none app = (app, [])
start_picked (some path) app = start_resign path app

unfoldable pub choose_hap : Option Text → HapResignerApp → Handled
choose_hap picked app =
    if is_none app.state.device then (without_device app, []) else start_picked picked app

-- The `let … else` of `start_install`.
abbrev pub install_of :
    HapResignerApp → Option Text → Option Text → Option Text → Option DeviceInfo → Handled
install_of app (some hap) (some bundle) (some ability) (some device) =
    (record app { install_started = true }, install hap bundle ability device ∷ [])
install_of app (some hap) (some bundle) (some ability) none = (without_device app, [])
install_of app (some hap) (some bundle) none device = (without_device app, [])
install_of app (some hap) none ability device = (without_device app, [])
install_of app none bundle ability device = (without_device app, [])

unfoldable pub start_install : HapResignerApp → Handled
start_install app =
    if app.install_started || not (can_install app.state)
    then (app, [])
    else install_of app app.state.signed_hap app.state.bundle_name app.state.ability
        app.operation_device

abbrev pub retry_on : Option Text → Option Text → HapResignerApp → Handled
retry_on none picked app = choose_hap picked app
retry_on (some path) picked app = start_resign path app

unfoldable pub retry : Option Text → HapResignerApp → Handled
retry picked app =
    if is_none app.state.device
    then (without_device app, [])
    else retry_on app.selected_hap picked app

abbrev is_ready : AppPhase → Bool
is_ready p = elim p [ AppPhase.ready_to_install ↦ true | _ ↦ false ]

unfoldable pub should_auto_install : AppPhase → Bool → Bool
should_auto_install phase install_started = is_ready phase && not install_started

-- What the frame loop does behind the events.
unfoldable pub auto_install : HapResignerApp → Handled
auto_install app =
    if should_auto_install app.state.phase app.install_started then start_install app else (app, [])

abbrev same_udid : Option Text → Option Text → Bool
same_udid none none = true
same_udid none (some v) = false
same_udid (some u) none = false
same_udid (some u) (some v) = bytes_eq u v

-- The choice in the device menu: a new udid is remembered, and its device selected if it is listed.
unfoldable pub select_device : Option Text → HapResignerApp → HapResignerApp
select_device udid app =
    if same_udid udid (Option.map (λ (d : DeviceInfo). d.udid) app.state.device)
    then app
    else record app {
      remembered_device_udid = udid;
      state = record app.state { device = and_then udid (find_udid app.state.devices) };
    }

-- What the user and the frame loop can do at any time.
pub data Action : Type 0 where
  request_scan : Bool → ℕ → Action
  resign_file : Text → Action
  choose_file : Option Text → Action
  retry_file : Option Text → Action
  install_signed : Action
  install_ready : Action
  choose_device : Option Text → Action

unfoldable pub perform : Action → HapResignerApp → Handled
perform (request_scan menu_just_opened now) app = request_device_scan menu_just_opened now app
perform (resign_file path) app = start_resign path app
perform (choose_file picked) app = choose_hap picked app
perform (retry_file picked) app = retry picked app
perform install_signed app = start_install app
perform install_ready app = auto_install app
perform (choose_device udid) app = (select_device udid app, [])
