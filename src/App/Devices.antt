-- ===== src/App/Devices.antt =====
-- The device list of src/app/gui.rs: when a scan starts, and which device is selected after it.
use hap_resigner.Prelude.{
  ℕ, ◌-◌, Bool, true, false, not, ◌||◌, Option, none, some, List, [], ◌∷◌, leb, if◌then◌else◌,
  bytes_eq, and_then, Text,
}
use hap_resigner.App.State.{AppPhase, DeviceInfo}
pub mod Laws

-- `DEVICE_SCAN_INTERVAL`, in milliseconds.
abbrev pub device_scan_interval : ℕ
device_scan_interval = 3000

pub record DeviceScanPlan : Type 0 where
  pub start : Bool
  pub pending : Bool

abbrev pub idle_plan : DeviceScanPlan
idle_plan = record { start = false; pending = false }

abbrev pub start_plan : DeviceScanPlan
start_plan = record { start = true; pending = false }

abbrev pub queued_plan : DeviceScanPlan
queued_plan = record { start = false; pending = true }

unfoldable pub device_controls_enabled : AppPhase → Bool
device_controls_enabled AppPhase.idle = true
device_controls_enabled AppPhase.inspecting = false
device_controls_enabled AppPhase.authenticating = false
device_controls_enabled AppPhase.waiting_for_login = false
device_controls_enabled AppPhase.preparing_materials = false
device_controls_enabled AppPhase.signing = false
device_controls_enabled AppPhase.ready_to_install = false
device_controls_enabled AppPhase.installing = false
device_controls_enabled AppPhase.done = true
device_controls_enabled AppPhase.error = true

-- The `match` on whether a scan runs and whether one is wanted.
abbrev pub plan_of : Bool → Bool → DeviceScanPlan
plan_of true true = queued_plan
plan_of false true = start_plan
plan_of running false = idle_plan

unfoldable pub device_scan_plan : AppPhase → Bool → Bool → ℕ → Bool → DeviceScanPlan
device_scan_plan phase scan_running scan_pending elapsed menu_just_opened =
    if not (device_controls_enabled phase)
    then idle_plan
    else plan_of scan_running
        (scan_pending || (menu_just_opened || leb device_scan_interval elapsed))

-- `devices.iter().find(|device| device.udid == udid)`.
unfoldable pub find_udid : List DeviceInfo → Text → Option DeviceInfo
find_udid [] udid = none
find_udid (d ∷ ds) udid = if bytes_eq d.udid udid then some d else find_udid ds udid

-- `option.or_else(…)`.
abbrev pub or_else : Option DeviceInfo → Option DeviceInfo → Option DeviceInfo
or_else none other = other
or_else (some d) other = some d

abbrev pub find_known : List DeviceInfo → Option Text → Option Text → Option DeviceInfo
find_known devices current_udid remembered_udid =
    or_else (and_then current_udid (find_udid devices))
      (and_then remembered_udid (find_udid devices))

unfoldable pub resolve_selected_device :
    List DeviceInfo → Option Text → Option Text → Option DeviceInfo
resolve_selected_device [] current_udid remembered_udid = find_known [] current_udid remembered_udid
resolve_selected_device (device ∷ []) current_udid remembered_udid = some device
resolve_selected_device (d ∷ (e ∷ ds)) current_udid remembered_udid =
    find_known (d ∷ (e ∷ ds)) current_udid remembered_udid
