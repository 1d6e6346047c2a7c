-- ===== src/Tests/App.antt =====
-- Runs of the application: a device is found, a file is signed on it and is ready to install.
use mathlib.Core.List.{Memᴰ}
use mathlib.Core.List.Memᴰ.{head}
use hap_resigner.Prelude.{
  ◌≡◌, refl, ap, true, false, ◌⊎◌, none, some, List, [], ◌∷◌, ◌++◌, ok, err, Text, codes, utf8,
  bytes_eq,
}
use hap_resigner.App.State.{
  DeviceInfo, AppPhase, LogLevel, WorkflowEvent, initial, apply, apply_all, can_start, can_install,
  is_startable,
}
use hap_resigner.App.State.Reports.{IsReported, apply_all-IsReported}
use hap_resigner.App.Trace.{spawn}
use hap_resigner.App.Workflow.{
  Services, install_work, spawn_resign, spawn_install, resign, resign_work, prepared_or_fetched,
  sign_and_write, output_path, spawn_device_scan,
}
use hap_resigner.App.Runs.{IsRun, IsFailed, IsInstalled, spawn_install-IsRun}
use hap_resigner.App.Devices.{
  resolve_selected_device, device_scan_plan, device_controls_enabled, find_udid,
}
use hap_resigner.App.Devices.Laws.{resolve_selected_device-Mem, resolve_selected_device-kept}
use hap_resigner.App.Gui.{
  HapResignerApp, install, start_install, new_app, perform, handle_event, request_device_scan,
  start_resign, resign_file,
}
use hap_resigner.App.Gui.Steps.{System, Reachable, begin, step, act, receive, spawned, events_of}
use hap_resigner.App.Gui.Steps.Sound.{IsSound, Reachable-IsSound}
use hap_resigner.App.Gui.Steps.Install.{start_install-starts}
use hap_resigner.Tests.Samples.{sample, signer, empty_zip, sample_profile}
use hap_resigner.Tests.Hap.{sign_hap-signed_file}

abbrev phone : DeviceInfo
phone = record { target = codes "usb"; udid = codes "u1"; model = codes "Phone" }

abbrev tablet : DeviceInfo
tablet = record { target = codes "net"; udid = codes "u2"; model = codes "Tablet" }

-- One phone, and materials for it on disk.
abbrev services : Services sample
services = record {
  Store = Unit {0};
  Auth = Unit {0};
  Token = Unit {0};
  Api = Unit {0};
  Hdc = Unit {0};
  read_hap_info =
      λ path. ok (record { bundle_name = codes "demo"; version_name = none; main_element = none });
  material_store = ok tt;
  now = 0;
  timestamp = 0;
  find_local_materials =
      λ store bundle udid now. ok (some (record { profile = sample_profile; identity = signer }));
  auth_client = ok tt;
  stored_token = none;
  refresh_token = λ auth token. none;
  save_token = λ token. ok tt;
  browser_login = λ auth port. ok tt;
  agc_client = λ token. ok tt;
  team_id = λ token. [];
  random_password = [];
  random_label_suffix = [];
  decimal = λ n. [];
  prepare_materials_with_api = λ store api request. err (codes "offline");
  read_file = λ path. ok empty_zip;
  sign_error_text = λ error. codes "signing failed";
  file_stem = λ path. some path;
  with_file_name = λ path name. name;
  atomic_write = λ path bytes. ok tt;
  discover = ok tt;
  list_devices = λ hdc. ok (phone ∷ []);
  install = λ hdc device path. ok tt;
  launch = λ hdc device bundle ability. ok tt;
  pid = λ hdc device bundle. ok 42;
}

spawn_install-IsRun_example :
    IsRun (spawn_install sample services (codes "a") (codes "demo") (codes "Main") phone) initial
    × (IsInstalled (install_work sample services (codes "a") (codes "demo") (codes "Main") phone) (
          apply_all
            (spawn_install sample services (codes "a") (codes "demo") (codes "Main") phone)
            initial)
        ⊎ IsFailed
            (install_work sample services (codes "a") (codes "demo") (codes "Main") phone)
            initial
            (apply_all
              (spawn_install sample services (codes "a") (codes "demo") (codes "Main") phone)
              initial))
spawn_install-IsRun_example =
    spawn_install-IsRun sample services (codes "a") (codes "demo") (codes "Main") phone initial

apply_all-IsReported_example : IsReported (
    apply_all
      (WorkflowEvent.phase AppPhase.signing ∷ (WorkflowEvent.failed (codes "x") ∷ []))
      initial)
apply_all-IsReported_example =
    apply_all-IsReported
      (WorkflowEvent.phase AppPhase.signing ∷ (WorkflowEvent.failed (codes "x") ∷ []))

phone_resolved :
    resolve_selected_device (phone ∷ (tablet ∷ [])) (some (codes "u1")) none ≡ some phone
unfolding resolve_selected_device find_udid bytes_eq
phone_resolved = refl

resolve_selected_device-Mem_example : Memᴰ phone (phone ∷ (tablet ∷ []))
resolve_selected_device-Mem_example =
    resolve_selected_device-Mem (phone ∷ (tablet ∷ [])) (some (codes "u1")) none phone_resolved

resolve_selected_device-kept_example :
    (e : DeviceInfo) × (resolve_selected_device
        (phone ∷ (tablet ∷ []))
        (some (codes "u1"))
        (some (codes "u2"))
      ≡ some e)
    × Memᴰ e (phone ∷ (tablet ∷ []))
    × (e.udid ≡ codes "u1")
resolve_selected_device-kept_example =
    resolve_selected_device-kept (phone ∷ (tablet ∷ [])) phone (some (codes "u2")) (head refl)

-- What the signing thread sends.
abbrev sent : List WorkflowEvent
sent =
    WorkflowEvent.phase AppPhase.inspecting
    ∷ (WorkflowEvent.progress LogLevel.success (utf8 "识别 HAP：" ++ codes "demo ")
        ∷ (WorkflowEvent.progress LogLevel.success (utf8 "设备：" ++ codes "Phone")
            ∷ (WorkflowEvent.progress LogLevel.success (utf8 "复用本地证书与 Profile")
                ∷ (WorkflowEvent.phase AppPhase.signing
                    ∷ (WorkflowEvent.progress LogLevel.success
                          (utf8 "签名完成：" ++ codes "a-resigned.hap")
                        ∷ (WorkflowEvent.signed (codes "a-resigned.hap") (codes "demo")
                              (codes "EntryAbility")
                            ∷ []))))))

spawn_resign-sent : spawn_resign sample services (codes "a") phone ≡ sent
unfolding spawn_resign resign resign_work prepared_or_fetched sign_and_write output_path spawn
spawn_resign-sent = rw sign_hap-signed_file

-- The interface when the file is signed.
abbrev ready_app : HapResignerApp
ready_app = record {
  state = record {
    phase = AppPhase.ready_to_install;
    failed_phase = none;
    logs =
        record { level = LogLevel.success; message = utf8 "识别 HAP：" ++ codes "demo " }
        ∷ (record { level = LogLevel.success; message = utf8 "设备：" ++ codes "Phone" }
            ∷ (record { level = LogLevel.success; message = utf8 "复用本地证书与 Profile" }
                ∷ (record {
                  level = LogLevel.success;
                  message = utf8 "签名完成：" ++ codes "a-resigned.hap";
                }
                    ∷ [])));
    error = none;
    device_scan_error = none;
    devices = phone ∷ [];
    device = some phone;
    signed_hap = some (codes "a-resigned.hap");
    bundle_name = some (codes "demo");
    ability = some (codes "EntryAbility");
    pid = none;
  };
  selected_hap = some (codes "a");
  operation_device = some phone;
  remembered_device_udid = none;
  device_scan_running = false;
  device_scan_pending = false;
  last_device_scan_started = 0;
  install_started = false;
}

abbrev ready : System
ready = record { app = ready_app; threads = [] ∷ ([] ∷ []) }

ready-Reachable : Reachable sample ready
unfolding spawned events_of new_app spawn_device_scan handle_event request_device_scan
    device_scan_plan device_controls_enabled resolve_selected_device perform start_resign can_start
    is_startable apply initial
ready-Reachable =
    let listed : Reachable sample _ =
      step (begin services none 0)
        (receive services 0 [] [] (WorkflowEvent.devices (phone ∷ [])) [] refl) in
    let started : Reachable sample _ = step listed (act services (resign_file (codes "a"))) in
    let next : List WorkflowEvent → List (List WorkflowEvent) = λ es. es ∷ ([] ∷ []) in
    let inspecting : Reachable sample _ =
      step started (receive services 0 [] ([] ∷ []) _ _ (ap next spawn_resign-sent)) in
    let named : Reachable sample _ = step inspecting (receive services 0 [] ([] ∷ []) _ _ refl) in
    let shown : Reachable sample _ = step named (receive services 0 [] ([] ∷ []) _ _ refl) in
    let found : Reachable sample _ = step shown (receive services 0 [] ([] ∷ []) _ _ refl) in
    let signing : Reachable sample _ = step found (receive services 0 [] ([] ∷ []) _ _ refl) in
    let done : Reachable sample _ = step signing (receive services 0 [] ([] ∷ []) _ _ refl) in
    step done (receive services 0 [] ([] ∷ []) _ _ refl)

Reachable-IsSound_example : IsSound ready
Reachable-IsSound_example = Reachable-IsSound sample ready-Reachable

start_install-starts_example :
    (hap bundle ability : Text) × (device : DeviceInfo) × (some (codes "a-resigned.hap") ≡ some hap)
    × (some phone ≡ some device)
    × (start_install ready_app
        ≡ (record ready_app { install_started = true }, install hap bundle ability device ∷ []))
    × ((start_install (start_install ready_app).0).1 ≡ [])
unfolding can_install
start_install-starts_example = start_install-starts sample ready-Reachable refl refl
