-- ===== src/App/Workflow.antt =====
-- src/app/workflow.rs: what the worker threads do, and which events they send on the way. The calls
-- of other components and of the system are parameters with a result each; `sign_hap` is the model's.
pub mod Busy
use hap_resigner.Prelude.{
  pos, ℕ, Option, none, some, List, [], ◌∷◌, ◌++◌, Result, ok, err, map_err, unwrap_or, Bytes, Text,
  codes, utf8,
}
use hap_resigner.SignErrors.{HapSignError}
use hap_resigner.External.{Libraries, SigningIdentity}
use hap_resigner.Sign.{sign_hap}
use hap_resigner.Materials.Manager.{PrepareRequest}
use hap_resigner.App.State.{DeviceInfo, AppPhase, LogLevel, WorkflowEvent}
use hap_resigner.App.Trace.{Trace, ◌>>=◌, ◌>>◌, call, done, send, emit_phase, emit, spawn}

-- `HapInfo` of src/hap/info.rs.
pub record HapInfo : Type 0 where
  pub bundle_name : Text
  pub version_name : Option Text
  pub main_element : Option Text

-- The part of `PreparedMaterials` that the workflow reads.
pub record Prepared (SigningKey : Type 0) : Type 0 where
  pub profile : Bytes
  pub identity : SigningIdentity SigningKey

-- What the threads call. An error is its text; `decimal` is `to_string` of a number.
pub record Services (lib : Libraries) : Type 1 where
  pub Store : Type 0
  pub Auth : Type 0
  pub Token : Type 0
  pub Api : Type 0
  pub Hdc : Type 0
  pub read_hap_info : Text → Result Text HapInfo
  pub material_store : Result Text Store
  pub now : ℕ
  pub timestamp : ℕ
  pub find_local_materials :
      Store → Text → Text → ℕ → Result Text (Option (Prepared lib.SigningKey))
  pub auth_client : Result Text Auth
  pub stored_token : Option Token
  pub refresh_token : Auth → Token → Option Token
  pub save_token : Token → Result Text (Unit {0})
  pub browser_login : Auth → ℕ → Result Text Token
  pub agc_client : Token → Result Text Api
  pub team_id : Token → Text
  pub random_password : Text
  pub random_label_suffix : Text
  pub decimal : ℕ → Text
  pub prepare_materials_with_api :
      Store → Api → PrepareRequest → Result Text (Prepared lib.SigningKey)
  pub read_file : Text → Result Text Bytes
  pub sign_error_text : HapSignError → Text
  pub file_stem : Text → Option Text
  pub with_file_name : Text → Text → Text
  pub atomic_write : Text → Bytes → Result Text (Unit {0})
  pub discover : Result Text Hdc
  pub list_devices : Hdc → Result Text (List DeviceInfo)
  pub install : Hdc → DeviceInfo → Text → Result Text (Unit {0})
  pub launch : Hdc → DeviceInfo → Text → Text → Result Text (Unit {0})
  pub pid : Hdc → DeviceInfo → Text → Result Text ℕ

-- The `match` of `spawn_device_scan`.
abbrev pub scan_event : Result Text (List DeviceInfo) → WorkflowEvent
scan_event (ok found) = WorkflowEvent.devices found
scan_event (err message) = WorkflowEvent.device_scan_failed message

module _ (lib : Libraries) (services : Services lib) where
  open services use {
    Store, Auth, Token, Hdc, read_hap_info, material_store, now, timestamp, find_local_materials,
    auth_client, stored_token, refresh_token, save_token, browser_login, agc_client, team_id,
    random_password, random_label_suffix, decimal, prepare_materials_with_api, read_file,
    sign_error_text, file_stem, with_file_name, atomic_write, discover, list_devices, install,
    launch, pid,
  }

  -- `HdcClient::discover().and_then(|hdc| hdc.list_devices())`.
  abbrev devices_of : Result Text Hdc → Result Text (List DeviceInfo)
  devices_of (ok hdc) = list_devices hdc
  devices_of (err message) = err message

  unfoldable pub spawn_device_scan : List WorkflowEvent
  spawn_device_scan = scan_event (devices_of discover) ∷ []

  unfoldable pub install_work : Text → Text → Text → DeviceInfo → Trace ℕ
  install_work signed_hap bundle_name ability device = do
    emit_phase AppPhase.installing
    hdc ← call discover
    call (install hdc device signed_hap)
    emit LogLevel.success (utf8 "HAP 安装成功")
    call (launch hdc device bundle_name ability)
    call (pid hdc device bundle_name)

  unfoldable pub spawn_install : Text → Text → Text → DeviceInfo → List WorkflowEvent
  spawn_install signed_hap bundle_name ability device = spawn (do
    pid ← install_work signed_hap bundle_name ability device
    send (WorkflowEvent.installed pid))

  -- The refreshed token, if one is stored, reads as one and can be refreshed.
  abbrev pub refreshed_token : Auth → Option Token → Option Token
  refreshed_token auth none = none
  refreshed_token auth (some token) = refresh_token auth token

  -- The two ends of `load_or_login`: with a refreshed token and without.
  unfoldable pub use_or_login : Auth → Option Token → Trace Token
  use_or_login auth (some token) = do
    call (save_token token)
    emit LogLevel.success (utf8 "华为账号令牌已刷新")
    done token
  use_or_login auth none = do
    emit LogLevel.info (utf8 "正在打开浏览器登录华为账号")
    emit_phase AppPhase.waiting_for_login
    token ← call (browser_login auth 10101)
    call (save_token token)
    done token

  unfoldable pub load_or_login : Auth → Trace Token
  load_or_login auth = use_or_login auth (refreshed_token auth stored_token)

  unfoldable pub output_path : Text → Text
  output_path input =
      with_file_name input (unwrap_or (file_stem input) (codes "app") ++ codes "-resigned.hap")

  unfoldable pub prepare_request : HapInfo → DeviceInfo → Token → PrepareRequest
  prepare_request info device token = record {
    bundle_name = info.bundle_name;
    udid = device.udid;
    now_unix = pos now;
    team_id = team_id token;
    new_password = random_password;
    device_name = codes "hap_resigner_" ++ decimal timestamp;
    device_type = codes "4";
    certificate_name =
        codes "hap_resigner_debug_" ++ (decimal timestamp ++ (codes "_" ++ random_label_suffix));
    provision_name = codes "hap_resigner_profile_" ++ decimal timestamp;
  }

  -- The arms of the `if let Some(materials) = find_local_materials(…)`.
  unfoldable pub prepared_or_fetched :
      HapInfo
      → DeviceInfo
      → Store
      → Option (Prepared lib.SigningKey)
      → Trace (Prepared lib.SigningKey)
  prepared_or_fetched info device store (some materials) = do
    emit LogLevel.success (utf8 "复用本地证书与 Profile")
    done materials
  prepared_or_fetched info device store none = do
    emit_phase AppPhase.authenticating
    auth ← call auth_client
    token ← load_or_login auth
    api ← call (agc_client token)
    emit_phase AppPhase.preparing_materials
    call (prepare_materials_with_api store api (prepare_request info device token))

  -- From the prepared materials to the written file, whose path it returns.
  unfoldable pub sign_and_write : Text → Prepared lib.SigningKey → Trace Text
  sign_and_write input prepared = do
    emit_phase AppPhase.signing
    input_bytes ← call (read_file input)
    output_bytes ←
        call (map_err sign_error_text (sign_hap lib input_bytes prepared.identity prepared.profile))
    let output = output_path input
    call (atomic_write output output_bytes)
    emit LogLevel.success (utf8 "签名完成：" ++ output)
    done output

  -- `resign` before its last event.
  unfoldable pub resign_work : Text → DeviceInfo → Trace (Text × HapInfo)
  resign_work input device = do
    emit_phase AppPhase.inspecting
    info ← call (read_hap_info input)
    emit LogLevel.success
        (utf8 "识别 HAP：" ++ (info.bundle_name ++ (codes " " ++ unwrap_or info.version_name [])))
    emit LogLevel.success (utf8 "设备：" ++ device.model)
    store ← call material_store
    found ← call (find_local_materials store info.bundle_name device.udid now)
    prepared ← prepared_or_fetched info device store found
    output ← sign_and_write input prepared
    done (output, info)

  unfoldable pub resign : Text → DeviceInfo → Trace (Unit {0})
  resign input device = do
    (output, info) ← resign_work input device
    send (
        WorkflowEvent.signed output info.bundle_name
          (unwrap_or info.main_element (codes "EntryAbility")))

  unfoldable pub spawn_resign : Text → DeviceInfo → List WorkflowEvent
  spawn_resign input device = spawn (resign input device)
