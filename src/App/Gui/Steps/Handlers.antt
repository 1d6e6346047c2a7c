-- ===== src/App/Gui/Steps/Handlers.antt =====
-- What each handler of the user interface keeps.
use hap_resigner.Prelude.{
  ℕ, ◌+◌, ◌≡◌, refl, Bool, true, false, not, ◌||◌, ◌⊎◌, inl, inr, Option, none, some, List, [], ◌∷◌,
  arith, if◌then◌else◌, is_some, is_none, and_then, Text,
}
use hap_resigner.App.State.{DeviceInfo, apply, can_start, can_install}
use hap_resigner.App.Devices.{device_scan_plan, plan_of, find_udid, device_controls_enabled}
use hap_resigner.App.Gui.{
  HapResignerApp, Handled, Spawn, scan, resign, Action, perform, follow_plan, start_picked,
  retry_on, should_auto_install, request_scan, resign_file, choose_file, retry_file, install_signed,
  install_ready, choose_device, request_device_scan, start_resign, start_on, choose_hap, retry,
  start_install, install_of, auto_install, select_device, without_device,
}

abbrev pub one_if : Bool → ℕ
one_if true = 1
one_if false = 0

abbrev pub is_scan : Spawn → Bool
is_scan s = elim s [ scan ↦ true | _ ↦ false ]

abbrev pub is_resign : Spawn → Bool
is_resign s = elim s [ resign path device ↦ true | _ ↦ false ]

abbrev pub count : {A : Type 0} → (A → Bool) → List A → ℕ
count p [] = 0
count p (x ∷ xs) = one_if (p x) + count p xs

-- A signed file has its names, and the operation a device.
abbrev pub IsNamed : HapResignerApp → Type 0
IsNamed app =
    is_some app.state.signed_hap ≡ true
    → (is_some app.state.bundle_name ≡ true)
      × (is_some app.state.ability ≡ true)
      × (is_some app.operation_device ≡ true)

-- A handler starts a scan only when none runs, keeps what is known, and starts a resign only with a
-- device.
pub record Keeps (app : HapResignerApp) (h : Handled) : Type 0 where
  pub scans : one_if h.0.device_scan_running ≡ one_if app.device_scan_running + count is_scan h.1
  pub named : IsNamed app → IsNamed h.0
  pub device : is_some app.operation_device ≡ true → is_some h.0.operation_device ≡ true
  pub resigns : (count is_resign h.1 ≡ 0) ⊎ (is_some h.0.operation_device ≡ true)

same-Keeps : (app : HapResignerApp) → Keeps app (app, [])
same-Keeps app = record { scans = omega arith; named = λ n. n; device = λ d. d; resigns = inl refl }

without_device-Keeps : (app : HapResignerApp) → Keeps app (without_device app, [])
unfolding apply
without_device-Keeps app = record {
  scans = omega arith;
  named = λ n. n;
  device = λ d. d;
  resigns = inl refl;
}

plan_of-start : (running wanted : Bool) → (plan_of running wanted).start ≡ true → running ≡ false
plan_of-start true true h = cc
plan_of-start true false h = cc
plan_of-start false wanted h = refl

plan-start :
    (enabled running wanted : Bool)
    → (if not enabled
        then record { start = false; pending = false }
        else plan_of running wanted).start
      ≡ true
    → running ≡ false
plan-start true running wanted h = plan_of-start running wanted h
plan-start false running wanted h = cc

follow_plan-Keeps :
    (now : ℕ) (app : HapResignerApp) (start pending : Bool)
    → (start ≡ true → app.device_scan_running ≡ false)
    → Keeps app (follow_plan now app start pending)
follow_plan-Keeps now app true pending h = record {
  scans = rw (h refl);
  named = λ n. n;
  device = λ d. d;
  resigns = inl refl;
}
follow_plan-Keeps now app false pending h = record {
  scans = omega arith;
  named = λ n. n;
  device = λ d. d;
  resigns = inl refl;
}

pub request_device_scan-Keeps :
    (menu : Bool) (now : ℕ) (app : HapResignerApp) → Keeps app (request_device_scan menu now app)
unfolding request_device_scan device_scan_plan
request_device_scan-Keeps menu now app =
    follow_plan-Keeps now app _ _
      (plan-start (device_controls_enabled app.state.phase) app.device_scan_running _)

start_on-Keeps :
    (path : Text) (app : HapResignerApp) (device : Option DeviceInfo)
    → Keeps app (start_on path app device)
unfolding apply
start_on-Keeps path app none = without_device-Keeps app
start_on-Keeps path app (some device) = record {
  scans = omega arith;
  named = λ h. cc;
  device = λ d. refl;
  resigns = inr refl;
}

if-Keeps :
    (app : HapResignerApp) (b : Bool) (h k : Handled)
    → Keeps app h
    → Keeps app k
    → Keeps app (if b then h else k)
if-Keeps app true h k kh kk = kh
if-Keeps app false h k kh kk = kk

start_resign-Keeps : (path : Text) (app : HapResignerApp) → Keeps app (start_resign path app)
unfolding start_resign
start_resign-Keeps path app =
    if-Keeps app (not (can_start app.state)) _ _ (same-Keeps app)
      (start_on-Keeps path app app.state.device)

start_picked-Keeps :
    (picked : Option Text) (app : HapResignerApp) → Keeps app (start_picked picked app)
start_picked-Keeps none app = same-Keeps app
start_picked-Keeps (some path) app = start_resign-Keeps path app

choose_hap-Keeps : (picked : Option Text) (app : HapResignerApp) → Keeps app (choose_hap picked app)
unfolding choose_hap
choose_hap-Keeps picked app =
    if-Keeps app (is_none app.state.device) _ _ (without_device-Keeps app)
      (start_picked-Keeps picked app)

retry_on-Keeps :
    (selected picked : Option Text) (app : HapResignerApp)
    → Keeps app (retry_on selected picked app)
retry_on-Keeps none picked app = choose_hap-Keeps picked app
retry_on-Keeps (some path) picked app = start_resign-Keeps path app

retry-Keeps : (picked : Option Text) (app : HapResignerApp) → Keeps app (retry picked app)
unfolding retry
retry-Keeps picked app =
    if-Keeps app (is_none app.state.device) _ _ (without_device-Keeps app)
      (retry_on-Keeps app.selected_hap picked app)

install_of-Keeps :
    (app : HapResignerApp) (hap bundle ability : Option Text) (device : Option DeviceInfo)
    → Keeps app (install_of app hap bundle ability device)
install_of-Keeps app (some hap) (some bundle) (some ability) (some device) = record {
  scans = omega arith;
  named = λ n. n;
  device = λ d. d;
  resigns = inl refl;
}
install_of-Keeps app (some hap) (some bundle) (some ability) none = without_device-Keeps app
install_of-Keeps app (some hap) (some bundle) none device = without_device-Keeps app
install_of-Keeps app (some hap) none ability device = without_device-Keeps app
install_of-Keeps app none bundle ability device = without_device-Keeps app

start_install-Keeps : (app : HapResignerApp) → Keeps app (start_install app)
unfolding start_install
start_install-Keeps app =
    if-Keeps app (app.install_started || not (can_install app.state)) _ _ (same-Keeps app) (
      install_of-Keeps app app.state.signed_hap app.state.bundle_name app.state.ability
        app.operation_device)

auto_install-Keeps : (app : HapResignerApp) → Keeps app (auto_install app)
unfolding auto_install
auto_install-Keeps app =
    if-Keeps app (should_auto_install app.state.phase app.install_started) _ _
      (start_install-Keeps app) (same-Keeps app)

fst_if-Keeps :
    (app : HapResignerApp) (b : Bool) (x y : HapResignerApp)
    → Keeps app (x, [])
    → Keeps app (y, [])
    → Keeps app (if b then x else y, [])
fst_if-Keeps app true x y kx ky = kx
fst_if-Keeps app false x y kx ky = ky

select_device-Keeps :
    (udid : Option Text) (app : HapResignerApp) → Keeps app (select_device udid app, [])
unfolding select_device
select_device-Keeps udid app =
    let chosen = record app {
      remembered_device_udid = udid;
      state = record app.state { device = and_then udid (find_udid app.state.devices) };
    } in
    fst_if-Keeps app _ app chosen (same-Keeps app)
      (record { scans = omega arith; named = λ n. n; device = λ d. d; resigns = inl refl })

pub perform-Keeps : (action : Action) (app : HapResignerApp) → Keeps app (perform action app)
unfolding perform
perform-Keeps (request_scan menu now) app = request_device_scan-Keeps menu now app
perform-Keeps (resign_file path) app = start_resign-Keeps path app
perform-Keeps (choose_file picked) app = choose_hap-Keeps picked app
perform-Keeps (retry_file picked) app = retry-Keeps picked app
perform-Keeps install_signed app = start_install-Keeps app
perform-Keeps install_ready app = auto_install-Keeps app
perform-Keeps (choose_device udid) app = select_device-Keeps udid app
