-- ===== src/App/Gui/Steps/Install.antt =====
-- The start of an installation in the reachable states of the user interface.
use hap_resigner.Prelude.{
  ◌≡◌, refl, ap, ◌∙◌, Bool, true, false, ◌&&◌, ◌||◌, not, Option, none, some, [], ◌∷◌, is_some,
  Text, if◌then◌else◌,
}
use hap_resigner.External.{Libraries}
use hap_resigner.App.State.{AppState, DeviceInfo, can_install}
use hap_resigner.App.Gui.{HapResignerApp, Handled, install, start_install, install_of}
use hap_resigner.App.Gui.Steps.{System, Reachable}
use hap_resigner.App.Gui.Steps.Sound.{Reachable-IsSound}

install_of-known :
    (app : HapResignerApp) (hap bundle ability : Option Text) (device : Option DeviceInfo)
    → is_some hap ≡ true
    → is_some bundle ≡ true
    → is_some ability ≡ true
    → is_some device ≡ true
    → (h b a : Text) × (d : DeviceInfo) × (hap ≡ some h)
      × (device ≡ some d)
      × (install_of app hap bundle ability device
          ≡ (record app { install_started = true }, install h b a d ∷ []))
install_of-known app (some h) (some b) (some a) (some d) p q r t = (h, b, a, d, refl, refl, refl)
install_of-known app none bundle ability device p q r t = cc
install_of-known app (some h) none ability device p q r t = cc
install_of-known app (some h) (some b) none device p q r t = cc
install_of-known app (some h) (some b) (some a) none p q r t = cc

&&-right : (a b : Bool) → (a && b) ≡ true → b ≡ true
&&-right true b h = h
&&-right false b h = cc

can_install-signed : (s : AppState) → can_install s ≡ true → is_some s.signed_hap ≡ true
unfolding can_install
can_install-signed s h = &&-right _ (is_some s.signed_hap) h

guard-passed :
    (started ready : Bool) (h k : Handled)
    → started ≡ false
    → ready ≡ true
    → (if started || not ready then h else k) ≡ k
guard-passed false true h k p q = refl
guard-passed true ready h k p q = cc
guard-passed false false h k p q = cc

-- In every reachable state in which a file is ready and its installation has not been started,
-- `start_install` starts one thread, which installs the signed file on the device of the operation:
-- the failure for a missing device is not taken, and a second call starts none.
pub start_install-starts :
    (lib : Libraries) {s : System}
    → Reachable lib s
    → can_install s.app.state ≡ true
    → s.app.install_started ≡ false
    → (hap bundle ability : Text) × (device : DeviceInfo) × (s.app.state.signed_hap ≡ some hap)
      × (s.app.operation_device ≡ some device)
      × (start_install s.app
          ≡ (record s.app { install_started = true }, install hap bundle ability device ∷ []))
      × ((start_install (start_install s.app).0).1 ≡ [])
unfolding start_install
start_install-starts lib {s} r ready fresh =
    let app = s.app in
    let signed = can_install-signed app.state ready in
    let (bundle_there, ability_there, device_there) = (Reachable-IsSound lib r).named signed in
    let (hap, bundle, ability, device, is_hap, is_device, starts) =
      install_of-known app app.state.signed_hap app.state.bundle_name app.state.ability
        app.operation_device signed bundle_there ability_there device_there in
    let first : start_install app
        ≡ (record app { install_started = true }, install hap bundle ability device ∷ []) =
      guard-passed app.install_started (can_install app.state) _ _ fresh ready ∙ starts in
    (hap, bundle, ability, device, is_hap, is_device, first, ap (λ h. (start_install h.0).1) first)
