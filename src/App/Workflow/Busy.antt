-- ===== src/App/Workflow/Busy.antt =====
-- What the user can start while a worker thread of workflow.rs runs, and when it has ended.
use hap_resigner.Prelude.{
  ◌≡◌, refl, false, ◌⊎◌, inl, inr, Option, none, some, [], ◌∷◌, ◌++◌, Result, ok, err, map_err, All,
  Text, Result-cases, append-nil,
}
use hap_resigner.External.{Libraries}
use hap_resigner.Sign.{sign_hap}
use hap_resigner.App.State.{DeviceInfo, WorkflowEvent, is_startable}
use hap_resigner.App.Trace.{Trace, ◌>>=◌, send, after, spawn, All-after}
use hap_resigner.App.Workflow.{
  HapInfo, Prepared, Services, install_work, load_or_login, use_or_login, prepared_or_fetched,
  sign_and_write, resign_work, refreshed_token, output_path,
}

-- An event on the way: a message, or a phase in which nothing else can be started.
abbrev pub IsWorking : WorkflowEvent → Type 0
IsWorking (WorkflowEvent.phase p) = is_startable p ≡ false
IsWorking (WorkflowEvent.progress level message) = Unit
IsWorking (WorkflowEvent.devices found) = ⊥
IsWorking (WorkflowEvent.device_scan_failed message) = ⊥
IsWorking (WorkflowEvent.signed output bundle_name ability) = ⊥
IsWorking (WorkflowEvent.installed pid) = ⊥
IsWorking (WorkflowEvent.failed message) = ⊥

-- A call sends nothing: what follows it decides.
call-IsWorking {ℓ κ} :
    {A : Type ℓ} {B : Type κ} (r : Result Text A) (f : A → Trace B)
    → ((a : A) → All IsWorking (f a).events)
    → All IsWorking (after [] r f).events
call-IsWorking r f = All-after IsWorking [] r f tt

module _ (lib : Libraries) (services : Services lib) where
  open services use {
    Store, Auth, Token, stored_token, save_token, browser_login, material_store, read_hap_info, now,
    discover, install, launch, find_local_materials, auth_client, agc_client,
  }

  use_or_login-IsWorking :
      (auth : Auth) (token : Option Token)
      → All IsWorking (use_or_login lib services auth token).events
  unfolding use_or_login is_startable
  use_or_login-IsWorking auth (some token) = call-IsWorking (save_token token) _ λ u. (tt, tt)
  use_or_login-IsWorking auth none = (
    tt,
    (
      refl,
      call-IsWorking (browser_login auth 10101) _
          λ token. call-IsWorking (save_token token) _ λ u. tt,
    ),
  )

  load_or_login-IsWorking : (auth : Auth) → All IsWorking (load_or_login lib services auth).events
  unfolding load_or_login
  load_or_login-IsWorking auth =
      use_or_login-IsWorking auth (refreshed_token lib services auth stored_token)

  prepared_or_fetched-IsWorking :
      (info : HapInfo) (device : DeviceInfo) (store : Store)
      (found : Option (Prepared lib.SigningKey))
      → All IsWorking (prepared_or_fetched lib services info device store found).events
  unfolding prepared_or_fetched is_startable
  prepared_or_fetched-IsWorking info device store (some materials) = (tt, tt)
  prepared_or_fetched-IsWorking info device store none = (
    refl,
    call-IsWorking auth_client _ λ auth.
        All-after IsWorking (load_or_login lib services auth).events
          (load_or_login lib services auth).result _ (load_or_login-IsWorking auth)
          λ token. call-IsWorking (agc_client token) _ λ api. (refl, tt),
  )

  sign_and_write-IsWorking :
      (input : Text) (prepared : Prepared lib.SigningKey)
      → All IsWorking (sign_and_write lib services input prepared).events
  unfolding sign_and_write is_startable
  sign_and_write-IsWorking input prepared = (
    refl,
    call-IsWorking (services.read_file input) _ λ bytes.
        call-IsWorking
          (map_err services.sign_error_text (sign_hap lib bytes prepared.identity prepared.profile))
          _
          λ signed.
            call-IsWorking (services.atomic_write (output_path lib services input) signed) _
              λ u. (tt, tt),
  )

  pub resign_work-IsWorking :
      (input : Text) (device : DeviceInfo)
      → All IsWorking (resign_work lib services input device).events
  unfolding resign_work is_startable
  resign_work-IsWorking input device = (
    refl,
    call-IsWorking (read_hap_info input) _ λ info. (
      tt,
      (
        tt,
        call-IsWorking material_store _ λ store.
            call-IsWorking (find_local_materials store info.bundle_name device.udid now) _ λ found.
              All-after IsWorking (prepared_or_fetched lib services info device store found).events
                (prepared_or_fetched lib services info device store found).result _
                (prepared_or_fetched-IsWorking info device store found)
                λ prepared.
                  All-after IsWorking (sign_and_write lib services input prepared).events
                    (sign_and_write lib services input prepared).result _
                    (sign_and_write-IsWorking input prepared) λ output. tt,
      ),
    ),
  )

  pub install_work-IsWorking :
      (signed_hap bundle_name ability : Text) (device : DeviceInfo)
      → All IsWorking (install_work lib services signed_hap bundle_name ability device).events
  unfolding install_work is_startable
  install_work-IsWorking signed_hap bundle_name ability device = (
    refl,
    call-IsWorking discover _ λ hdc.
        call-IsWorking (install hdc device signed_hap) _
          λ u. (tt, call-IsWorking (launch hdc device bundle_name ability) _ λ v. tt),
  )

-- The events of a thread: those of its work, and one last event.
pub spawn-cases {ℓ} :
    {A : Type ℓ} (work : Trace A) (ending : A → WorkflowEvent)
    → ((a : A) × (work.result ≡ ok a)
        × (spawn (work >>= λ a. send (ending a)) ≡ work.events ++ (ending a ∷ [])))
      ⊎ ((message : Text) × (work.result ≡ err message)
          × (spawn (work >>= λ a. send (ending a))
              ≡ work.events ++ (WorkflowEvent.failed message ∷ [])))
unfolding spawn
spawn-cases work ending = elim (Result-cases work.result) [
  | inl (a, e) ↦ inl (a, e, rw e (append-nil (work.events ++ (ending a ∷ []))))
  | inr (message, e) ↦ inr (message, e, rw e)
]
