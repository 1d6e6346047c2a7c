-- ===== src/App/Gui/Steps/Sound.antt =====
-- What holds in every reachable state of the user interface and its threads.
use mathlib.Core.List.{map}
use hap_resigner.Prelude.{
  ℕ, ◌+◌, ◌≡◌, refl, ap, ◌∙◌, subst, Bool, true, false, ◌⊎◌, inl, inr, Option, List, [], ◌∷◌, ◌++◌,
  arith, All, is_some, Text, unwrap_or, codes, Result, ok, err,
}
use hap_resigner.External.{Libraries}
use hap_resigner.App.State.{WorkflowEvent, DeviceInfo, initial}
use hap_resigner.App.Trace.{Trace, ◌>>=◌, send, spawn}
use hap_resigner.App.Workflow.{
  Services, scan_event, spawn_device_scan, spawn_install, spawn_resign, resign, resign_work,
  install_work,
}
use hap_resigner.App.Workflow.Busy.{
  IsWorking, spawn-cases, resign_work-IsWorking, install_work-IsWorking,
}
use hap_resigner.App.Gui.{
  HapResignerApp, Handled, Spawn, scan, install, resign as resign_thread, perform, handle_event,
  new_app,
}
use hap_resigner.App.Gui.Steps.{
  System, events_of, spawned, Step, act, receive, Reachable, begin, step,
}
use hap_resigner.App.Gui.Steps.Handlers.{
  one_if, is_scan, is_resign, count, IsNamed, Keeps, perform-Keeps,
}
use hap_resigner.App.Gui.Steps.Received.{ends_scan, is_signed, Receives, handle_event-Receives}

count-append :
    {A : Type 0} (p : A → Bool) (xs ys : List A) → count p (xs ++ ys) ≡ count p xs + count p ys
count-append p [] ys = omega arith
count-append p (x ∷ xs) ys = omega (arith, count-append p xs ys)

abbrev pub total : (WorkflowEvent → Bool) → List (List WorkflowEvent) → ℕ
total p [] = 0
total p (t ∷ ts) = count p t + total p ts

total-append :
    (p : WorkflowEvent → Bool) (xs ys : List (List WorkflowEvent))
    → total p (xs ++ ys) ≡ total p xs + total p ys
total-append p [] ys = omega arith
total-append p (x ∷ xs) ys = omega (arith, total-append p xs ys)

-- The work of a thread has neither the end of a scan nor a signed file.
working-counts :
    (es : List WorkflowEvent)
    → All IsWorking es
    → (count ends_scan es ≡ 0) × (count is_signed es ≡ 0)
working-counts [] w = (refl, refl)
working-counts (WorkflowEvent.phase p ∷ es) (w, ws) = omega (arith, working-counts es ws)
working-counts (WorkflowEvent.progress level message ∷ es) (w, ws) =
    omega (arith, working-counts es ws)
working-counts (WorkflowEvent.devices found ∷ es) (w, ws) = absurd w
working-counts (WorkflowEvent.device_scan_failed message ∷ es) (w, ws) = absurd w
working-counts (WorkflowEvent.signed output bundle_name ability ∷ es) (w, ws) = absurd w
working-counts (WorkflowEvent.installed pid ∷ es) (w, ws) = absurd w
working-counts (WorkflowEvent.failed message ∷ es) (w, ws) = absurd w

-- A count over a thread is that of its last event, if its work counts nothing.
spawn-count {ℓ} :
    {A : Type ℓ} (p : WorkflowEvent → Bool) (thread : Trace A) (ending : A → WorkflowEvent)
    → count p thread.events ≡ 0
    → ((a : A) → p (ending a) ≡ false)
    → ((message : Text) → p (WorkflowEvent.failed message) ≡ false)
    → count p (spawn (thread >>= λ a. send (ending a))) ≡ 0
spawn-count p thread ending none_in last failed = elim (spawn-cases thread ending) [
  | inl (a, _, split) ↦
      ap (count p) split
      ∙ count-append p thread.events (ending a ∷ [])
      ∙ omega (arith, none_in, ap one_if (last a))
  | inr (message, _, split) ↦
      ap (count p) split
      ∙ count-append p thread.events (WorkflowEvent.failed message ∷ [])
      ∙ omega (arith, none_in, ap one_if (failed message))
]

scan_event-counts :
    (r : Result Text (List DeviceInfo))
    → (count ends_scan (scan_event r ∷ []) ≡ 1) × (count is_signed (scan_event r ∷ []) ≡ 0)
scan_event-counts (ok found) = (refl, refl)
scan_event-counts (err message) = (refl, refl)

module _ (lib : Libraries) (services : Services lib) where
  resign-scans :
      (path : Text) (device : DeviceInfo)
      → count ends_scan (spawn_resign lib services path device) ≡ 0
  unfolding spawn_resign resign
  resign-scans path device =
      spawn-count ends_scan (resign_work lib services path device)
        (λ p.
          WorkflowEvent.signed p.0 p.1.bundle_name
            (unwrap_or p.1.main_element (codes "EntryAbility")))
        (working-counts _ (resign_work-IsWorking lib services path device)).0 (λ a. refl)
        (λ m. refl)

  install-counts :
      (hap bundle ability : Text) (device : DeviceInfo)
      → (count ends_scan (spawn_install lib services hap bundle ability device) ≡ 0)
        × (count is_signed (spawn_install lib services hap bundle ability device) ≡ 0)
  unfolding spawn_install
  install-counts hap bundle ability device =
      let work = install_work lib services hap bundle ability device in
      let counts =
        working-counts _ (install_work-IsWorking lib services hap bundle ability device) in
      (
        spawn-count ends_scan work WorkflowEvent.installed counts.0 (λ a. refl) (λ m. refl),
        spawn-count is_signed work WorkflowEvent.installed counts.1 (λ a. refl) (λ m. refl),
      )

  scan-counts :
      (count ends_scan (spawn_device_scan lib services) ≡ 1)
      × (count is_signed (spawn_device_scan lib services) ≡ 0)
  unfolding spawn_device_scan
  scan-counts = scan_event-counts _

  spawned-scans : (sp : Spawn) → count ends_scan (events_of lib services sp) ≡ one_if (is_scan sp)
  unfolding events_of
  spawned-scans scan = scan-counts.0
  spawned-scans (resign_thread path device) = resign-scans path device
  spawned-scans (install hap bundle ability device) = (install-counts hap bundle ability device).0

  spawned-signs :
      (sp : Spawn) → one_if (is_resign sp) ≡ 0 → count is_signed (events_of lib services sp) ≡ 0
  unfolding events_of
  spawned-signs scan h = scan-counts.1
  spawned-signs (resign_thread path device) h = absurd (omega arith)
  spawned-signs (install hap bundle ability device) h = (install-counts hap bundle ability device).1

  all-scans :
      (spawns : List Spawn)
      → total ends_scan (map (events_of lib services) spawns) ≡ count is_scan spawns
  all-scans [] = refl
  all-scans (sp ∷ sps) = omega (arith, spawned-scans sp, all-scans sps)

  all-signs :
      (spawns : List Spawn)
      → count is_resign spawns ≡ 0
      → total is_signed (map (events_of lib services) spawns) ≡ 0
  all-signs [] h = refl
  all-signs (sp ∷ sps) h =
      omega (arith, spawned-signs sp (omega arith), all-signs sps (omega arith))

-- At most one scan runs: the interface knows of it, and it still has to report. A file that is ready
-- has its names and its device, and a thread can report one only once a device is known.
pub record IsSound (s : System) : Type 0 where
  pub scans : total ends_scan s.threads ≡ one_if s.app.device_scan_running
  pub named : IsNamed s.app
  pub signs : (total is_signed s.threads ≡ 0) ⊎ (is_some s.app.operation_device ≡ true)

module _ (lib : Libraries) (services : Services lib) where
  begin-IsSound :
      (udid : Option Text) (now : ℕ) → IsSound (spawned lib services (new_app udid now) [])
  unfolding spawned new_app initial
  begin-IsSound udid now = record {
    scans = omega (arith, spawned-scans lib services scan);
    named = λ h. cc;
    signs = inl (omega (arith, spawned-signs lib services scan refl));
  }

  act-IsSound :
      (app : HapResignerApp) (threads : List (List WorkflowEvent)) (h : Handled)
      → Keeps app h
      → IsSound (record { app = app; threads = threads })
      → IsSound (spawned lib services h threads)
  unfolding spawned
  act-IsSound app threads (app', spawns) k s = record {
    scans = omega (
      arith,
      total-append ends_scan (map (events_of lib services) spawns) threads,
      all-scans lib services spawns,
      k.scans,
      s.scans,
    );
    named = k.named s.named;
    signs = elim k.resigns [
      | inr known ↦ inr known
      | inl none_resigned ↦ elim s.signs [
        | inr known ↦ inr (k.device known)
        | inl unsigned ↦ inl (
            omega (
              arith,
              total-append is_signed (map (events_of lib services) spawns) threads,
              all-signs lib services spawns none_resigned,
            ))
      ]
    ];
  }

  receive-IsSound :
      (app : HapResignerApp) (before behind : List (List WorkflowEvent)) (e : WorkflowEvent)
      (rest : List WorkflowEvent) (h : Handled)
      → Receives app e h
      → IsSound (record { app = app; threads = before ++ ((e ∷ rest) ∷ behind) })
      → IsSound (spawned lib services h (before ++ (rest ∷ behind)))
  unfolding spawned
  receive-IsSound app before behind e rest (app', spawns) r s =
      let was_scans = total-append ends_scan before ((e ∷ rest) ∷ behind) in
      let was_signs = total-append is_signed before ((e ∷ rest) ∷ behind) in
      let now_scans = total-append ends_scan before (rest ∷ behind) in
      let now_signs = total-append is_signed before (rest ∷ behind) in
      let added_scans =
        total-append ends_scan (map (events_of lib services) spawns) (before ++ (rest ∷ behind)) in
      let added_signs =
        total-append is_signed (map (events_of lib services) spawns) (before ++ (rest ∷ behind)) in
      record {
        scans =
            omega (arith, all-scans lib services spawns, s.scans, r.scans (omega (arith, s.scans)));
        named =
            r.named
              (λ signs_here. elim s.signs [
                | inr known ↦ known
                | inl unsigned ↦ let one = ap one_if signs_here in absurd (omega arith)
              ])
              s.named;
        signs = elim r.resigns [
          | inr known ↦ inr known
          | inl none_resigned ↦ elim s.signs [
            | inr known ↦ inr (r.device known)
            | inl unsigned ↦ inl (omega (arith, all-signs lib services spawns none_resigned))
          ]
        ];
      }

Step-IsSound : (lib : Libraries) {s t : System} → Step lib s t → IsSound s → IsSound t
Step-IsSound lib (act {s} services action) v =
    act-IsSound lib services s.app s.threads (perform action s.app) (perform-Keeps action s.app) v
Step-IsSound lib (receive {s} services now before behind e rest split) v =
    receive-IsSound lib services s.app before behind e rest (handle_event now e s.app)
      (handle_event-Receives now e s.app)
      (subst (λ ts. IsSound (record { app = s.app; threads = ts })) split v)

-- In every reachable state, whatever the order of the events of the threads and of the user's acts: at
-- most one scan still has to report, and the interface knows whether one does; a file that is ready
-- to install has its bundle name, its ability and a device of the operation; and no thread
-- reports a signed file before a device is known.
pub Reachable-IsSound : (lib : Libraries) {s : System} → Reachable lib s → IsSound s
Reachable-IsSound lib (begin services udid now) = begin-IsSound lib services udid now
Reachable-IsSound lib (step r next) = Step-IsSound lib next (Reachable-IsSound lib r)
