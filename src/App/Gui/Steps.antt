-- ===== src/App/Gui/Steps.antt =====
-- The user interface and its threads as a system of steps: the user acts, or the interface receives the
-- next event of one of the threads, in any order.
pub mod Handlers
pub mod Received
pub mod Sound
pub mod Install
use mathlib.Core.List.{map}
use hap_resigner.Prelude.{ℕ, ◌≡◌, Option, List, [], ◌∷◌, ◌++◌, Text}
use hap_resigner.External.{Libraries}
use hap_resigner.App.State.{WorkflowEvent}
use hap_resigner.App.Workflow.{Services, spawn_device_scan, spawn_install, spawn_resign}
use hap_resigner.App.Gui.{
  HapResignerApp, Handled, Spawn, scan, resign, install, Action, perform, handle_event, new_app,
}

-- The interface, and for each thread the events that it has still to send.
pub record System : Type 0 where
  pub app : HapResignerApp
  pub threads : List (List WorkflowEvent)

unfoldable pub events_of : (lib : Libraries) → Services lib → Spawn → List WorkflowEvent
events_of lib services scan = spawn_device_scan lib services
events_of lib services (resign path device) = spawn_resign lib services path device
events_of lib services (install hap bundle ability device) =
    spawn_install lib services hap bundle ability device

-- The threads that a handler spawned run beside the others.
unfoldable pub spawned :
    (lib : Libraries) → Services lib → Handled → List (List WorkflowEvent) → System
spawned lib services (app, spawns) threads = record {
  app = app;
  threads = map (events_of lib services) spawns ++ threads;
}

-- The calls of a thread may answer differently in each thread.
pub data Step (lib : Libraries) : System → System → Type 1 where
  act :
      {s : System} (services : Services lib) (action : Action)
      → Step lib s (spawned lib services (perform action s.app) s.threads)
  receive :
      {s : System} (services : Services lib) (now : ℕ) (before behind : List (List WorkflowEvent))
      (e : WorkflowEvent) (rest : List WorkflowEvent)
      → s.threads ≡ before ++ ((e ∷ rest) ∷ behind)
      → Step lib s (spawned lib services (handle_event now e s.app) (before ++ (rest ∷ behind)))

pub data Reachable (lib : Libraries) : System → Type 1 where
  begin :
      (services : Services lib) (remembered_device_udid : Option Text) (now : ℕ)
      → Reachable lib (spawned lib services (new_app remembered_device_udid now) [])
  step : {s t : System} → Reachable lib s → Step lib s t → Reachable lib t
