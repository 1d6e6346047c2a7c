-- ===== src/App/Runs/Working.antt =====
-- The events of working threads, applied to the state of the user interface.
use hap_resigner.Prelude.{◌≡◌, ◌≢◌, refl, ap, ◌∙◌, subst, false, List, [], ◌∷◌, ◌++◌, All}
use hap_resigner.App.State.{
  AppPhase, AppState, WorkflowEvent, is_startable, can_start, apply, apply_all,
}
use hap_resigner.App.Workflow.{}
use hap_resigner.App.Workflow.Busy.{IsWorking}

pub apply-phase :
    (p : AppPhase) (s : AppState) → can_start (apply (WorkflowEvent.phase p) s) ≡ is_startable p
unfolding can_start apply
apply-phase AppPhase.idle s = refl
apply-phase AppPhase.inspecting s = refl
apply-phase AppPhase.authenticating s = refl
apply-phase AppPhase.waiting_for_login s = refl
apply-phase AppPhase.preparing_materials s = refl
apply-phase AppPhase.signing s = refl
apply-phase AppPhase.ready_to_install s = refl
apply-phase AppPhase.installing s = refl
apply-phase AppPhase.done s = refl
apply-phase AppPhase.error s = refl

apply-IsWorking :
    (e : WorkflowEvent) (s : AppState)
    → IsWorking e
    → can_start s ≡ false
    → can_start (apply e s) ≡ false
unfolding can_start apply
apply-IsWorking (WorkflowEvent.phase p) s w h = apply-phase p s ∙ w
apply-IsWorking (WorkflowEvent.progress level message) s w h = h
apply-IsWorking (WorkflowEvent.devices found) s w h = absurd w
apply-IsWorking (WorkflowEvent.device_scan_failed message) s w h = absurd w
apply-IsWorking (WorkflowEvent.signed output bundle_name ability) s w h = absurd w
apply-IsWorking (WorkflowEvent.installed pid) s w h = absurd w
apply-IsWorking (WorkflowEvent.failed message) s w h = absurd w

pub apply_all-IsWorking :
    (es : List WorkflowEvent) (s : AppState)
    → All IsWorking es
    → can_start s ≡ false
    → can_start (apply_all es s) ≡ false
unfolding apply_all
apply_all-IsWorking [] s w h = h
apply_all-IsWorking (e ∷ es) s (w, ws) h =
    apply_all-IsWorking es (apply e s) ws (apply-IsWorking e s w h)

pub apply_all-append :
    (xs ys : List WorkflowEvent) (s : AppState)
    → apply_all (xs ++ ys) s ≡ apply_all ys (apply_all xs s)
unfolding apply_all
apply_all-append [] ys s = refl
apply_all-append (x ∷ xs) ys s = apply_all-append xs ys (apply x s)

pub ∷-eq {ℓ} : {A : Type ℓ} {x y : A} {xs ys : List A} → x ∷ xs ≡ y ∷ ys → (x ≡ y) × (xs ≡ ys)
∷-eq e = (cc, cc)

-- What comes before the last event is a front of the work.
pub All-front {ℓ} :
    {A : Type ℓ} (P : A → Type 0) (work sent rest : List A) (last : A)
    → work ++ (last ∷ []) ≡ sent ++ rest
    → rest ≢ []
    → All P work
    → All P sent
All-front P work [] rest last e more w = tt
All-front P [] (x ∷ []) [] last e more w = absurd (more refl)
All-front P [] (x ∷ []) (y ∷ ys) last e more w = cc
All-front P [] (x ∷ (z ∷ xs)) rest last e more w = cc
All-front P (p ∷ work) (x ∷ xs) rest last e more (w, ws) =
    let (same, later) = ∷-eq e in (subst P same w, All-front P work xs rest last later more ws)

-- The last phase of some events, from the phase before them.
abbrev pub last_phase : List WorkflowEvent → AppPhase → AppPhase
last_phase [] p = p
last_phase (WorkflowEvent.phase q ∷ es) p = last_phase es q
last_phase (WorkflowEvent.progress level message ∷ es) p = last_phase es p
last_phase (WorkflowEvent.devices found ∷ es) p = last_phase es p
last_phase (WorkflowEvent.device_scan_failed message ∷ es) p = last_phase es p
last_phase (WorkflowEvent.signed output bundle_name ability ∷ es) p = last_phase es p
last_phase (WorkflowEvent.installed pid ∷ es) p = last_phase es p
last_phase (WorkflowEvent.failed message ∷ es) p = last_phase es p

phase-apply : (p : AppPhase) (s : AppState) → (apply (WorkflowEvent.phase p) s).phase ≡ p
unfolding apply
phase-apply AppPhase.idle s = refl
phase-apply AppPhase.inspecting s = refl
phase-apply AppPhase.authenticating s = refl
phase-apply AppPhase.waiting_for_login s = refl
phase-apply AppPhase.preparing_materials s = refl
phase-apply AppPhase.signing s = refl
phase-apply AppPhase.ready_to_install s = refl
phase-apply AppPhase.installing s = refl
phase-apply AppPhase.done s = refl
phase-apply AppPhase.error s = refl

-- The events of the work leave its last phase.
pub phase-apply_all :
    (es : List WorkflowEvent) (s : AppState)
    → All IsWorking es
    → (apply_all es s).phase ≡ last_phase es s.phase
unfolding apply_all apply
phase-apply_all [] s w = refl
phase-apply_all (WorkflowEvent.phase p ∷ es) s (w, ws) =
    phase-apply_all es (apply (WorkflowEvent.phase p) s) ws ∙ ap (last_phase es) (phase-apply p s)
phase-apply_all (WorkflowEvent.progress level message ∷ es) s (w, ws) =
    phase-apply_all es (apply (WorkflowEvent.progress level message) s) ws
phase-apply_all (WorkflowEvent.devices found ∷ es) s (w, ws) = absurd w
phase-apply_all (WorkflowEvent.device_scan_failed message ∷ es) s (w, ws) = absurd w
phase-apply_all (WorkflowEvent.signed output bundle_name ability ∷ es) s (w, ws) = absurd w
phase-apply_all (WorkflowEvent.installed pid ∷ es) s (w, ws) = absurd w
phase-apply_all (WorkflowEvent.failed message ∷ es) s (w, ws) = absurd w
