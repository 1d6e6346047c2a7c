-- ===== src/Device/Listed.antt =====
-- The devices that `list_devices` lists.
use hap_resigner.Prelude.{
  ◌≡◌, refl, sym, ap, subst, Option, none, some, List, [], ◌∷◌, Result, ok, err, ok_or, ok_or-eq-ok,
  All, Text, codes, ok-injective,
}
use mathlib.Core.List.{Memᴰ}
use mathlib.Core.List.Memᴰ.{head, tail}
use hap_resigner.Effect.{
  Effect, Triple, Always, pure, bind-Triple, pure-Triple, lift-Triple, fact-Triple, any-Triple,
  attempt-Triple, weaken-Triple, Triple-ok, effect_chain-eq-ok, ran-Triple, map_error-Triple, ◌>>=◌,
  map_error, Post,
}
use hap_resigner.Strings.{split, lines}
use hap_resigner.App.State.{DeviceInfo}
use hap_resigner.Device.{
  CommandOutput, HdcError, parse_available_targets, parse_udid, separator_at, run, run_target,
  get_udid, get_model, probe_target, probed, probe_loop, listed_or, list_devices,
}
use hap_resigner.Device.Offered.{IsOffered, targets_of-IsOffered}
use hap_resigner.Device.Udid.{IsFirstUdid, find_udid_in-IsFirstUdid}

probed_without :
    (e : HdcError) (rest : List DeviceInfo × Option HdcError) → (probed (err e) rest).0 ≡ rest.0
probed_without e (devices, none) = refl
probed_without e (devices, some last) = refl

module _ {State : Type 0} (runner : List Text → Effect State Text CommandOutput) where
  -- The device of a target was asked for its UDID, and its answer tells it.
  pub record HasAnswered (target udid : Text) : Type 0 where
    pub before : State
    pub after : State
    pub output : CommandOutput
    pub asked : run runner (codes "-t" ∷ (target ∷ get_udid)) before ≡ (ok output, after)
    pub told : IsFirstUdid (split separator_at output.stdout) udid

  probe_target-HasAnswered :
      (target : Text)
      → Triple Always
          (probe_target runner target)
          (λ d w. (d.target ≡ target) × HasAnswered target d.udid)
          Always
  unfolding probe_target run_target parse_udid
  probe_target-HasAnswered target =
      bind-Triple
        (weaken-Triple
          (map_error-Triple _ (ran-Triple (run runner (codes "-t" ∷ (target ∷ get_udid)))))
          (λ w p. p) (λ output after asked. (tt, (after, asked))) (λ w p. tt))
        (λ output. fact-Triple (λ (after, (before, asked)).
          bind-Triple (lift-Triple {P = Always} (ok_or (parse_udid output.stdout) _)) (λ udid.
            fact-Triple (λ found.
              bind-Triple
                (any-Triple (map_error _ (run runner (codes "-t" ∷ (target ∷ get_model)))))
                (λ model. pure-Triple _ (λ w p. (
                  refl,
                  record {
                    before = before;
                    after = after;
                    output = output;
                    asked = asked;
                    told =
                        find_udid_in-IsFirstUdid (split separator_at output.stdout) udid
                          (ok_or-eq-ok _ _ found);
                  },
                )))))))

  -- A device of the targets that has answered.
  abbrev IsProbed : List Text → DeviceInfo → Type 0
  IsProbed targets d = Memᴰ d.target targets × HasAnswered d.target d.udid

  weaker :
      (target : Text) (targets : List Text) (ds : List DeviceInfo)
      → All (IsProbed targets) ds
      → All (IsProbed (target ∷ targets)) ds
  weaker target targets [] h = tt
  weaker target targets (d ∷ ds) ((m, u), h) = ((tail m, u), weaker target targets ds h)

  probe_loop-IsProbed :
      (targets : List Text)
      → Triple Always (probe_loop runner targets) (λ found w. All (IsProbed targets) found.0) Always
  unfolding probe_loop
  probe_loop-IsProbed [] = pure-Triple _ (λ w p. tt)
  probe_loop-IsProbed (target ∷ targets) =
      bind-Triple (attempt-Triple {S = Always} (probe_target-HasAnswered target))
        (λ device. joined device (probe_loop-IsProbed targets))
    where
      joined :
          (device : Result HdcError DeviceInfo)
          → Triple Always
              (probe_loop runner targets)
              (λ found w. All (IsProbed targets) found.0)
              Always
          → Triple
              (λ w.
                Post
                  (λ (d : DeviceInfo) w. (d.target ≡ target) × HasAnswered target d.udid)
                  Always
                  (device, w))
              (probe_loop runner targets >>= λ rest. pure (probed device rest))
              (λ found w. All (IsProbed (target ∷ targets)) found.0)
              Always
      joined (ok d) loop =
          weaken-Triple
            (fact-Triple {P = Always} (λ (f : (d.target ≡ target) × HasAnswered target d.udid).
              bind-Triple loop (λ rest. pure-Triple _ (λ w h. (
                (head f.0, subst (λ t. HasAnswered t d.udid) (sym f.0) f.1),
                weaker target targets rest.0 h,
              )))))
            (λ w p. (tt, p)) (λ a w h. h) (λ w p. p)
      joined (err e) loop =
          weaken-Triple
            (bind-Triple loop (λ rest. pure-Triple _ (λ w h.
              subst (All (IsProbed (target ∷ targets))) (sym (probed_without e rest))
                (weaker target targets rest.0 h))))
            (λ w p. tt) (λ a w h. h) (λ w p. p)

  -- A device of the listing: a line offers its target, and asked by its target it has answered.
  pub record IsListed (stdout : Text) (d : DeviceInfo) : Type 0 where
    pub line : Text
    pub of_listing : Memᴰ line (lines stdout)
    pub offered : IsOffered line d.target
    pub answered : HasAnswered d.target d.udid

  all-IsListed :
      (stdout : Text) (ds : List DeviceInfo)
      → All (IsProbed (parse_available_targets stdout)) ds
      → All (IsListed stdout) ds
  unfolding parse_available_targets
  all-IsListed stdout [] h = tt
  all-IsListed stdout (d ∷ ds) ((m, a), h) =
      let (line, of_listing, offered) = targets_of-IsOffered (lines stdout) d.target m in
      (
        record { line = line; of_listing = of_listing; offered = offered; answered = a },
        all-IsListed stdout ds h,
      )

listed_or-eq-ok :
    (devices : List DeviceInfo) (last : Option HdcError) {ds : List DeviceInfo}
    → listed_or devices last ≡ ok ds
    → devices ≡ ds
listed_or-eq-ok [] none h = ok-injective h
listed_or-eq-ok [] (some e) h = cc (h)
listed_or-eq-ok (d ∷ devices) last h = ok-injective h

-- Every device that `list_devices` returns comes from the listing that hdc printed: a line of it offers
-- the device's target and says of no field that it is unauthorized or offline. The device was asked by
-- that target for its UDID, and its UDID is the first piece of the answer that has 64 ASCII letters and
-- digits.
pub list_devices-IsListed :
    {State : Type 0} (runner : List Text → Effect State Text CommandOutput) (w w' : State)
    (ds : List DeviceInfo)
    → list_devices runner w ≡ (ok ds, w')
    → (output : CommandOutput) × (v : State) × (run runner (codes "list" ∷ (codes "targets" ∷ [])) w
        ≡ (ok output, v))
      × All (IsListed runner output.stdout) ds
unfolding list_devices
list_devices-IsListed {State = State} runner w w' ds h =
    let (output, v, ran, h1) =
      effect_chain-eq-ok (run runner (codes "list" ∷ (codes "targets" ∷ []))) _ w h in
    let (found, u, looped, h2) =
      effect_chain-eq-ok (probe_loop runner (parse_available_targets output.stdout)) _ v h1 in
    let all =
      Triple-ok (probe_loop-IsProbed runner (parse_available_targets output.stdout)) v tt found u
        looped in
    let same =
      listed_or-eq-ok found.0 found.1
        (ap (λ (x : Result HdcError (List DeviceInfo) × State). x.0) h2) in
    (
      output,
      v,
      ran,
      subst (All (IsListed runner output.stdout)) same
          (all-IsListed runner output.stdout found.0 all),
    )
