-- ===== src/Agc/Client/Lookup.antt =====
-- The device record that `unique_complete_device` returns.
use hap_resigner.Prelude.{
  suc, ◌≤◌, ◌≡◌, ◌↔◌, refl, ap, subst, Bool, true, false, some, List, [], ◌∷◌, ◌++◌, ltb, ok, All,
  Text, Bool-cases, inl, inr, arith, ok-injective,
}
use mathlib.Core.Option.{some-injective}
use hap_resigner.Agc.{DeviceRecord}
use hap_resigner.Agc.Client.{is_match, count_matches, first_match, unique_complete_device}

-- The only record of the list that is complete and of this device.
pub record IsOnlyMatch (udid : Text) (devices : List DeviceRecord) (d : DeviceRecord) : Type 0 where
  pub front : List DeviceRecord
  pub back : List DeviceRecord
  pub split : devices ≡ front ++ (d ∷ back)
  pub matches : is_match udid d ≡ true
  pub before : All (λ e. is_match udid e ≡ false) front
  pub behind : All (λ e. is_match udid e ≡ false) back

module _ (udid : Text) where
  no_match :
      (ds : List DeviceRecord) → count_matches udid ds ≡ 0 → All (λ e. is_match udid e ≡ false) ds
  unfolding count_matches
  no_match [] h = tt
  no_match (d ∷ ds) h = elim (Bool-cases (is_match udid d)) [
    | inl e ↦ absurd (omega (arith, (rw e at h)))
    | inr e ↦ (e, no_match ds (rw e at h))
  ]

  count_no_match :
      (ds : List DeviceRecord) → All (λ e. is_match udid e ≡ false) ds → count_matches udid ds ≡ 0
  unfolding count_matches
  count_no_match [] h = refl
  count_no_match (d ∷ ds) (e, h) = rw e (count_no_match ds h)

  first_match-IsOnlyMatch :
      (ds : List DeviceRecord) (d : DeviceRecord)
      → first_match udid ds ≡ some d
      → count_matches udid ds ≤ 1
      → IsOnlyMatch udid ds d
  unfolding first_match count_matches
  first_match-IsOnlyMatch [] d h c = cc (h)
  first_match-IsOnlyMatch (x ∷ ds) d h c = elim (Bool-cases (is_match udid x)) [
    | inl e ↦ subst (IsOnlyMatch udid (x ∷ ds)) (some-injective _ _ (rw e at h)) (record {
      front = [];
      back = ds;
      split = refl;
      matches = e;
      before = tt;
      behind = no_match ds (omega (arith, (rw e at c)));
    })
    | inr e ↦
        let k = first_match-IsOnlyMatch ds d (rw e at h) (rw e at c) in
        record {
          front = x ∷ k.front;
          back = k.back;
          split = ap (λ t. x ∷ t) k.split;
          matches = k.matches;
          before = (e, k.before);
          behind = k.behind;
        }
  ]

  found_between :
      (front back : List DeviceRecord) (d : DeviceRecord)
      → is_match udid d ≡ true
      → All (λ e. is_match udid e ≡ false) front
      → All (λ e. is_match udid e ≡ false) back
      → (count_matches udid (front ++ (d ∷ back)) ≡ 1)
        × (first_match udid (front ++ (d ∷ back)) ≡ some d)
  unfolding first_match count_matches
  found_between [] back d m before behind = (rw m (ap suc (count_no_match back behind)), rw m)
  found_between (x ∷ front) back d m (e, before) behind =
      let (c, f) = found_between front back d m before behind in (rw e c, rw e f)

  unique-first :
      (ds : List DeviceRecord) (b : Bool) {d : DeviceRecord}
      → ltb 1 (count_matches udid ds) ≡ b
      → unique_complete_device ds udid ≡ ok (some d)
      → (b ≡ false) × (first_match udid ds ≡ some d)
  unfolding unique_complete_device
  unique-first ds true e h = cc (rw e at h)
  unique-first ds false e h = (refl, ok-injective (rw e at h))

-- `unique_complete_device` returns a record exactly when it is the only one of the list that has an id
-- and the expected UDID, with no regard to case.
pub unique_complete_device_iff :
    (devices : List DeviceRecord) (udid : Text) (d : DeviceRecord)
    → (unique_complete_device devices udid ≡ ok (some d)) ↔ IsOnlyMatch udid devices d
unfolding unique_complete_device
unique_complete_device_iff devices udid d = (there, back)
  where
    there : unique_complete_device devices udid ≡ ok (some d) → IsOnlyMatch udid devices d
    there h =
        let (few, found) = unique-first udid devices (ltb 1 (count_matches udid devices)) refl h in
        first_match-IsOnlyMatch udid devices d found (ground arith)

    back : IsOnlyMatch udid devices d → unique_complete_device devices udid ≡ ok (some d)
    back k =
        let (c, f) = found_between udid k.front k.back d k.matches k.before k.behind in
        rw k.split (rw c (rw f))
