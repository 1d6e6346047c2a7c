-- ===== src/App/Devices/Laws.antt =====
-- The selection of a device after a scan.
use mathlib.Core.List.{Memᴰ}
use mathlib.Core.List.Memᴰ.{head, tail, not-nil, cases_cons}
use mathlib.Core.Option.{some-injective}
use hap_resigner.Prelude.{
  ◌≡◌, refl, ap, sym, ◌∙◌, subst, inl, inr, Option, none, some, List, [], ◌∷◌, Bool-cases,
  Option-cases, and_then, bytes_eq, bytes_eq_iff, Text,
}
use hap_resigner.App.State.{DeviceInfo}
use hap_resigner.App.Devices.{find_udid, find_known, resolve_selected_device}

find_udid-Mem :
    (ds : List DeviceInfo) (u : Text) {d : DeviceInfo}
    → find_udid ds u ≡ some d
    → Memᴰ d ds × (d.udid ≡ u)
unfolding find_udid
find_udid-Mem [] u h = cc
find_udid-Mem (x ∷ xs) u {d} h = elim (Bool-cases (bytes_eq x.udid u)) [
  | inl same ↦
      let e : x ≡ d = some-injective _ _ (rw same at h) in
      (head (sym e), ap (λ (y : DeviceInfo). y.udid) (sym e) ∙ (bytes_eq_iff x.udid u).0 same)
  | inr other ↦ let (m, e) = find_udid-Mem xs u (rw other at h) in (tail m, e)
]

find_udid-there :
    (ds : List DeviceInfo) (d : DeviceInfo)
    → Memᴰ d ds
    → (e : DeviceInfo) × (find_udid ds d.udid ≡ some e)
unfolding find_udid
find_udid-there [] d m = absurd (not-nil m)
find_udid-there (x ∷ xs) d m = elim (Bool-cases (bytes_eq x.udid d.udid)) [
  | inl same ↦ (x, rw same)
  | inr other ↦ elim (cases_cons m) [
    | inl e ↦
        absurd
          (cc ((bytes_eq_iff x.udid d.udid).1 (ap (λ (y : DeviceInfo). y.udid) (sym e)), other))
    | inr later ↦ let (e, found) = find_udid-there xs d later in (e, rw other found)
  ]
]

find_known-Mem :
    (ds : List DeviceInfo) (current remembered : Option Text) {d : DeviceInfo}
    → find_known ds current remembered ≡ some d
    → Memᴰ d ds
find_known-Mem ds (some u) remembered {d} h = elim (Option-cases (find_udid ds u)) [
  | inr (e, found) ↦
      let same : e ≡ d = some-injective _ _ (rw found at h) in
      subst (λ x. Memᴰ x ds) same (find_udid-Mem ds u found).0
  | inl absent ↦ remembered-Mem remembered (rw absent at h)
]
  where
    remembered-Mem : (r : Option Text) → and_then r (find_udid ds) ≡ some d → Memᴰ d ds
    remembered-Mem (some v) k = (find_udid-Mem ds v k).0
    remembered-Mem none k = cc
find_known-Mem ds none (some v) h = (find_udid-Mem ds v h).0
find_known-Mem ds none none h = cc

-- The selected device is one of the list.
pub resolve_selected_device-Mem :
    (ds : List DeviceInfo) (current remembered : Option Text) {d : DeviceInfo}
    → resolve_selected_device ds current remembered ≡ some d
    → Memᴰ d ds
unfolding resolve_selected_device
resolve_selected_device-Mem [] current remembered h = find_known-Mem [] current remembered h
resolve_selected_device-Mem (x ∷ []) current remembered h = head (sym (some-injective _ _ h))
resolve_selected_device-Mem (x ∷ (y ∷ ds)) current remembered h =
    find_known-Mem (x ∷ (y ∷ ds)) current remembered h

known-kept :
    (ds : List DeviceInfo) (d : DeviceInfo) (remembered : Option Text)
    → Memᴰ d ds
    → (e : DeviceInfo) × (find_known ds (some d.udid) remembered ≡ some e)
      × Memᴰ e ds
      × (e.udid ≡ d.udid)
known-kept ds d remembered m =
    let (e, found) = find_udid-there ds d m in
    let (listed, same) = find_udid-Mem ds d.udid found in (e, rw found, listed, same)

sole-kept : (x d : DeviceInfo) → Memᴰ d (x ∷ []) → x.udid ≡ d.udid
sole-kept x d m = elim (cases_cons m) [
  | inl e ↦ ap (λ (y : DeviceInfo). y.udid) (sym e)
  | inr none_left ↦ absurd (not-nil none_left)
]

-- A selected device that is still listed stays selected: the choice is a listed device with its udid,
-- whatever udid is remembered.
pub resolve_selected_device-kept :
    (ds : List DeviceInfo) (d : DeviceInfo) (remembered : Option Text)
    → Memᴰ d ds
    → (e : DeviceInfo) × (resolve_selected_device ds (some d.udid) remembered ≡ some e)
      × Memᴰ e ds
      × (e.udid ≡ d.udid)
unfolding resolve_selected_device
resolve_selected_device-kept [] d remembered m = known-kept [] d remembered m
resolve_selected_device-kept (x ∷ []) d remembered m = (x, refl, head refl, sole-kept x d m)
resolve_selected_device-kept (x ∷ (y ∷ ds)) d remembered m =
    known-kept (x ∷ (y ∷ ds)) d remembered m
