-- ===== src/Device/Offered.antt =====
-- The targets that the lines of a listing offer.
use hap_resigner.Prelude.{
  ◌≡◌, ◌≢◌, refl, sym, ap, subst, ◌∙◌, Bool, true, false, ◌||◌, some, List, [], ◌∷◌, bytes_eq,
  bytes_eq_iff, All, Text, codes, Bool-cases, Option-cases, inl, inr,
}
use mathlib.Core.List.{Memᴰ}
use mathlib.Core.List.Memᴰ.{head, tail, cases_cons, not-nil}
use mathlib.Core.Option.{some-injective}
use hap_resigner.Effect.{}
use hap_resigner.Strings.{is_blank, trim, split_whitespace}
use hap_resigner.Device.{is_unavailable_field, any_unavailable, target_of, targets_of}

-- A line of the listing that offers this target: its first field, which is not the mark of an empty
-- list, and no other field says that the device cannot be used.
pub record IsOffered (line target : Text) : Type 0 where
  pub fields : List Text
  pub words : split_whitespace (trim line) ≡ target ∷ fields
  pub not_empty : target ≢ codes "[Empty]"
  pub available : All (λ field. is_unavailable_field field ≡ false) fields

or_neither : (a b : Bool) → (a || b) ≡ false → (a ≡ false) × (b ≡ false)
or_neither true b h = cc
or_neither false b h = (refl, h)

none_unavailable :
    (fields : List Text)
    → any_unavailable fields ≡ false
    → All (λ field. is_unavailable_field field ≡ false) fields
unfolding any_unavailable
none_unavailable [] h = tt
none_unavailable (field ∷ fields) h =
    let (a, b) = or_neither (is_unavailable_field field) (any_unavailable fields) h in
    (a, none_unavailable fields b)

target_of-IsOffered :
    (line target : Text) (words : List Text)
    → split_whitespace (trim line) ≡ words
    → target_of words ≡ some target
    → IsOffered line target
unfolding target_of
target_of-IsOffered line target [] w h = cc
target_of-IsOffered line target (first ∷ fields) w h =
    elim (Bool-cases (bytes_eq first (codes "[Empty]") || any_unavailable fields)) [
      | inl e ↦ cc (rw e at h)
      | inr e ↦
          let (a, b) = or_neither (bytes_eq first (codes "[Empty]")) (any_unavailable fields) e in
          subst (IsOffered line) (some-injective _ _ (rw e at h)) (record {
            fields = fields;
            words = w;
            not_empty = λ k. cc ((bytes_eq_iff first (codes "[Empty]")).1 k, a);
            available = none_unavailable fields b;
          })
    ]

-- Every target is offered by a line of the listing.
pub targets_of-IsOffered :
    (ls : List Text) (target : Text)
    → Memᴰ target (targets_of ls)
    → (line : Text) × Memᴰ line ls × IsOffered line target
unfolding targets_of
targets_of-IsOffered [] target m = absurd (not-nil m)
targets_of-IsOffered (line ∷ ls) target m = elim (Bool-cases (is_blank (trim line))) [
  | inl e ↦ later (targets_of-IsOffered ls target (rw e at m))
  | inr e ↦ elim (Option-cases (target_of (split_whitespace (trim line)))) [
    | inl k ↦ later (targets_of-IsOffered ls target (rw k at (rw e at m)))
    | inr (t, k) ↦ elim (cases_cons (rw k at (rw e at m))) [
      | inl same ↦
          (line, head refl, target_of-IsOffered line target _ refl (k ∙ ap some (sym same)))
      | inr m' ↦ later (targets_of-IsOffered ls target m')
    ]
  ]
]
  where
    later :
        (l : Text) × Memᴰ l ls × IsOffered l target
        → (l : Text) × Memᴰ l (line ∷ ls) × IsOffered l target
    later (l, n, o) = (l, tail n, o)
