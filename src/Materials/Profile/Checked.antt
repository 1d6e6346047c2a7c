-- ===== src/Materials/Profile/Checked.antt =====
-- Each check of a profile decides what it is meant to.
use hap_resigner.Prelude.{
  ◌≡◌, ◌≢◌, ◌↔◌, ◌⊎◌, inl, inr, refl, sym, ap, subst, ◌∙◌, Bool, true, false, not, ◌||◌, some, List,
  [], ◌∷◌, Bool-cases, Option-cases, bytes_eq, bytes_eq_iff, ok, fail_if, Result-cases, Bytes, Text,
}
use mathlib.Core.Option
use mathlib.Core.List.{Memᴰ}
use mathlib.Core.List.Memᴰ.{head, tail, cases_cons, not-nil}
use mathlib.Core.Option.{some-injective}
use hap_resigner.External.{Attribute}
use hap_resigner.Materials.Profile.{
  CertificateChoice, certificate, other, Curve, ProfileLibraries, id_message_digest, first,
  any_text, find_attribute, verify_or, names, find_map_certificate, message_digest, is_verified,
}
use hap_resigner.Materials.Profile.Acceptable.{
  IsRead, IsVerifiedOn, IsVerified, on_p256, on_p384, IsNamed, here, past_other, past, IsAttribute,
  at_head, behind, IsPromised,
}

pub required_iff : {E : Type 0} (b : Bool) (e : E) → (fail_if (not b) e ≡ ok tt) ↔ (b ≡ true)
required_iff true e = (λ h. refl, λ h. refl)
required_iff false e = (λ h. cc, λ h. cc)

any_step :
    (t id : Text) (ids : List Text) (b rest : Bool)
    → bytes_eq id t ≡ b
    → (rest ≡ true) ↔ Memᴰ t ids
    → ((b || rest) ≡ true) ↔ Memᴰ t (id ∷ ids)
any_step t id ids true rest e later = (λ h. head (sym ((bytes_eq_iff id t).0 e)), λ m. refl)
any_step t id ids false rest e later = (
  λ h. tail (later.0 h),
  λ m. elim (cases_cons m) [
    | inl same ↦ cc ((bytes_eq_iff id t).1 (sym same), e)
    | inr m' ↦ later.1 m'
  ],
)

pub any_text_iff : (t : Text) (ids : List Text) → (any_text t ids ≡ true) ↔ Memᴰ t ids
unfolding any_text
any_text_iff t [] = (λ h. cc, λ m. absurd (not-nil m))
any_text_iff t (id ∷ ids) =
    any_step t id ids (bytes_eq id t) (any_text t ids) refl (any_text_iff t ids)

differs : (xs ys : Text) → bytes_eq xs ys ≡ false → xs ≢ ys
differs xs ys h e = cc ((bytes_eq_iff xs ys).1 e, h)

differs_eq : (xs ys : Text) → xs ≢ ys → bytes_eq xs ys ≡ false
differs_eq xs ys h = elim (Bool-cases (bytes_eq xs ys)) [
  | inl e ↦ absurd (h ((bytes_eq_iff xs ys).0 e))
  | inr e ↦ e
]

module _ {Any : Type 0} (oid : Text) where
  pub find_attribute-IsAttribute :
      (attributes : List (Attribute Any)) (a : Attribute Any)
      → find_attribute oid attributes ≡ some a
      → IsAttribute oid attributes a
  unfolding find_attribute
  find_attribute-IsAttribute [] a h = cc
  find_attribute-IsAttribute (b ∷ later) a h = elim (Bool-cases (bytes_eq b.oid oid)) [
    | inl e ↦
        subst (IsAttribute oid (b ∷ later)) (some-injective _ _ (rw e at h))
          (at_head ((bytes_eq_iff b.oid oid).0 e))
    | inr e ↦ behind (differs b.oid oid e) (find_attribute-IsAttribute later a (rw e at h))
  ]

  pub IsAttribute-found :
      {attributes : List (Attribute Any)} {a : Attribute Any}
      → IsAttribute oid attributes a
      → find_attribute oid attributes ≡ some a
  unfolding find_attribute
  IsAttribute-found (at_head e) = rw ((bytes_eq_iff _ oid).1 e)
  IsAttribute-found (behind d m) = rw (differs_eq _ oid d) (IsAttribute-found m)

module _ (lib : ProfileLibraries) where
  module _ (name : lib.Name) (serial : lib.Serial) where
    pub find_map_certificate-IsNamed :
        (cs : List (CertificateChoice lib.Certificate)) (c : lib.Certificate)
        → find_map_certificate lib name serial cs ≡ some c
        → IsNamed lib name serial cs c
    unfolding find_map_certificate
    find_map_certificate-IsNamed [] c h = cc
    find_map_certificate-IsNamed (other b ∷ cs) c h =
        past_other (find_map_certificate-IsNamed cs c h)
    find_map_certificate-IsNamed (certificate d ∷ cs) c h =
        elim (Bool-cases (names lib name serial d)) [
          | inl e ↦
              subst (IsNamed lib name serial (certificate d ∷ cs)) (some-injective _ _ (rw e at h))
                (here e)
          | inr e ↦ past e (find_map_certificate-IsNamed cs c (rw e at h))
        ]

    pub IsNamed-found :
        {cs : List (CertificateChoice lib.Certificate)} {c : lib.Certificate}
        → IsNamed lib name serial cs c
        → find_map_certificate lib name serial cs ≡ some c
    unfolding find_map_certificate
    IsNamed-found (here e) = rw e
    IsNamed-found (past_other n) = IsNamed-found n
    IsNamed-found (past e n) = rw e (IsNamed-found n)

  pub message_digest-IsPromised :
      (attributes : List (Attribute lib.Any)) (digest : Bytes)
      → message_digest lib attributes ≡ some digest
      → IsPromised lib attributes digest
  unfolding message_digest
  message_digest-IsPromised attributes digest h =
      elim (Option-cases (find_attribute id_message_digest attributes)) [
        | inl e ↦ cc (rw e at h)
        | inr (a, e) ↦ by_values a e a.values refl (rw e at h)
      ]
    where
      by_values :
          (a : Attribute lib.Any)
          → find_attribute id_message_digest attributes ≡ some a
          → (values : List lib.Any) → a.values ≡ values
          → Option.map lib.value (first a.values) ≡ some digest
          → IsPromised lib attributes digest
      by_values a e [] v k = cc (rw v at k)
      by_values a e (x ∷ xs) v k = record {
        attribute = a;
        found = find_attribute-IsAttribute id_message_digest attributes a e;
        head = x;
        tail = xs;
        values = v;
        value = some-injective _ _ (rw v at k);
      }

  pub IsPromised-digest :
      (attributes : List (Attribute lib.Any)) (digest : Bytes)
      → IsPromised lib attributes digest
      → message_digest lib attributes ≡ some digest
  unfolding message_digest
  IsPromised-digest attributes digest p =
      rw (IsAttribute-found id_message_digest p.found) (rw p.values (ap some p.value))

module _ (c : Curve) (spki signature_bytes message : Bytes) where
  verify_or-read :
      (otherwise : Bool)
      → IsVerifiedOn c spki signature_bytes message
      → verify_or c
          (c.from_public_key_der spki)
          (c.signature_from signature_bytes)
          message
          otherwise
        ≡ true
  unfolding verify_or
  verify_or-read otherwise v = rw v.read.key_is (rw v.read.signature_is v.verified)

  verify_or-unread :
      (otherwise : Bool)
      → (IsRead c spki signature_bytes → ⊥)
      → verify_or c
          (c.from_public_key_der spki)
          (c.signature_from signature_bytes)
          message
          otherwise
        ≡ otherwise
  unfolding verify_or
  verify_or-unread otherwise unread = elim (Result-cases (c.from_public_key_der spki)) [
    | inr (e, k) ↦ rw k
    | inl (key, k) ↦ elim (Result-cases (c.signature_from signature_bytes)) [
      | inr (e, s) ↦ rw k (rw s)
      | inl (signature, s) ↦
          absurd
            (unread (record { key = key; key_is = k; signature = signature; signature_is = s }))
    ]
  ]

  verify_or-cases :
      (otherwise : Bool)
      → verify_or c
          (c.from_public_key_der spki)
          (c.signature_from signature_bytes)
          message
          otherwise
        ≡ true
      → IsVerifiedOn c spki signature_bytes message
        ⊎ ((IsRead c spki signature_bytes → ⊥) × (otherwise ≡ true))
  unfolding verify_or
  verify_or-cases otherwise h = elim (Result-cases (c.from_public_key_der spki)) [
    | inr (e, k) ↦ inr (λ r. cc (k, r.key_is), rw k at h)
    | inl (key, k) ↦ elim (Result-cases (c.signature_from signature_bytes)) [
      | inr (e, s) ↦ inr (λ r. cc (s, r.signature_is), rw s at (rw k at h))
      | inl (signature, s) ↦ inl (record {
        read = record { key = key; key_is = k; signature = signature; signature_is = s };
        verified = rw s at (rw k at h);
      })
    ]
  ]

pub is_verified_iff :
    (lib : ProfileLibraries) (spki signature_bytes message : Bytes)
    → (is_verified lib spki signature_bytes message ≡ true)
      ↔ IsVerified lib spki signature_bytes message
unfolding is_verified
is_verified_iff lib spki signature_bytes message = (there, back)
  where
    there :
        is_verified lib spki signature_bytes message ≡ true
        → IsVerified lib spki signature_bytes message
    there h = elim (verify_or-cases lib.p256 spki signature_bytes message _ h) [
      | inl v ↦ on_p256 v
      | inr (unread, k) ↦ elim (verify_or-cases lib.p384 spki signature_bytes message _ k) [
        | inl v ↦ on_p384 unread v
        | inr (_, k') ↦ cc (k')
      ]
    ]

    back :
        IsVerified lib spki signature_bytes message
        → is_verified lib spki signature_bytes message ≡ true
    back (on_p256 v) = verify_or-read lib.p256 spki signature_bytes message _ v
    back (on_p384 unread v) =
        verify_or-unread lib.p256 spki signature_bytes message _ unread
        ∙ verify_or-read lib.p384 spki signature_bytes message false v
