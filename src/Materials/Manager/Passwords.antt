-- ===== src/Materials/Manager/Passwords.antt =====
-- What the passwords of a key pair open.
use hap_resigner.Prelude.{
  ℤ, ◌≡◌, subst, ◌∙◌, some, List, [], ◌∷◌, ok, Bytes, Text, Result-cases, Option-cases, inl, inr,
}
use mathlib.Core.Option.{some-injective}
use hap_resigner.Effect.{}
use hap_resigner.Materials.{load_signing_identity}
use hap_resigner.Materials.Profile.{validate_profile, first}
use hap_resigner.Materials.Profile.Acceptable.{IsAcceptable}
use hap_resigner.Materials.Profile.Integrity.{first-eq-some}
use hap_resigner.Materials.Profile.Decided.{validate_profile_iff}
use hap_resigner.Materials.Manager.{
  ManagerLibraries, Identity, Unlocked, try_passwords, unlocked_with,
}
use hap_resigner.Materials.Manager.Usable.{}

-- What the loop over the passwords knows of what it returns.
pub record IsUnlocked (lib : ManagerLibraries) (profile : Bytes) (bundle udid : Text) (now : ℤ)
    (p12 chain : Bytes) (u : Unlocked lib) : Type 0 where
  pub loads : load_signing_identity lib.keys p12 u.password chain ≡ ok u.identity
  pub leaf : Bytes
  pub others : List Bytes
  pub certificates : u.identity.certificates ≡ leaf ∷ others
  pub acceptable : IsAcceptable lib.profiles profile bundle udid leaf now u.provision

module _ (lib : ManagerLibraries) where
  module _ (profile : Bytes) (bundle udid : Text) (now : ℤ) (p12 chain : Bytes) where
    unlocked_with-IsUnlocked :
        (password : Text) (identity : Identity lib) (u : Unlocked lib)
        → load_signing_identity lib.keys p12 password chain ≡ ok identity
        → unlocked_with lib profile bundle udid now password (some identity) ≡ some u
        → IsUnlocked lib profile bundle udid now p12 chain u
    unlocked_with-IsUnlocked password identity u l h =
        elim (Option-cases (first identity.certificates)) [
          | inl e ↦ cc (rw e at h)
          | inr (leaf, e) ↦
              elim (Result-cases (validate_profile lib.profiles profile bundle udid leaf now)) [
                | inr (x, v) ↦ cc (rw v at (rw e at h))
                | inl (provision, v) ↦
                    let (others, shape) = first-eq-some identity.certificates e in
                    subst (IsUnlocked lib profile bundle udid now p12 chain)
                      (some-injective _ _ (rw v at (rw e at h)))
                      (record {
                        loads = l;
                        leaf = leaf;
                        others = others;
                        certificates = shape;
                        acceptable =
                            (validate_profile_iff lib.profiles profile bundle udid leaf now
                                provision).0
                              v;
                      })
              ]
        ]

    pub try_passwords-IsUnlocked :
        (passwords : List Text) (u : Unlocked lib)
        → try_passwords lib profile bundle udid now p12 chain passwords ≡ some u
        → IsUnlocked lib profile bundle udid now p12 chain u
    unfolding try_passwords
    try_passwords-IsUnlocked [] u h = cc
    try_passwords-IsUnlocked (password ∷ passwords) u h =
        elim (Result-cases (load_signing_identity lib.keys p12 password chain)) [
          | inr (e, l) ↦ try_passwords-IsUnlocked passwords u (rw l at h)
          | inl (identity, l) ↦
              elim (Option-cases
                (unlocked_with lib profile bundle udid now password (some identity))) [
                  | inl e ↦ try_passwords-IsUnlocked passwords u (rw e at (rw l at h))
                  | inr (v, e) ↦
                      unlocked_with-IsUnlocked password identity u l (e ∙ (rw e at (rw l at h)))
                ]
        ]
