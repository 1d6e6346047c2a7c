-- ===== src/Materials/Profile/Integrity.antt =====
-- The integrity check of a profile passes for signed content.
use hap_resigner.Prelude.{
  ◌≡◌, ◌↔◌, refl, ap, ◌∙◌, Bool, true, false, not, ◌||◌, some, bytes_eq, bytes_eq_iff, ok,
  >>=-eq-ok, >>=-after, fail_if, fail_if-eq-ok, fail_if-passed, List, [], ◌∷◌, ok_or, ok_or-eq-ok,
  ok_or-some, map_err, map_err-eq-ok, map_err-ok, and_then, Option-cases, inl, inr, Bytes,
}
use mathlib.Core.Option.{some-injective}
use hap_resigner.Materials.Profile.{
  CertificateChoice, malformed, cms_integrity, SignerIdentifier, subject_key_identifier,
  issuer_and_serial_number, ProfileLibraries, Signed, id_sha_256, ecdsa_sha256, first,
  find_map_certificate, find_signer_certificate, message_digest, verify_cms_integrity,
}
use hap_resigner.Materials.Profile.Acceptable.{IsSignedContent, IsNamed}
use hap_resigner.Materials.Profile.Checked.{
  required_iff, find_map_certificate-IsNamed, IsNamed-found, message_digest-IsPromised,
  IsPromised-digest, is_verified_iff,
}

pub or_false : (a b : Bool) → (a || b) ≡ false → (a ≡ false) × (b ≡ false)
or_false true b h = cc
or_false false b h = (refl, h)

pub unnegated : (a : Bool) → not a ≡ false → a ≡ true
unnegated true h = refl
unnegated false h = cc

pub required : {E : Type 0} (b : Bool) (e : E) → b ≡ true → fail_if (not b) e ≡ ok tt
required b e h = (required_iff b e).1 h

-- `fail_if (not (bytes_eq …)) …`.
pub same_iff :
    {E : Type 0} (xs ys : Bytes) (e : E) → (fail_if (not (bytes_eq xs ys)) e ≡ ok tt) ↔ (xs ≡ ys)
same_iff xs ys e = (
  λ h. (bytes_eq_iff xs ys).0 ((required_iff _ e).0 h),
  λ h. required _ e ((bytes_eq_iff xs ys).1 h),
)

both_same :
    (xs xs' ys ys' : Bytes)
    → xs ≡ xs'
    → ys ≡ ys'
    → (not (bytes_eq xs xs') || not (bytes_eq ys ys')) ≡ false
both_same xs xs' ys ys' h k = rw ((bytes_eq_iff xs xs').1 h, (bytes_eq_iff ys ys').1 k)

pub or_both : (a b : Bool) → a ≡ false → b ≡ false → (a || b) ≡ false
or_both a b h k = rw (h, k)

record IsFound (lib : ProfileLibraries) (signed : Signed lib)
    (sid : SignerIdentifier lib.Name lib.Serial) (c : lib.Certificate) : Type 0 where
  name : lib.Name
  serial : lib.Serial
  sid_is : sid ≡ issuer_and_serial_number name serial
  choices : List (CertificateChoice lib.Certificate)
  choices_are : signed.certificates ≡ some choices
  named : IsNamed lib name serial choices c

module _ (lib : ProfileLibraries) (signed : Signed lib) where
  find_signer_certificate-IsFound :
      (sid : SignerIdentifier lib.Name lib.Serial) (c : lib.Certificate)
      → find_signer_certificate lib signed sid ≡ ok c
      → IsFound lib signed sid c
  unfolding find_signer_certificate
  find_signer_certificate-IsFound (subject_key_identifier b) c h = cc
  find_signer_certificate-IsFound (issuer_and_serial_number name serial) c h =
      let k =
        ok_or-eq-ok (and_then signed.certificates (find_map_certificate lib name serial)) _ h in
      elim (Option-cases signed.certificates) [
        | inl e ↦ cc (rw e at k)
        | inr (choices, e) ↦ record {
          name = name;
          serial = serial;
          sid_is = refl;
          choices = choices;
          choices_are = e;
          named = find_map_certificate-IsNamed lib name serial choices c (rw e at k);
        }
      ]

  find_signer_certificate-named :
      (name : lib.Name) (serial : lib.Serial) (choices : List (CertificateChoice lib.Certificate))
      (c : lib.Certificate)
      → signed.certificates ≡ some choices
      → IsNamed lib name serial choices c
      → find_signer_certificate lib signed (issuer_and_serial_number name serial) ≡ ok c
  unfolding find_signer_certificate
  find_signer_certificate-named name serial choices c e n =
      ok_or-some _ _ (rw e (IsNamed-found lib name serial n))

pub first-eq-some :
    {A : Type 0} (xs : List A) {a : A} → first xs ≡ some a → (rest : List A) × (xs ≡ a ∷ rest)
first-eq-some [] h = cc
first-eq-some (x ∷ xs) h = (xs, ap (λ y. y ∷ xs) (some-injective _ _ h))

-- The integrity check passes exactly for a signed content.
pub verify_cms_integrity-passed :
    (lib : ProfileLibraries) (signed : Signed lib) (content : Bytes)
    → verify_cms_integrity lib signed content ≡ ok tt
    → IsSignedContent lib signed content
unfolding verify_cms_integrity
verify_cms_integrity-passed lib signed content h =
    let (signer, h1, k1) = >>=-eq-ok (ok_or (first signed.signer_infos) _) _ h in
    let (_, h2, k2) = >>=-eq-ok (fail_if _ _) _ k1 in
    let (attributes, h3, k3) = >>=-eq-ok (ok_or signer.signed_attrs _) _ k2 in
    let (promised, h4, k4) = >>=-eq-ok (ok_or (message_digest lib attributes) _) _ k3 in
    let (_, h5, k5) = >>=-eq-ok (fail_if _ _) _ k4 in
    let (c, h6, k6) = >>=-eq-ok (find_signer_certificate lib signed signer.sid) _ k5 in
    let (spki, h7, k7) = >>=-eq-ok (map_err malformed (lib.subject_public_key_der c)) _ k6 in
    let (message, h8, k8) = >>=-eq-ok (map_err malformed (lib.attributes_to_der attributes)) _ k7 in
    let (more, signers) = first-eq-some signed.signer_infos (ok_or-eq-ok _ _ h1) in
    let (digest_alg, signature_alg) = or_false _ _ (fail_if-eq-ok _ _ h2) in
    let found = find_signer_certificate-IsFound lib signed signer.sid c h6 in
    record {
      signer = signer;
      more_signers = more;
      signers = signers;
      digest_alg = (bytes_eq_iff _ _).0 (unnegated _ digest_alg);
      signature_algorithm = (bytes_eq_iff _ _).0 (unnegated _ signature_alg);
      attributes = attributes;
      attributes_are = ok_or-eq-ok _ _ h3;
      promised = message_digest-IsPromised lib attributes _ (
          ok_or-eq-ok _ _ h4
          ∙ ap some ((same_iff promised (lib.sha256 content) cms_integrity).0 h5));
      name = found.name;
      serial = found.serial;
      sid = found.sid_is;
      choices = found.choices;
      choices_are = found.choices_are;
      signer_certificate = c;
      named = found.named;
      spki = spki;
      spki_is = map_err-eq-ok malformed _ h7;
      message = message;
      encoded = map_err-eq-ok malformed _ h8;
      verified =
          (is_verified_iff lib spki signer.signature message).0
            ((required_iff _ cms_integrity).0 k8);
    }

pub IsSignedContent-passes :
    (lib : ProfileLibraries) (signed : Signed lib) (content : Bytes)
    → IsSignedContent lib signed content
    → verify_cms_integrity lib signed content ≡ ok tt
unfolding verify_cms_integrity
IsSignedContent-passes lib signed content s =
    >>=-after (ok_or (first signed.signer_infos) _) _ s.signer (rw s.signers) (
      >>=-after (fail_if _ _) _ tt
        (fail_if-passed _ _ (
          both_same s.signer.digest_alg id_sha_256 s.signer.signature_algorithm ecdsa_sha256
            s.digest_alg s.signature_algorithm))
        (>>=-after (ok_or s.signer.signed_attrs _) _ s.attributes (ok_or-some _ _ s.attributes_are)
          (>>=-after (ok_or (message_digest lib s.attributes) _) _ (lib.sha256 content)
            (ok_or-some _ _ (IsPromised-digest lib s.attributes _ s.promised))
            (>>=-after (fail_if _ _) _ tt
              ((same_iff (lib.sha256 content) (lib.sha256 content) cms_integrity).1 refl)
              (>>=-after (find_signer_certificate lib signed s.signer.sid) _ s.signer_certificate
                (rw s.sid (
                  find_signer_certificate-named lib signed s.name s.serial s.choices
                    s.signer_certificate s.choices_are s.named))
                (>>=-after (map_err malformed (lib.subject_public_key_der s.signer_certificate)) _
                  s.spki (map_err-ok malformed _ s.spki_is)
                  (>>=-after (map_err malformed (lib.attributes_to_der s.attributes)) _ s.message
                    (map_err-ok malformed _ s.encoded)
                    (required _ cms_integrity (
                      (is_verified_iff lib s.spki s.signer.signature s.message).1
                        s.verified)))))))))
