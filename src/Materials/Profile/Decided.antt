-- ===== src/Materials/Profile/Decided.antt =====
-- The profiles that `validate_profile` returns.
use hap_resigner.Prelude.{
  ℤ, ltℤ_iff, ◌≡◌, ◌↔◌, refl, ap, subst, ◌∙◌, true, bytes_eq_iff, ok, >>=-eq-ok, >>=-after, fail_if,
  fail_if-eq-ok, fail_if-passed, ok_or, ok_or-eq-ok, ok_or-some, ok-injective, map_err,
  map_err-eq-ok, map_err-ok, Bytes, Text,
}
use hap_resigner.Materials.Profile.{
  malformed, bundle_mismatch, device_mismatch, certificate_mismatch, ProvisionProfile,
  ProfileLibraries, id_signed_data, verify_cms_integrity, development_certificate_matches,
  validate_profile,
}
use hap_resigner.Materials.Profile.Acceptable.{IsForKey, IsAcceptable}
use hap_resigner.Materials.Profile.Checked.{required_iff, any_text_iff}
use hap_resigner.Materials.Profile.Integrity.{
  or_false, same_iff, or_both, required, verify_cms_integrity-passed, IsSignedContent-passes,
}

certificate-IsForKey :
    (lib : ProfileLibraries) (profile : ProvisionProfile) (der : Bytes)
    → development_certificate_matches lib profile der ≡ ok true
    → IsForKey lib profile der
unfolding development_certificate_matches
certificate-IsForKey lib profile der h =
    let (signer, h1, k1) = >>=-eq-ok (map_err malformed (lib.certificate_from_der der)) _ h in
    let (spki, h2, k2) = >>=-eq-ok (map_err malformed (lib.subject_public_key_der signer)) _ k1 in
    let (contents, h3, k3) = >>=-eq-ok (map_err malformed (lib.pem_contents _)) _ k2 in
    let (c, h4, k4) = >>=-eq-ok (map_err malformed (lib.certificate_from_der contents)) _ k3 in
    let (own, h5, k5) = >>=-eq-ok (map_err malformed (lib.subject_public_key_der c)) _ k4 in
    record {
      spki = spki;
      signer_key = record {
        parsed = signer;
        parsed_is = map_err-eq-ok malformed _ h1;
        spki_is = map_err-eq-ok malformed _ h2;
      };
      contents = contents;
      contents_are = map_err-eq-ok malformed _ h3;
      profile_key = record {
        parsed = c;
        parsed_is = map_err-eq-ok malformed _ h4;
        spki_is =
            map_err-eq-ok malformed _ h5 ∙ ap ok ((bytes_eq_iff own spki).0 (ok-injective k5));
      };
    }

IsForKey-matches :
    (lib : ProfileLibraries) (profile : ProvisionProfile) (der : Bytes)
    → IsForKey lib profile der
    → development_certificate_matches lib profile der ≡ ok true
unfolding development_certificate_matches
IsForKey-matches lib profile der k =
    >>=-after (map_err malformed (lib.certificate_from_der der)) _ k.signer_key.parsed
      (map_err-ok malformed _ k.signer_key.parsed_is)
      (>>=-after (map_err malformed (lib.subject_public_key_der k.signer_key.parsed)) _ k.spki
        (map_err-ok malformed _ k.signer_key.spki_is)
        (>>=-after (map_err malformed (lib.pem_contents _)) _ k.contents
          (map_err-ok malformed _ k.contents_are)
          (>>=-after (map_err malformed (lib.certificate_from_der k.contents)) _
            k.profile_key.parsed (map_err-ok malformed _ k.profile_key.parsed_is)
            (>>=-after (map_err malformed (lib.subject_public_key_der k.profile_key.parsed)) _
              k.spki (map_err-ok malformed _ k.profile_key.spki_is)
              (ap ok ((bytes_eq_iff k.spki k.spki).1 refl))))))

module _ (lib : ProfileLibraries) (p7b : Bytes) (bundle udid : Text) (der : Bytes) (now : ℤ) where
  validate_profile-IsAcceptable :
      (profile : ProvisionProfile)
      → validate_profile lib p7b bundle udid der now ≡ ok profile
      → IsAcceptable lib p7b bundle udid der now profile
  unfolding validate_profile
  validate_profile-IsAcceptable profile h =
      let (info, h1, k1) = >>=-eq-ok (map_err malformed (lib.content_info_from_der p7b)) _ h in
      let (_, h2, k2) = >>=-eq-ok (fail_if _ _) _ k1 in
      let (inner, h3, k3) = >>=-eq-ok (map_err malformed (lib.content_to_der info)) _ k2 in
      let (signed, h4, k4) = >>=-eq-ok (map_err malformed (lib.signed_data_from_der inner)) _ k3 in
      let (content, h5, k5) = >>=-eq-ok (ok_or signed.econtent _) _ k4 in
      let (_, h6, k6) = >>=-eq-ok (verify_cms_integrity lib signed (lib.value content)) _ k5 in
      let (read, h7, k7) =
        >>=-eq-ok (map_err malformed (lib.json_from_slice (lib.value content))) _ k6 in
      let (_, h8, k8) = >>=-eq-ok (fail_if _ _) _ k7 in
      let (_, h9, k9) = >>=-eq-ok (fail_if _ _) _ k8 in
      let (_, h10, k10) = >>=-eq-ok (fail_if _ _) _ k9 in
      let (matches, h11, k11) = >>=-eq-ok (development_certificate_matches lib read der) _ k10 in
      let (_, h12, k12) = >>=-eq-ok (fail_if _ _) _ k11 in
      let (since, until) = or_false _ _ (fail_if-eq-ok _ _ h8) in
      subst (IsAcceptable lib p7b bundle udid der now) (ok-injective k12) (record {
        info = info;
        info_is = map_err-eq-ok malformed _ h1;
        is_signed_data = (same_iff (lib.content_type info) id_signed_data _).0 h2;
        inner = inner;
        inner_is = map_err-eq-ok malformed _ h3;
        signed = signed;
        signed_is = map_err-eq-ok malformed _ h4;
        content = content;
        content_is = ok_or-eq-ok _ _ h5;
        signed_content = verify_cms_integrity-passed lib signed (lib.value content) h6;
        parsed = map_err-eq-ok malformed _ h7;
        since = (ltℤ_iff read.validity.not_before now).0 since;
        until = (ltℤ_iff now read.validity.not_after).0 until;
        same_bundle = (same_iff read.bundle_info.bundle_name bundle bundle_mismatch).0 h9;
        listed =
            (any_text_iff udid read.debug_info.device_ids).0
              ((required_iff _ device_mismatch).0 h10);
        for_key = certificate-IsForKey lib read der (
            subst (λ m. development_certificate_matches lib read der ≡ ok m)
              ((required_iff matches certificate_mismatch).0 h12) h11);
      })

  IsAcceptable-validates :
      (profile : ProvisionProfile)
      → IsAcceptable lib p7b bundle udid der now profile
      → validate_profile lib p7b bundle udid der now ≡ ok profile
  unfolding validate_profile
  IsAcceptable-validates profile a =
      >>=-after (map_err malformed (lib.content_info_from_der p7b)) _ a.info
        (map_err-ok malformed _ a.info_is)
        (>>=-after (fail_if _ _) _ tt
          ((same_iff (lib.content_type a.info) id_signed_data _).1 a.is_signed_data)
          (>>=-after (map_err malformed (lib.content_to_der a.info)) _ a.inner
            (map_err-ok malformed _ a.inner_is)
            (>>=-after (map_err malformed (lib.signed_data_from_der a.inner)) _ a.signed
              (map_err-ok malformed _ a.signed_is)
              (>>=-after (ok_or a.signed.econtent _) _ a.content (ok_or-some _ _ a.content_is) (
                >>=-after (verify_cms_integrity lib a.signed (lib.value a.content)) _ tt
                  (IsSignedContent-passes lib a.signed (lib.value a.content) a.signed_content)
                  (>>=-after (map_err malformed (lib.json_from_slice (lib.value a.content))) _
                    profile (map_err-ok malformed _ a.parsed)
                    (>>=-after (fail_if _ _) _ tt
                      (fail_if-passed _ _ (
                        or_both _ _ ((ltℤ_iff profile.validity.not_before now).1 a.since)
                          ((ltℤ_iff now profile.validity.not_after).1 a.until)))
                      (>>=-after (fail_if _ _) _ tt
                        ((same_iff profile.bundle_info.bundle_name bundle _).1 a.same_bundle)
                        (>>=-after (fail_if _ _) _ tt
                          (required _ _
                            ((any_text_iff udid profile.debug_info.device_ids).1 a.listed))
                          (>>=-after (development_certificate_matches lib profile der) _ true
                            (IsForKey-matches lib profile der a.for_key) refl))))))))))

-- `validate_profile` returns a profile exactly when it is acceptable: the p7b is CMS signed data whose
-- first signer promises the SHA-256 digest of the content, with the signature over the promise
-- verified by the key of the certificate that the signer names; the content is that profile; it is
-- within its validity, for the expected bundle and for the expected device; and its development
-- certificate has the key of the signer's.
pub validate_profile_iff :
    (lib : ProfileLibraries) (p7b : Bytes) (bundle udid : Text) (der : Bytes) (now : ℤ)
    (profile : ProvisionProfile)
    → (validate_profile lib p7b bundle udid der now ≡ ok profile)
      ↔ IsAcceptable lib p7b bundle udid der now profile
validate_profile_iff lib p7b bundle udid der now profile = (
  validate_profile-IsAcceptable lib p7b bundle udid der now profile,
  IsAcceptable-validates lib p7b bundle udid der now profile,
)
