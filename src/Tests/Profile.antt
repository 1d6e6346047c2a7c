-- ===== src/Tests/Profile.antt =====
-- A profile that is signed by the second certificate of its list.
use hap_resigner.Prelude.{
  pos, ltℤ, ◌≡◌, refl, some, [], ◌∷◌, Result, ok, err, if◌then◌else◌, Bytes, Text, codes, bytes_eq,
}
use hap_resigner.External.{Attribute}
use hap_resigner.Materials.Profile.{
  ProvisionProfile, certificate, other, issuer_and_serial_number, Curve, ProfileLibraries,
  id_signed_data, id_message_digest, id_sha_256, ecdsa_sha256, any_text, find_attribute, verify_or,
  names, find_map_certificate, find_signer_certificate, message_digest, is_verified,
  verify_cms_integrity, development_certificate_matches, validate_profile,
}
use hap_resigner.Materials.Profile.Acceptable.{IsAcceptable}
use hap_resigner.Materials.Profile.Decided.{validate_profile_iff}

-- A curve that reads keys of its own first byte, and a signature that is the key.
abbrev curve : Bytes → Curve
curve own = record {
  VerifyingKey = Bytes;
  Signature = Bytes;
  from_public_key_der = λ b. read_key own b;
  signature_from = λ b. ok b;
  verify = λ key message signature. bytes_eq key signature;
}
  where
    read_key : Bytes → Bytes → Result Text Bytes
    read_key own b = if bytes_eq own b then ok b else err []

abbrev attribute : Bytes → Attribute Bytes
attribute b = record { oid = id_message_digest; values = b ∷ [] }

abbrev pub debug_profile : ProvisionProfile
debug_profile = record {
  profile_type = codes "debug";
  validity = record { not_before = pos 10; not_after = pos 20 };
  bundle_info = record { bundle_name = codes "b"; development_certificate = codes "p" };
  debug_info = record { device_ids = codes "x" ∷ (codes "u" ∷ []) };
}

-- A digest is its text, and a certificate is its issuer and its key.
abbrev pub profile_libraries : ProfileLibraries
profile_libraries = record {
  sha256 = λ b. b;
  p256 = curve (1 ∷ []);
  p384 = curve (7 ∷ []);
  Certificate = Bytes;
  Name = Bytes;
  Serial = Bytes;
  Any = Bytes;
  ContentInfo = Bytes;
  name_eq = bytes_eq;
  serial_eq = bytes_eq;
  value = λ b. b;
  content_info_from_der = λ b. ok b;
  content_type = λ b. id_signed_data;
  content_to_der = λ b. ok b;
  signed_data_from_der = λ b. ok (record {
    econtent = some b;
    certificates = some (other [] ∷ (certificate (8 ∷ []) ∷ (certificate (7 ∷ []) ∷ [])));
    signer_infos =
        record {
          sid = issuer_and_serial_number (7 ∷ []) (7 ∷ []);
          digest_alg = id_sha_256;
          signature_algorithm = ecdsa_sha256;
          signed_attrs = some (record { oid = codes "other"; values = [] } ∷ (attribute b ∷ []));
          signature = 7 ∷ [];
        }
        ∷ [];
  });
  attributes_to_der = λ a. ok [];
  certificate_from_der = λ b. ok b;
  issuer = λ b. b;
  serial_number = λ b. b;
  subject_public_key_der = λ b. ok b;
  json_from_slice = λ b. ok debug_profile;
  pem_contents = λ t. ok (7 ∷ []);
}

validated :
    validate_profile profile_libraries (3 ∷ []) (codes "b") (codes "u") (7 ∷ []) (pos 15)
    ≡ ok debug_profile
unfolding validate_profile verify_cms_integrity find_signer_certificate find_map_certificate names
    message_digest find_attribute is_verified verify_or development_certificate_matches any_text
    bytes_eq ltℤ
validated = refl

validate_profile_iff_example :
    IsAcceptable profile_libraries (3 ∷ []) (codes "b") (codes "u") (7 ∷ []) (pos 15) debug_profile
validate_profile_iff_example =
    (validate_profile_iff profile_libraries (3 ∷ []) (codes "b") (codes "u") (7 ∷ []) (pos 15)
        debug_profile).0
      validated
