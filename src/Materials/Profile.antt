-- ===== src/Materials/Profile.antt =====
-- src/materials/profile.rs: the checks of a provisioning profile. The crates cms, der, x509-cert,
-- p256, p384, pem and serde_json are parameters, and a signature scheme is one per curve.
pub mod Acceptable
pub mod Checked
pub mod Integrity
pub mod Decided
use hap_resigner.Prelude.{
  ℤ, ltℤ, Bool, true, false, not, ◌&&◌, ◌||◌, Option, none, some, List, [], ◌∷◌, if◌then◌else◌,
  bytes_eq, Result, ok, err, ◌>>=◌, ◌>>◌, fail_if, ok_or, map_err, and_then, Bytes, Text, codes,
}
use mathlib.Core.Option
use hap_resigner.External.{Attribute}

pub data ProfileError : Type 0 where
  malformed : Text → ProfileError
  cms_integrity : ProfileError
  expired : ProfileError
  bundle_mismatch : ProfileError
  device_mismatch : ProfileError
  certificate_mismatch : ProfileError

pub record Validity : Type 0 where
  pub not_before : ℤ
  pub not_after : ℤ

pub record BundleInfo : Type 0 where
  pub bundle_name : Text
  pub development_certificate : Text

pub record DebugInfo : Type 0 where
  pub device_ids : List Text

pub record ProvisionProfile : Type 0 where
  pub profile_type : Text
  pub validity : Validity
  pub bundle_info : BundleInfo
  pub debug_info : DebugInfo

-- `SignerIdentifier` and `CertificateChoices` of the crate cms.
pub data SignerIdentifier (Name Serial : Type 0) : Type 0 where
  issuer_and_serial_number : Name → Serial → SignerIdentifier Name Serial
  subject_key_identifier : Bytes → SignerIdentifier Name Serial

pub data CertificateChoice (Certificate : Type 0) : Type 0 where
  certificate : Certificate → CertificateChoice Certificate
  other : Bytes → CertificateChoice Certificate

-- `SignerInfo` and `SignedData`, the fields that the code reads.
pub record SignerInfo (Name Serial Any : Type 0) : Type 0 where
  pub sid : SignerIdentifier Name Serial
  pub digest_alg : Text
  pub signature_algorithm : Text
  pub signed_attrs : Option (List (Attribute Any))
  pub signature : Bytes

pub record SignedData (Certificate Name Serial Any : Type 0) : Type 0 where
  pub econtent : Option Any
  pub certificates : Option (List (CertificateChoice Certificate))
  pub signer_infos : List (SignerInfo Name Serial Any)

-- ECDSA over one curve, with a DER signature.
pub record Curve : Type 1 where
  pub VerifyingKey : Type 0
  pub Signature : Type 0
  pub from_public_key_der : Bytes → Result Text VerifyingKey
  pub signature_from : Bytes → Result Text Signature
  pub verify : VerifyingKey → Bytes → Signature → Bool

pub record ProfileLibraries : Type 1 where
  pub sha256 : Bytes → Bytes
  pub p256 : Curve
  pub p384 : Curve
  pub Certificate : Type 0
  pub Name : Type 0
  pub Serial : Type 0
  pub Any : Type 0
  pub ContentInfo : Type 0
  pub name_eq : Name → Name → Bool
  pub serial_eq : Serial → Serial → Bool
  pub value : Any → Bytes
  pub content_info_from_der : Bytes → Result Text ContentInfo
  pub content_type : ContentInfo → Text
  pub content_to_der : ContentInfo → Result Text Bytes
  pub signed_data_from_der : Bytes → Result Text (SignedData Certificate Name Serial Any)
  pub attributes_to_der : List (Attribute Any) → Result Text Bytes
  pub certificate_from_der : Bytes → Result Text Certificate
  pub issuer : Certificate → Name
  pub serial_number : Certificate → Serial
  pub subject_public_key_der : Certificate → Result Text Bytes
  pub json_from_slice : Bytes → Result Text ProvisionProfile
  pub pem_contents : Text → Result Text Bytes

-- ID_SIGNED_DATA, ID_MESSAGE_DIGEST and ID_SHA_256 of the crate const-oid.
abbrev pub id_signed_data : Text
id_signed_data = codes "1.2.840.113549.1.7.2"

abbrev pub id_message_digest : Text
id_message_digest = codes "1.2.840.113549.1.9.4"

abbrev pub id_sha_256 : Text
id_sha_256 = codes "2.16.840.1.101.3.4.2.1"

abbrev pub ecdsa_sha256 : Text
ecdsa_sha256 = codes "1.2.840.10045.4.3.2"

-- `iter().next()`.
abbrev pub first {ℓ} : {A : Type ℓ} → List A → Option A
first [] = none
first (x ∷ xs) = some x

-- `device_ids.iter().any(|id| id == udid)`.
unfoldable pub any_text : Text → List Text → Bool
any_text text [] = false
any_text text (id ∷ ids) = bytes_eq id text || any_text text ids

-- `iter().find(|attribute| attribute.oid == oid)`.
unfoldable pub find_attribute :
    {Any : Type 0} → Text → List (Attribute Any) → Option (Attribute Any)
find_attribute oid [] = none
find_attribute oid (a ∷ later) =
    let rest = find_attribute oid later in if bytes_eq a.oid oid then some a else rest

-- `if let (Ok(key), Ok(signature)) = … { key.verify(…).is_ok() } else { otherwise }`.
unfoldable pub verify_or :
    (c : Curve) → Result Text c.VerifyingKey → Result Text c.Signature → Bytes → Bool → Bool
verify_or c (ok key) (ok signature) message otherwise = c.verify key message signature
verify_or c (ok key) (err e) message otherwise = otherwise
verify_or c (err e) signature message otherwise = otherwise

module _ (lib : ProfileLibraries) where
  open lib use {
    sha256, p256, p384, Certificate, Name, Serial, Any, name_eq, serial_eq, value,
    content_info_from_der, content_type, content_to_der, signed_data_from_der, attributes_to_der,
    certificate_from_der, issuer, serial_number, subject_public_key_der, json_from_slice,
    pem_contents,
  }

  abbrev pub Signer : Type 0
  Signer = SignerInfo Name Serial Any

  abbrev pub Signed : Type 0
  Signed = SignedData Certificate Name Serial Any

  -- The guard of the match arm.
  unfoldable pub names : Name → Serial → Certificate → Bool
  names name serial c = name_eq (issuer c) name && serial_eq (serial_number c) serial

  unfoldable pub find_map_certificate :
      Name → Serial → List (CertificateChoice Certificate) → Option Certificate
  find_map_certificate name serial [] = none
  find_map_certificate name serial (other b ∷ cs) = find_map_certificate name serial cs
  find_map_certificate name serial (certificate c ∷ cs) =
      let rest = find_map_certificate name serial cs in if names name serial c then some c else rest

  unfoldable pub find_signer_certificate :
      Signed → SignerIdentifier Name Serial → Result ProfileError Certificate
  find_signer_certificate signed_data (subject_key_identifier b) =
      err (malformed (codes "unsupported signer identifier"))
  find_signer_certificate signed_data (issuer_and_serial_number name serial) =
      ok_or (and_then signed_data.certificates (find_map_certificate name serial))
        (malformed (codes "signer certificate is missing"))

  -- The digest that the attributes promise.
  unfoldable pub message_digest : List (Attribute Any) → Option Bytes
  message_digest attributes = Option.map value (
      and_then (find_attribute id_message_digest attributes)
        (λ (attribute : Attribute Any). first attribute.values))

  unfoldable pub is_verified : Bytes → Bytes → Bytes → Bool
  is_verified spki signature_bytes attributes_der =
      verify_or p256 (p256.from_public_key_der spki) (p256.signature_from signature_bytes)
        attributes_der
        (verify_or p384 (p384.from_public_key_der spki) (p384.signature_from signature_bytes)
          attributes_der false)

  unfoldable pub verify_cms_integrity : Signed → Bytes → Result ProfileError (Unit {0})
  verify_cms_integrity signed_data content = do
    signer_info ← ok_or (first signed_data.signer_infos) (malformed (codes "SignerInfo is missing"))
    _ ←
        fail_if
          (not (bytes_eq signer_info.digest_alg id_sha_256)
            || not (bytes_eq signer_info.signature_algorithm ecdsa_sha256))
          (malformed (codes "unsupported profile signature algorithm"))
    signed_attributes ←
        ok_or signer_info.signed_attrs (malformed (codes "signed attributes are missing"))
    promised ←
        ok_or (message_digest signed_attributes) (malformed (codes "messageDigest is missing"))
    _ ← fail_if (not (bytes_eq promised (sha256 content))) cms_integrity
    signer_certificate ← find_signer_certificate signed_data signer_info.sid
    spki ← map_err malformed (subject_public_key_der signer_certificate)
    attributes_der ← map_err malformed (attributes_to_der signed_attributes)
    fail_if (not (is_verified spki signer_info.signature attributes_der)) cms_integrity

  unfoldable pub development_certificate_matches :
      ProvisionProfile → Bytes → Result ProfileError Bool
  development_certificate_matches profile signer_certificate_der = do
    signer_certificate ← map_err malformed (certificate_from_der signer_certificate_der)
    signer_spki ← map_err malformed (subject_public_key_der signer_certificate)
    profile_pem ← map_err malformed (pem_contents profile.bundle_info.development_certificate)
    profile_certificate ← map_err malformed (certificate_from_der profile_pem)
    profile_spki ← map_err malformed (subject_public_key_der profile_certificate)
    ok (bytes_eq profile_spki signer_spki)

  unfoldable pub validate_profile :
      Bytes → Text → Text → Bytes → ℤ → Result ProfileError ProvisionProfile
  validate_profile p7b expected_bundle expected_udid signer_certificate_der now_unix = do
    content_info ← map_err malformed (content_info_from_der p7b)
    _ ←
        fail_if (not (bytes_eq (content_type content_info) id_signed_data))
          (malformed (codes "content type is not SignedData"))
    signed_data_der ← map_err malformed (content_to_der content_info)
    signed_data ← map_err malformed (signed_data_from_der signed_data_der)
    content ← ok_or signed_data.econtent (malformed (codes "profile content is missing"))
    _ ← verify_cms_integrity signed_data (value content)
    profile ← map_err malformed (json_from_slice (value content))
    _ ←
        fail_if
          (ltℤ now_unix profile.validity.not_before || ltℤ profile.validity.not_after now_unix)
          expired
    _ ← fail_if (not (bytes_eq profile.bundle_info.bundle_name expected_bundle)) bundle_mismatch
    _ ← fail_if (not (any_text expected_udid profile.debug_info.device_ids)) device_mismatch
    matches ← development_certificate_matches profile signer_certificate_der
    _ ← fail_if (not matches) certificate_mismatch
    ok profile
