-- ===== src/Cms.antt =====
-- src/hap/cms.rs: the CMS signatures, as calls of the cms crate's builders.
use hap_resigner.Prelude.{
  Bool, true, false, Option, none, some, List, [], ◌∷◌, Result, ok, ◌>>=◌, Bytes, Text, codes,
  if◌then◌else◌, not,
}
use hap_resigner.External.{Libraries, Attribute, Encapsulated, SigningIdentity}

abbrev pub owner_id_oid : Text
owner_id_oid = codes "1.3.6.1.4.1.2011.2.376.1.4.1"

abbrev pub sha256_oid : Text
sha256_oid = codes "2.16.840.1.101.3.4.2.1"

-- `identity.certificates[0]`. `load_signing_identity` puts the signer's certificate first, so the
-- list is not empty.
unfoldable pub leaf_der : List Bytes → Bytes
leaf_der [] = []
leaf_der (c ∷ cs) = c

module _ (lib : Libraries) where
  open lib use {
    SigningKey, Any, SignerInfoBuilder, SignedDataBuilder, sha256, certificate_from_der,
    octet_string, utf8_string, set_insert, issuer_and_serial, signing_time_attribute,
    signer_info_new, add_signed_attribute, signed_data_new, add_digest_algorithm, add_certificate,
    add_signer_info, build_to_der,
  }

  unfoldable pub owner_id_attribute : Text → Result Text (Attribute Any)
  owner_id_attribute owner_id = do
    value ← utf8_string owner_id
    values ← set_insert [] value
    ok (record { oid = owner_id_oid; values = values })

  unfoldable pub encapsulate : Bytes → Bool → Result Text (Encapsulated Any)
  encapsulate content true = do value ← octet_string content; ok (record { econtent = some value })
  encapsulate content false = ok (record { econtent = none })

  -- `if let Some(owner_id) = owner_id`.
  unfoldable pub add_owner : SignerInfoBuilder → Option Text → Result Text SignerInfoBuilder
  add_owner signer none = ok signer
  add_owner signer (some owner_id) = do
    attribute ← owner_id_attribute owner_id
    add_signed_attribute signer attribute

  -- The loop over the identity's certificates.
  unfoldable pub add_certificates : SignedDataBuilder → List Bytes → Result Text SignedDataBuilder
  add_certificates builder [] = ok builder
  add_certificates builder (der ∷ ders) = do
    certificate ← certificate_from_der der
    next ← add_certificate builder certificate
    add_certificates next ders

  unfoldable pub build_cms :
      Bytes → SigningIdentity SigningKey → Bool → Option Text → Result Text Bytes
  build_cms content identity attached owner_id = do
    leaf ← certificate_from_der (leaf_der identity.certificates)
    encapsulated ← encapsulate content attached
    let external_digest = if not attached then some (sha256 content) else none
    signer ←
        signer_info_new identity.signing_key (issuer_and_serial leaf) sha256_oid encapsulated
          external_digest
    time ← signing_time_attribute
    timed ← add_signed_attribute signer time
    owned ← add_owner timed owner_id
    builder ← add_digest_algorithm (signed_data_new encapsulated) sha256_oid
    certified ← add_certificates builder identity.certificates
    complete ← add_signer_info certified owned
    build_to_der complete

  unfoldable pub build_attached_cms : Bytes → SigningIdentity SigningKey → Result Text Bytes
  build_attached_cms content identity = build_cms content identity true none

  unfoldable pub build_detached_cms : Bytes → Text → SigningIdentity SigningKey → Result Text Bytes
  build_detached_cms content owner_id identity = build_cms content identity false (some owner_id)
