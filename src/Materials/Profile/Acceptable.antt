-- ===== src/Materials/Profile/Acceptable.antt =====
-- What makes a provisioning profile acceptable, without the order of the checks.
use hap_resigner.Prelude.{ℤ, IsAtMost, ◌≡◌, ◌≢◌, true, false, some, List, ◌∷◌, ok, Bytes, Text}
use mathlib.Core.List.{Memᴰ}
use hap_resigner.External.{Attribute}
use hap_resigner.Materials.Profile.{
  ProvisionProfile, CertificateChoice, certificate, other, issuer_and_serial_number, Curve,
  ProfileLibraries, id_signed_data, id_message_digest, id_sha_256, ecdsa_sha256, Signer, Signed,
  names,
}

-- The curve reads both the key and the signature.
pub record IsRead (c : Curve) (spki signature_bytes : Bytes) : Type 0 where
  pub key : c.VerifyingKey
  pub key_is : c.from_public_key_der spki ≡ ok key
  pub signature : c.Signature
  pub signature_is : c.signature_from signature_bytes ≡ ok signature

pub record IsVerifiedOn (c : Curve) (spki signature_bytes message : Bytes) : Type 0 where
  pub read : IsRead c spki signature_bytes
  pub verified : c.verify read.key message read.signature ≡ true

-- P-384 counts only for a key or a signature that P-256 does not read.
pub data IsVerified (lib : ProfileLibraries) (spki signature_bytes message : Bytes) : Type 0 where
  on_p256 :
      IsVerifiedOn lib.p256 spki signature_bytes message
      → IsVerified lib spki signature_bytes message
  on_p384 :
      (IsRead lib.p256 spki signature_bytes → ⊥)
      → IsVerifiedOn lib.p384 spki signature_bytes message
      → IsVerified lib spki signature_bytes message

-- The first certificate of the list with this issuer and serial number.
pub data IsNamed (lib : ProfileLibraries) (name : lib.Name) (serial : lib.Serial)
    : List (CertificateChoice lib.Certificate) → lib.Certificate → Type 0 where
  here :
      {c : lib.Certificate} {cs : List (CertificateChoice lib.Certificate)}
      → names lib name serial c ≡ true
      → IsNamed lib name serial (certificate c ∷ cs) c
  past_other :
      {b : Bytes} {c : lib.Certificate} {cs : List (CertificateChoice lib.Certificate)}
      → IsNamed lib name serial cs c
      → IsNamed lib name serial (other b ∷ cs) c
  past :
      {d c : lib.Certificate} {cs : List (CertificateChoice lib.Certificate)}
      → names lib name serial d ≡ false
      → IsNamed lib name serial cs c
      → IsNamed lib name serial (certificate d ∷ cs) c

-- The first attribute with this identifier.
pub data IsAttribute {Any : Type 0} (oid : Text)
    : List (Attribute Any) → Attribute Any → Type 0 where
  at_head :
      {a : Attribute Any} {later : List (Attribute Any)}
      → a.oid ≡ oid
      → IsAttribute oid (a ∷ later) a
  behind :
      {b a : Attribute Any} {later : List (Attribute Any)}
      → b.oid ≢ oid
      → IsAttribute oid later a
      → IsAttribute oid (b ∷ later) a

-- The attributes promise the digest of a content.
pub record IsPromised (lib : ProfileLibraries) (attributes : List (Attribute lib.Any))
    (digest : Bytes) : Type 0 where
  pub attribute : Attribute lib.Any
  pub found : IsAttribute id_message_digest attributes attribute
  pub head : lib.Any
  pub tail : List lib.Any
  pub values : attribute.values ≡ head ∷ tail
  pub value : lib.value head ≡ digest

-- The first signer signs the content: the signed attributes hold its digest, and the key of the
-- certificate that the signer names verifies the signature of these attributes.
pub record IsSignedContent (lib : ProfileLibraries) (signed : Signed lib) (content : Bytes)
    : Type 0 where
  pub signer : Signer lib
  pub more_signers : List (Signer lib)
  pub signers : signed.signer_infos ≡ signer ∷ more_signers
  pub digest_alg : signer.digest_alg ≡ id_sha_256
  pub signature_algorithm : signer.signature_algorithm ≡ ecdsa_sha256
  pub attributes : List (Attribute lib.Any)
  pub attributes_are : signer.signed_attrs ≡ some attributes
  pub promised : IsPromised lib attributes (lib.sha256 content)
  pub name : lib.Name
  pub serial : lib.Serial
  pub sid : signer.sid ≡ issuer_and_serial_number name serial
  pub choices : List (CertificateChoice lib.Certificate)
  pub choices_are : signed.certificates ≡ some choices
  pub signer_certificate : lib.Certificate
  pub named : IsNamed lib name serial choices signer_certificate
  pub spki : Bytes
  pub spki_is : lib.subject_public_key_der signer_certificate ≡ ok spki
  pub message : Bytes
  pub encoded : lib.attributes_to_der attributes ≡ ok message
  pub verified : IsVerified lib spki signer.signature message

pub record HasPublicKey (lib : ProfileLibraries) (der spki : Bytes) : Type 0 where
  pub parsed : lib.Certificate
  pub parsed_is : lib.certificate_from_der der ≡ ok parsed
  pub spki_is : lib.subject_public_key_der parsed ≡ ok spki

-- The certificate in the profile and the one in `der` are of one key.
pub record IsForKey (lib : ProfileLibraries) (profile : ProvisionProfile) (der : Bytes)
    : Type 0 where
  pub spki : Bytes
  pub signer_key : HasPublicKey lib der spki
  pub contents : Bytes
  pub contents_are : lib.pem_contents profile.bundle_info.development_certificate ≡ ok contents
  pub profile_key : HasPublicKey lib contents spki

pub record IsAcceptable (lib : ProfileLibraries) (p7b : Bytes) (bundle udid : Text) (der : Bytes)
    (now : ℤ) (profile : ProvisionProfile) : Type 0 where
  pub info : lib.ContentInfo
  pub info_is : lib.content_info_from_der p7b ≡ ok info
  pub is_signed_data : lib.content_type info ≡ id_signed_data
  pub inner : Bytes
  pub inner_is : lib.content_to_der info ≡ ok inner
  pub signed : Signed lib
  pub signed_is : lib.signed_data_from_der inner ≡ ok signed
  pub content : lib.Any
  pub content_is : signed.econtent ≡ some content
  pub signed_content : IsSignedContent lib signed (lib.value content)
  pub parsed : lib.json_from_slice (lib.value content) ≡ ok profile
  pub since : IsAtMost profile.validity.not_before now
  pub until : IsAtMost now profile.validity.not_after
  pub same_bundle : profile.bundle_info.bundle_name ≡ bundle
  pub listed : Memᴰ udid profile.debug_info.device_ids
  pub for_key : IsForKey lib profile der
