-- ===== src/External.antt =====
-- What the signer uses of its dependencies: sha2, cms, der, p256, x509-cert, serde_json and zip. The
-- types are abstract, the functions are those that the code calls, and an error is its text.
use hap_resigner.Prelude.{ℕ, Bool, Option, List, Bytes, Text, Result}

pub data Compression : Type 0 where
  stored : Compression
  compressed : ℕ → Compression

-- `der::asn1::Any` in an attribute, and the attribute itself.
pub record Attribute (Any : Type 0) : Type 0 where
  pub oid : Text
  pub values : List Any

-- `EncapsulatedContentInfo` with the content type id-data.
pub record Encapsulated (Any : Type 0) : Type 0 where
  pub econtent : Option Any

-- One entry of an opened archive. `read limit` is `reader.take(limit).read_to_end(…)`.
pub record ZipFile (FileOptions : Type 0) : Type 0 where
  pub name : Text
  pub is_dir : Bool
  pub compression : Compression
  pub size : ℕ
  pub data_start : ℕ
  pub options : FileOptions
  pub read : ℕ → Result Text Bytes

-- `by_index(i)` may fail for each index.
pub record ZipArchive (FileOptions : Type 0) : Type 0 where
  pub comment : Text
  pub files : List (Result Text (ZipFile FileOptions))

pub record Libraries : Type 1 where
  pub sha256 : Bytes → Bytes
  pub SigningKey : Type 0
  pub Certificate : Type 0
  pub Any : Type 0
  pub SignerIdentifier : Type 0
  pub SignerInfoBuilder : Type 0
  pub SignedDataBuilder : Type 0
  pub certificate_from_der : Bytes → Result Text Certificate
  pub octet_string : Bytes → Result Text Any
  pub utf8_string : Text → Result Text Any
  pub set_insert : List Any → Any → Result Text (List Any)
  pub issuer_and_serial : Certificate → SignerIdentifier
  pub signing_time_attribute : Result Text (Attribute Any)
  pub signer_info_new :
      SigningKey
      → SignerIdentifier
      → Text
      → Encapsulated Any
      → Option Bytes
      → Result Text SignerInfoBuilder
  pub add_signed_attribute : SignerInfoBuilder → Attribute Any → Result Text SignerInfoBuilder
  pub signed_data_new : Encapsulated Any → SignedDataBuilder
  pub add_digest_algorithm : SignedDataBuilder → Text → Result Text SignedDataBuilder
  pub add_certificate : SignedDataBuilder → Certificate → Result Text SignedDataBuilder
  pub add_signer_info : SignedDataBuilder → SignerInfoBuilder → Result Text SignedDataBuilder
  pub build_to_der : SignedDataBuilder → Result Text Bytes
  -- The content of a provisioning profile, and its JSON.
  pub ContentInfo : Type 0
  pub SignedData : Type 0
  pub Value : Type 0
  pub content_info_from_der : Bytes → Result Text ContentInfo
  pub content_to_der : ContentInfo → Result Text Bytes
  pub signed_data_from_der : Bytes → Result Text SignedData
  pub econtent_value : SignedData → Option Bytes
  pub json_from_slice : Bytes → Result Text Value
  pub get_str : Value → Text → Option Text
  pub pointer_str : Value → Text → Option Text
  -- Archives.
  pub FileOptions : Type 0
  pub Writer : Type 0
  pub with_alignment : FileOptions → ℕ → FileOptions
  pub zip_open : Bytes → Result Text (ZipArchive FileOptions)
  pub writer_new : Writer
  pub set_comment : Writer → Text → Writer
  pub add_directory : Writer → Text → FileOptions → Result Text Writer
  pub start_file : Writer → Text → FileOptions → Result Text Writer
  pub write_all : Writer → Bytes → Result Text Writer
  pub finish : Writer → Result Text Bytes

-- `SigningIdentity` of src/materials/mod.rs.
pub record SigningIdentity (SigningKey : Type 0) : Type 0 where
  pub alias : Text
  pub signing_key : SigningKey
  pub certificates : List Bytes
