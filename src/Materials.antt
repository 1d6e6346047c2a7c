-- ===== src/Materials.antt =====
-- src/materials/mod.rs: the signing identity out of a PKCS#12 file and a PEM chain. The crates
-- p12-keystore, pem, p256 and x509-cert are parameters.
pub mod Leaf
pub mod Profile
pub mod Store
pub mod Manager
pub mod Remote
pub mod Identity
use hap_resigner.Prelude.{
  ℕ, zero, suc, Bool, true, false, not, Option, none, some, List, [], ◌∷◌, if◌then◌else◌, bytes_eq,
  Result, ok, err, ◌>>=◌, ◌>>◌, fail_if, ok_or, map_err, Bytes, Text, codes,
}
use mathlib.Core.Option
use hap_resigner.External.{SigningIdentity}

pub data MaterialError : Type 0 where
  pkcs12 : Text → MaterialError
  missing_private_key : MaterialError
  private_key : Text → MaterialError
  certificate : Text → MaterialError
  matching_certificate_not_found : MaterialError

-- `pem::Pem`.
pub record PemBlock : Type 0 where
  pub tag : Text
  pub contents : Bytes

pub record KeyLibraries : Type 1 where
  pub KeyStore : Type 0
  pub SigningKey : Type 0
  pub Certificate : Type 0
  pub from_pkcs12 : Bytes → Text → Result Text KeyStore
  pub private_key_chain : KeyStore → Option (Text × Bytes)
  pub from_pkcs8_der : Bytes → Result Text SigningKey
  pub to_public_key_der : SigningKey → Result Text Bytes
  pub parse_many : Bytes → Result Text (List PemBlock)
  pub certificate_from_der : Bytes → Result Text Certificate
  pub subject_public_key_der : Certificate → Result Text Bytes

-- A certificate of the chain, with whether it has the signer's key.
abbrev pub Marked : Type 0
Marked = Bool × Bytes

-- `iter().position(|(matches, _)| *matches)`.
unfoldable pub position : List Marked → Option ℕ
position [] = none
position ((true, der) ∷ ms) = some 0
position ((false, der) ∷ ms) = Option.map suc (position ms)

-- `Vec::remove`, which panics behind the end.
unfoldable pub remove : ℕ → List Marked → Option (Marked × List Marked)
remove index [] = none
remove zero (m ∷ ms) = some (m, ms)
remove (suc index) (m ∷ ms) =
    Option.map (λ (x : Marked × List Marked). (x.0, m ∷ x.1)) (remove index ms)

unfoldable pub ders : List Marked → List Bytes
ders [] = []
ders ((matches, der) ∷ ms) = der ∷ ders ms

-- The signer's certificate first, and the others behind it in their order. At a position `remove` does
-- not panic, so its `none` may stand for any error.
unfoldable pub order_chain : List Marked → Result MaterialError (List Bytes)
order_chain certificates = do
  signer_index ← ok_or (position certificates) matching_certificate_not_found
  ((matches, signer_certificate), others) ←
      ok_or (remove signer_index certificates) matching_certificate_not_found
  ok (signer_certificate ∷ ders others)

module _ (lib : KeyLibraries) where
  open lib use {
    SigningKey, from_pkcs12, private_key_chain, from_pkcs8_der, to_public_key_der, parse_many,
    certificate_from_der, subject_public_key_der,
  }

  unfoldable pub load_private_signing_key : Bytes → Text → Result MaterialError (Text × SigningKey)
  load_private_signing_key p12_data password = do
    key_store ← map_err MaterialError.pkcs12 (from_pkcs12 p12_data password)
    (alias, key_der) ← ok_or (private_key_chain key_store) missing_private_key
    signing_key ← map_err MaterialError.private_key (from_pkcs8_der key_der)
    ok (alias, signing_key)

  unfoldable pub mark : Bytes → Bytes → Result MaterialError Marked
  mark signer_spki der = do
    parsed ← map_err MaterialError.certificate (certificate_from_der der)
    spki ← map_err MaterialError.certificate (subject_public_key_der parsed)
    ok (bytes_eq spki signer_spki, der)

  -- The loop over the PEM blocks.
  unfoldable pub mark_chain : Bytes → List PemBlock → Result MaterialError (List Marked)
  mark_chain signer_spki [] = ok []
  mark_chain signer_spki (block ∷ blocks) =
      let rest = mark_chain signer_spki blocks in
      if not (bytes_eq block.tag (codes "CERTIFICATE"))
      then rest
      else do marked ← mark signer_spki block.contents; later ← rest; ok (marked ∷ later)

  unfoldable pub load_signing_identity :
      Bytes → Text → Bytes → Result MaterialError (SigningIdentity SigningKey)
  load_signing_identity p12_data password certificate_chain_pem = do
    (alias, signing_key) ← load_private_signing_key p12_data password
    signer_spki ← map_err MaterialError.private_key (to_public_key_der signing_key)
    pem_blocks ← map_err MaterialError.certificate (parse_many certificate_chain_pem)
    certificates ← mark_chain signer_spki pem_blocks
    ordered ← order_chain certificates
    ok (record { alias = alias; signing_key = signing_key; certificates = ordered })

  unfoldable pub validate_p12_private_key : Bytes → Text → Result MaterialError (Unit {0})
  validate_p12_private_key p12_data password = do
    key ← load_private_signing_key p12_data password
    ok tt
