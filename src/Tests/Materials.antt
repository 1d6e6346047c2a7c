-- ===== src/Tests/Materials.antt =====
-- A signing identity out of a chain of two certificates, of which the second is the signer's.
use hap_resigner.Prelude.{◌≡◌, refl, [], ◌∷◌, some, ok, Bytes, codes, bytes_eq}
use hap_resigner.External.{SigningIdentity}
use hap_resigner.Materials.{
  KeyLibraries, load_private_signing_key, mark, mark_chain, position, remove, ders, order_chain,
  load_signing_identity,
}
use hap_resigner.Materials.Identity.{IsIdentity, load_signing_identity-IsIdentity}

-- A key is its own public key, and a certificate is the key that it certifies.
abbrev pub keys : KeyLibraries
keys = record {
  KeyStore = Bytes;
  SigningKey = Bytes;
  Certificate = Bytes;
  from_pkcs12 = λ b password. ok b;
  private_key_chain = λ b. some (codes "debugKey", b);
  from_pkcs8_der = λ b. ok b;
  to_public_key_der = λ b. ok b;
  parse_many = λ b. ok (
      record { tag = codes "CERTIFICATE"; contents = 9 ∷ [] }
      ∷ (record { tag = codes "KEY"; contents = 8 ∷ [] }
          ∷ (record { tag = codes "CERTIFICATE"; contents = 7 ∷ [] } ∷ [])));
  certificate_from_der = λ b. ok b;
  subject_public_key_der = λ b. ok b;
}

abbrev pub loaded : SigningIdentity Bytes
loaded = record {
  alias = codes "debugKey";
  signing_key = 7 ∷ [];
  certificates = (7 ∷ []) ∷ ((9 ∷ []) ∷ []);
}

load-loaded : load_signing_identity keys (7 ∷ []) (codes "pw") [] ≡ ok loaded
unfolding load_signing_identity load_private_signing_key mark_chain mark order_chain position remove
    ders bytes_eq
load-loaded = refl

load_signing_identity-IsIdentity_example : IsIdentity keys [] loaded
load_signing_identity-IsIdentity_example =
    load_signing_identity-IsIdentity keys (7 ∷ []) (codes "pw") [] load-loaded
