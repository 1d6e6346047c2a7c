-- ===== src/Materials/Manager.antt =====
-- src/materials/manager.rs: the search for local materials and the preparation of new ones. The state
-- is the file system and, behind it, what the AGC client and the callbacks act on.
pub mod Steps
pub mod Usable
pub mod Passwords
pub mod Found
pub mod Chosen
pub mod Obtained
pub mod Prepared
use hap_resigner.Prelude.{
  ok_option, or_else, ℕ, suc, ℤ, Bool, true, false, not, ◌&&◌, ◌||◌, Option, none, some, List, [],
  ◌∷◌, ◌++◌, if◌then◌else◌, leb, bytes_eq, Result, ok, err, fail_if, ok_or, map_err, is_some,
  is_none, length, Bytes, Text, codes, utf8,
}
use mathlib.Core.Option
use hap_resigner.Effect.{Effect, pure, lift, map_error, attempt, on_first, on_second, ◌>>=◌, ◌>>◌}
use hap_resigner.Files.{IoError, PathBuf, FileSystem, path_eq, read, is_file}
use hap_resigner.Files.Names.{file_stem}
use hap_resigner.External.{SigningIdentity}
use hap_resigner.Agc.{DeviceRecord, CertificateRecord, ProvisionRecord, certificate_management_url}
use hap_resigner.Materials.{KeyLibraries, load_signing_identity, validate_p12_private_key}
use hap_resigner.Materials.Profile.{
  ProfileError, malformed, cms_integrity, expired, bundle_mismatch, device_mismatch,
  certificate_mismatch, ProvisionProfile, ProfileLibraries, validate_profile, first,
}
use hap_resigner.Materials.Store.{
  StoreError, KeyPairFiles, PendingKeyMaterial, GeneratedKeyMaterial, MaterialStore, StoreLibraries,
  is_empty, p12_path, profile_path, list_key_pairs, list_pending_keys, clear_pending_key,
  save_profile, save_key_pair, save_pending_key,
}

abbrev pub agc_debug_certificate_limit : ℕ
agc_debug_certificate_limit = 3

pub data ManagerError : Type 0 where
  store_failed : StoreError → ManagerError
  io_failed : IoError → ManagerError
  remote : Text → ManagerError
  invalid_material : Text → ManagerError
  certificate_limit : ℕ → Text → ManagerError

pub record PreparedMaterials (SigningKey : Type 0) : Type 0 where
  pub pair : KeyPairFiles
  pub profile_path : PathBuf
  pub profile : Bytes
  pub password : Text
  pub identity : SigningIdentity SigningKey
  pub provision : ProvisionProfile

pub record PrepareRequest : Type 0 where
  pub bundle_name : Text
  pub udid : Text
  pub now_unix : ℤ
  pub team_id : Text
  pub new_password : Text
  pub device_name : Text
  pub device_type : Text
  pub certificate_name : Text
  pub provision_name : Text

-- `MaterialApi` and the closures, over a state of their own.
pub record ManagerLibraries : Type 1 where
  pub keys : KeyLibraries
  pub profiles : ProfileLibraries
  pub files : StoreLibraries
  pub Outside : Type 0
  pub decimal : ℕ → Text
  pub list_certificates : Effect Outside ManagerError (List CertificateRecord)
  pub upload_csr : Text → Text → Effect Outside ManagerError CertificateRecord
  pub register_device : Text → Text → Text → Effect Outside ManagerError DeviceRecord
  pub create_test_provision :
      List Text → List Text → Text → Text → Effect Outside ManagerError ProvisionRecord
  pub download_object : Text → Effect Outside ManagerError Bytes
  pub password_candidates : PathBuf → Outside → List Text × Outside
  pub pending_password_candidates : PathBuf → Effect Outside ManagerError (List Text)
  pub save_password : PathBuf → Text → Effect Outside ManagerError (Unit {0})
  pub generate : Text → Text → Effect Outside ManagerError GeneratedKeyMaterial

-- `error.to_string()` of a profile error.
unfoldable pub profile_error_text : ProfileError → Text
profile_error_text (malformed text) = codes "profile CMS is malformed: " ++ text
profile_error_text cms_integrity = codes "profile CMS digest or signature is invalid"
profile_error_text expired = codes "profile is outside its validity period"
profile_error_text bundle_mismatch = codes "profile bundle name does not match"
profile_error_text device_mismatch = codes "profile does not include the connected device"
profile_error_text certificate_mismatch =
    codes "profile development certificate does not match the signing key"

pub record Candidate : Type 0 where
  pub identifier : Text
  pub path : PathBuf
  pub p12 : Bytes
  pub passwords : List Text

pub record ValidatedPending : Type 0 where
  pub pending : PendingKeyMaterial
  pub p12 : Bytes
  pub password : Text

-- `filter(|pending| pending.team_id == team_id)`.
unfoldable pub of_team : Text → List PendingKeyMaterial → List PendingKeyMaterial
of_team team_id [] = []
of_team team_id (p ∷ ps) =
    let rest = of_team team_id ps in if bytes_eq p.team_id team_id then p ∷ rest else rest

-- The pending key takes the place of its own candidate, or goes behind them all.
unfoldable pub add_pending : ValidatedPending → List Candidate → List Candidate
add_pending v [] =
    record {
      identifier = v.pending.identifier;
      path = v.pending.p12;
      p12 = v.p12;
      passwords = v.password ∷ [];
    }
    ∷ []
add_pending v (c ∷ cs) =
    let rest = add_pending v cs in
    if path_eq c.path v.pending.p12
    then record {
      identifier = c.identifier;
      path = c.path;
      p12 = c.p12;
      passwords = v.password ∷ [];
    }
      ∷ cs
    else c ∷ rest

abbrev pub with_pending : Option ValidatedPending → List Candidate → List Candidate
with_pending none cs = cs
with_pending (some v) cs = add_pending v cs

unfoldable pub count_debug : List CertificateRecord → ℕ
count_debug [] = 0
count_debug (c ∷ cs) =
    let rest = count_debug cs in if bytes_eq c.cert_type (codes "1") then suc rest else rest

-- The guard of the loop over the certificates.
unfoldable pub is_skipped : CertificateRecord → Bool
is_skipped c =
    (not (is_empty c.cert_type) && not (bytes_eq c.cert_type (codes "1")))
    || is_empty c.cert_url
    || is_none c.id

module _ (lib : ManagerLibraries) where
  open lib use {
    keys, profiles, files, Outside, list_certificates, upload_csr, register_device,
    create_test_provision, download_object, password_candidates, pending_password_candidates,
    save_password, generate,
  }

  abbrev pub Managed : Type 0 → Type 0
  Managed A = Effect (FileSystem × Outside) ManagerError A

  abbrev pub Identity : Type 0
  Identity = SigningIdentity keys.SigningKey

  abbrev pub Materials : Type 0
  Materials = PreparedMaterials keys.SigningKey

  abbrev pub on_store : {A : Type 0} → Effect FileSystem StoreError A → Managed A
  on_store m = map_error store_failed (on_first m)

  abbrev pub on_io : {A : Type 0} → Effect FileSystem IoError A → Managed A
  on_io m = map_error ManagerError.io_failed (on_first m)

  abbrev pub candidates_of : PathBuf → Effect Outside ManagerError (List Text)
  candidates_of path o = (ok (password_candidates path o).0, (password_candidates path o).1)

  abbrev pub ask_passwords : PathBuf → Managed (List Text)
  ask_passwords path = on_second (candidates_of path)

  pub record Unlocked : Type 0 where
    pub password : Text
    pub identity : Identity
    pub provision : ProvisionProfile

  abbrev pub validated_with :
      Bytes → Text → Text → ℤ → Identity → Option Bytes → Option ProvisionProfile
  validated_with profile bundle_name udid now identity none = none
  validated_with profile bundle_name udid now identity (some signer_certificate) =
      ok_option (validate_profile profiles profile bundle_name udid signer_certificate now)

  abbrev pub unlocked_with : Bytes → Text → Text → ℤ → Text → Option Identity → Option Unlocked
  unlocked_with profile bundle_name udid now password none = none
  unlocked_with profile bundle_name udid now password (some identity) =
      Option.map
        (λ provision. record { password = password; identity = identity; provision = provision })
        (validated_with profile bundle_name udid now identity (first identity.certificates))

  -- The loop over the passwords of `find_local_materials`.
  unfoldable pub try_passwords :
      Bytes → Text → Text → ℤ → Bytes → Bytes → List Text → Option Unlocked
  try_passwords profile bundle_name udid now p12 certificate [] = none
  try_passwords profile bundle_name udid now p12 certificate (password ∷ passwords) =
      or_else
        (unlocked_with profile bundle_name udid now password
          (ok_option (load_signing_identity keys p12 password certificate)))
        (try_passwords profile bundle_name udid now p12 certificate passwords)

  abbrev pub materials_of : KeyPairFiles → PathBuf → Bytes → Option Unlocked → Option Materials
  materials_of pair path profile none = none
  materials_of pair path profile (some u) = some (record {
    pair = pair;
    profile_path = path;
    profile = profile;
    password = u.password;
    identity = u.identity;
    provision = u.provision;
  })

  abbrev pub find_with_certificate :
      PathBuf
      → Bytes
      → Text
      → Text
      → ℤ
      → KeyPairFiles
      → Bytes
      → Option Bytes
      → Managed (Option Materials)
  find_with_certificate path profile bundle_name udid now pair p12 none = pure none
  find_with_certificate path profile bundle_name udid now pair p12 (some certificate) = do
    passwords ← ask_passwords pair.p12
    pure (
        materials_of pair path profile
          (try_passwords profile bundle_name udid now p12 certificate passwords))

  abbrev pub find_with_key :
      PathBuf → Bytes → Text → Text → ℤ → KeyPairFiles → Option Bytes → Managed (Option Materials)
  find_with_key path profile bundle_name udid now pair none = pure none
  find_with_key path profile bundle_name udid now pair (some p12) = do
    certificate ← attempt (on_first (read pair.certificate))
    find_with_certificate path profile bundle_name udid now pair p12 (ok_option certificate)

  -- One turn of the loop over the pairs.
  unfoldable pub find_pair :
      PathBuf → Bytes → Text → Text → ℤ → KeyPairFiles → Managed (Option Materials)
  find_pair path profile bundle_name udid now pair = do
    p12 ← attempt (on_first (read pair.p12))
    find_with_key path profile bundle_name udid now pair (ok_option p12)

  abbrev pub or_continue :
      Option Materials → Managed (Option Materials) → Managed (Option Materials)
  or_continue none rest = rest
  or_continue (some m) rest = pure (some m)

  unfoldable pub find_loop :
      PathBuf → Bytes → Text → Text → ℤ → List KeyPairFiles → Managed (Option Materials)
  find_loop path profile bundle_name udid now [] = pure none
  find_loop path profile bundle_name udid now (pair ∷ pairs) = do
    found ← find_pair path profile bundle_name udid now pair
    or_continue found (find_loop path profile bundle_name udid now pairs)

  unfoldable pub find_local_materials : MaterialStore → Text → Text → ℤ → Managed (Option Materials)
  find_local_materials store bundle_name udid now = do
    path ← on_store (lift (profile_path store bundle_name))
    present ← on_first (is_file path)
    if not present then pure none else do
      profile ← on_io (read path)
      pairs ← on_store (list_key_pairs store)
      find_loop path profile bundle_name udid now pairs
