-- ===== src/Materials/Store.antt =====
-- src/materials/store.rs: the directory of keys, certificates, profiles and pending requests. The crates
-- atomic-write-file and serde_json are parameters.
pub mod Paths
pub mod Atomic
pub mod Saved
pub mod Listed
pub mod Invariant
use hap_resigner.Prelude.{
  ℕ, Bool, true, false, not, ◌&&◌, ◌||◌, Option, none, some, List, [], ◌∷◌, ◌++◌, if◌then◌else◌,
  ◌==◌, leb, bytes_eq, Result, ok, err, fail_if, ok_or, map_err, and_then, Bytes, Text, codes,
}
use hap_resigner.Effect.{Effect, pure, lift, map_error, attempt, ◌>>=◌, ◌>>◌}
use hap_resigner.Files.{
  IoError, not_found, io_failed, PathBuf, FileSystem, Io, read, is_file, exists, read_dir,
  next_entry, remove_file, create_dir_all, path_le,
}
use hap_resigner.Files.Names.{extension, with_extension, strip_suffix, file_name, display}

pub data StoreError : Type 0 where
  invalid_identifier : StoreError
  io : IoError → StoreError
  credential : Text → StoreError
  data_directory_unavailable : StoreError
  invalid_pending : Text → StoreError
  metadata : Text → StoreError

pub record KeyPairFiles : Type 0 where
  pub p12 : PathBuf
  pub certificate : PathBuf

pub record PendingKeyMaterial : Type 0 where
  pub identifier : Text
  pub alias : Text
  pub team_id : Text
  pub certificate_name : Text
  pub csr_pem : Text
  pub p12 : PathBuf

pub record PendingKeyRecord : Type 0 where
  pub identifier : Text
  pub alias : Text
  pub team_id : Text
  pub certificate_name : Text
  pub csr_pem : Text

pub record MaterialStore : Type 0 where
  pub root : PathBuf

-- `GeneratedKeyMaterial` of src/materials/generate.rs.
pub record GeneratedKeyMaterial : Type 0 where
  pub identifier : Text
  pub alias : Text
  pub p12 : Bytes
  pub csr_pem : Text

-- `write_all` gives back the file that it has written to.
pub record StoreLibraries : Type 1 where
  pub AtomicFile : Type 0
  pub open_atomic : PathBuf → Io AtomicFile
  pub write_all : AtomicFile → Bytes → Io AtomicFile
  pub commit : AtomicFile → Io (Unit {0})
  pub to_json : PendingKeyRecord → Result Text Bytes
  pub from_json : Bytes → Result Text PendingKeyRecord

abbrev pub StoreEffect : Type 0 → Type 0
StoreEffect A = Effect FileSystem StoreError A

abbrev pub between : ℕ → ℕ → ℕ → Bool
between low high byte = leb low byte && leb byte high

-- `is_ascii_alphanumeric`, or one of `.`, `_` and `-`.
unfoldable pub is_identifier_byte : ℕ → Bool
is_identifier_byte byte =
    between 48 57 byte
    || between 65 90 byte
    || between 97 122 byte
    || byte == 46
    || byte == 95
    || byte == 45

unfoldable pub all_identifier_bytes : Text → Bool
all_identifier_bytes [] = true
all_identifier_bytes (byte ∷ bytes) = is_identifier_byte byte && all_identifier_bytes bytes

abbrev pub is_empty {ℓ} : {A : Type ℓ} → List A → Bool
is_empty [] = true
is_empty (x ∷ xs) = false

unfoldable pub validate_identifier : Text → Result StoreError (Unit {0})
validate_identifier identifier =
    fail_if (is_empty identifier || not (all_identifier_bytes identifier)) invalid_identifier

unfoldable pub materials_dir : MaterialStore → PathBuf
materials_dir store = codes "materials" ∷ store.root

-- `validate_identifier(identifier)?`, then `Ok(path)`.
abbrev pub when_valid : Result StoreError (Unit {0}) → PathBuf → Result StoreError PathBuf
when_valid (ok u) path = ok path
when_valid (err e) path = err e

-- `self.materials_dir().join(name)` of a name that passes as an identifier.
abbrev pub named : MaterialStore → Text → Text → Result StoreError PathBuf
named store identifier name =
    when_valid (validate_identifier identifier) (name ∷ materials_dir store)

unfoldable pub p12_path : MaterialStore → Text → Result StoreError PathBuf
p12_path store identifier = named store identifier (identifier ++ codes ".p12")

unfoldable pub profile_path : MaterialStore → Text → Result StoreError PathBuf
profile_path store bundle_name =
    named store bundle_name (codes "profile_" ++ bundle_name ++ codes ".p7b")

unfoldable pub pending_path : MaterialStore → Text → Result StoreError PathBuf
pending_path store identifier = named store identifier (identifier ++ codes ".pending.json")

abbrev pub parent : PathBuf → Option PathBuf
parent [] = none
parent (name ∷ above) = some above

unfoldable pub insert_by {ℓ} : {A : Type ℓ} → (A → A → Bool) → A → List A → List A
insert_by le x [] = x ∷ []
insert_by le x (y ∷ ys) = let rest = insert_by le x ys in if le x y then x ∷ (y ∷ ys) else y ∷ rest

-- A stable sort, as `sort_by`.
unfoldable pub sort_by {ℓ} : {A : Type ℓ} → (A → A → Bool) → List A → List A
sort_by le [] = []
sort_by le (x ∷ xs) = insert_by le x (sort_by le xs)

abbrev pub prepend {ℓ} : {A : Type ℓ} → Option A → List A → List A
prepend none xs = xs
prepend (some x) xs = x ∷ xs

abbrev pub material_of : PendingKeyRecord → PathBuf → PendingKeyMaterial
material_of r p12 = record {
  identifier = r.identifier;
  alias = r.alias;
  team_id = r.team_id;
  certificate_name = r.certificate_name;
  csr_pem = r.csr_pem;
  p12 = p12;
}

abbrev pub with_certificate : PathBuf → Bool → Option KeyPairFiles
with_certificate path false = none
with_certificate path true =
    some (record { p12 = path; certificate = with_extension path (codes "cer") })

abbrev pub pair_entry_by : PathBuf → Option Text → StoreEffect (Option KeyPairFiles)
pair_entry_by path none = pure none
pair_entry_by path (some value) =
    if not (bytes_eq value (codes "p12"))
    then pure none
    else is_file (with_extension path (codes "cer")) >>= λ present.
        pure (with_certificate path present)

-- One turn of the loop of `list_key_pairs`.
unfoldable pub pair_entry : PathBuf → StoreEffect (Option KeyPairFiles)
pair_entry path = pair_entry_by path (extension path)

unfoldable pub pair_loop : List PathBuf → StoreEffect (List KeyPairFiles)
pair_loop [] = pure []
pair_loop (entry ∷ entries) = do
  path ← map_error io (next_entry entry)
  pair ← pair_entry path
  pairs ← pair_loop entries
  pure (prepend pair pairs)

unfoldable pub list_key_pairs : MaterialStore → StoreEffect (List KeyPairFiles)
list_key_pairs store = do
  present ← exists (materials_dir store)
  if not present then pure [] else do
    entries ← map_error io (read_dir (materials_dir store))
    pairs ← pair_loop entries
    pure (sort_by (λ (left right : KeyPairFiles). path_le left.p12 right.p12) pairs)

abbrev pub removed : Result IoError (Unit {0}) → Result StoreError (Unit {0})
removed (ok u) = ok tt
removed (err not_found) = ok tt
removed (err (io_failed text)) = err (io (io_failed text))

unfoldable pub clear_pending_key : MaterialStore → Text → StoreEffect (Unit {0})
clear_pending_key store identifier = do
  path ← lift (pending_path store identifier)
  result ← attempt (remove_file path)
  lift (removed result)

module _ (lib : StoreLibraries) where
  open lib use {open_atomic, write_all, commit, to_json, from_json}

  unfoldable pub atomic_write : PathBuf → Bytes → StoreEffect (Unit {0})
  atomic_write path contents = do
    above ← lift (ok_or (parent path) invalid_identifier)
    _ ← map_error io (create_dir_all above)
    file ← map_error io (open_atomic path)
    written ← map_error io (write_all file contents)
    map_error io (commit written)

  unfoldable pub save_profile : MaterialStore → Text → Bytes → StoreEffect PathBuf
  save_profile store bundle_name profile = do
    path ← lift (profile_path store bundle_name)
    _ ← atomic_write path profile
    pure path

  unfoldable pub save_key_pair : MaterialStore → Text → Bytes → Bytes → StoreEffect KeyPairFiles
  save_key_pair store identifier p12 certificate = do
    p12_file ← lift (p12_path store identifier)
    let certificate_file = (identifier ++ codes ".cer") ∷ materials_dir store
    _ ← atomic_write p12_file p12
    _ ← atomic_write certificate_file certificate
    pure (record { p12 = p12_file; certificate = certificate_file })

  abbrev pub record_of : GeneratedKeyMaterial → Text → Text → PendingKeyRecord
  record_of generated team_id certificate_name = record {
    identifier = generated.identifier;
    alias = generated.alias;
    team_id = team_id;
    certificate_name = certificate_name;
    csr_pem = generated.csr_pem;
  }

  unfoldable pub save_pending_key :
      MaterialStore → GeneratedKeyMaterial → Text → Text → StoreEffect PendingKeyMaterial
  save_pending_key store generated team_id certificate_name = do
    p12 ← lift (p12_path store generated.identifier)
    _ ← atomic_write p12 generated.p12
    path ← lift (pending_path store generated.identifier)
    json ← lift (map_err metadata (to_json (record_of generated team_id certificate_name)))
    _ ← atomic_write path json
    pure (material_of (record_of generated team_id certificate_name) p12)

  -- One turn of the loop of `list_pending_keys`, behind its two `continue`s.
  unfoldable pub pending_entry : PathBuf → PathBuf → Text → StoreEffect PendingKeyMaterial
  pending_entry materials path identifier = do
    _ ← lift (validate_identifier identifier)
    json ← map_error io (read path)
    found ← lift (map_err metadata (from_json json))
    _ ← lift (
        fail_if (not (bytes_eq found.identifier identifier))
          (invalid_pending (codes "identifier mismatch in " ++ display path)))
    let p12 = (identifier ++ codes ".p12") ∷ materials
    present ← is_file p12
    _ ← lift (fail_if (not present) (invalid_pending (codes "missing P12 for " ++ identifier)))
    pure (material_of found p12)

  abbrev pub pending_identifier : PathBuf → Option Text
  pending_identifier path =
      and_then (file_name path) (λ name. strip_suffix name (codes ".pending.json"))

  abbrev pub pending_turn_by :
      PathBuf → PathBuf → Option Text → StoreEffect (Option PendingKeyMaterial)
  pending_turn_by materials path none = pure none
  pending_turn_by materials path (some identifier) =
      pending_entry materials path identifier >>= λ material. pure (some material)

  unfoldable pub pending_turn : PathBuf → PathBuf → StoreEffect (Option PendingKeyMaterial)
  pending_turn materials path = pending_turn_by materials path (pending_identifier path)

  unfoldable pub pending_loop : PathBuf → List PathBuf → StoreEffect (List PendingKeyMaterial)
  pending_loop materials [] = pure []
  pending_loop materials (entry ∷ entries) = do
    path ← map_error io (next_entry entry)
    material ← pending_turn materials path
    pending ← pending_loop materials entries
    pure (prepend material pending)

  unfoldable pub list_pending_keys : MaterialStore → StoreEffect (List PendingKeyMaterial)
  list_pending_keys store = do
    present ← exists (materials_dir store)
    if not present then pure [] else do
      entries ← map_error io (read_dir (materials_dir store))
      pending ← pending_loop (materials_dir store) entries
      pure (sort_by (λ (left right : PendingKeyMaterial). path_le left.p12 right.p12) pending)
