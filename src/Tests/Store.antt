-- ===== src/Tests/Store.antt =====
-- A directory of materials through a failing and a working run of the store.
use hap_resigner.Prelude.{
  ℕ, zero, suc, Option, List, bytes_eq, ◌≡◌, refl, ap, none, some, [], ◌∷◌, ◌++◌, ok, Bytes, Text,
  codes,
}
use hap_resigner.Files.{
  PathBuf, file, FileSystem, IoError, io_failed, create_dir_all, path_eq, put, faulty, contents,
  lookup,
}
use hap_resigner.Files.Calls.{faulty-Triple}
use hap_resigner.Materials.Store.{
  StoreLibraries, MaterialStore, GeneratedKeyMaterial, save_pending_key, clear_pending_key,
  atomic_write, p12_path, pending_path, validate_identifier, all_identifier_bytes,
  is_identifier_byte, materials_dir,
}
use hap_resigner.Materials.Store.Paths.{pending_file, p12_file}
use hap_resigner.Materials.Store.Atomic.{IsAtomic}
use hap_resigner.Materials.Store.Invariant.{
  PendingHasKey, nothing_yet, and_then_step, saves_pending_key, clears_pending_key,
  StoreHistory-PendingHasKey,
}

-- An atomic file is its path and what was written to it; a record is its identifier.
abbrev pub store_libraries : StoreLibraries
store_libraries = record {
  AtomicFile = PathBuf × Bytes;
  open_atomic = λ path. faulty (λ n. (ok (path, []), n));
  write_all = λ f b. faulty (λ n. (ok (f.0, f.1 ++ b), n));
  commit = λ f. faulty (λ n. (ok tt, put f.0 (file f.1) n));
  to_json = λ r. ok r.identifier;
  from_json = λ b. ok (record {
    identifier = b;
    alias = [];
    team_id = codes "t";
    certificate_name = [];
    csr_pem = [];
  });
}

pub store_libraries-IsAtomic : IsAtomic store_libraries
store_libraries-IsAtomic = record {
  target = λ f. f.0;
  text = λ f. f.1;
  opened = λ path before.
      faulty-Triple (λ n. n ≡ before)
        (λ (f : PathBuf × Bytes) n. (n ≡ before) × (f.0 ≡ path) × (f.1 ≡ [])) _
        (λ n e. (e, refl, refl));
  wrote = λ f b before.
      faulty-Triple (λ n. n ≡ before)
        (λ (g : PathBuf × Bytes) n. (n ≡ before) × (g.0 ≡ f.0) × (g.1 ≡ f.1 ++ b)) _
        (λ n e. (e, refl, refl));
  committed = λ f before.
      faulty-Triple (λ n. n ≡ before) (λ _ n. n ≡ put f.0 (file f.1) before) _
        (λ n e. ap (put f.0 (file f.1)) e);
}

abbrev pub material_store : MaterialStore
material_store = record { root = codes "data" ∷ [] }

abbrev pub key : Text → GeneratedKeyMaterial
key id = record { identifier = id; alias = codes "debugKey"; p12 = 7 ∷ []; csr_pem = codes "csr" }

abbrev after : ℕ → List (Option IoError) → List (Option IoError)
after zero later = later
after (suc n) later = none ∷ after n later

-- The second save fails behind the write of its key.
abbrev empty_disk : FileSystem
empty_disk = record { nodes = []; faults = after 15 (some (io_failed (codes "full")) ∷ []) }

abbrev saved_first : FileSystem
saved_first =
    (save_pending_key store_libraries material_store (key (codes "a")) (codes "t") [] empty_disk).1

abbrev saved_second : FileSystem
saved_second =
    (save_pending_key store_libraries material_store (key (codes "b")) (codes "t") [] saved_first).1

pub nothing_pending : PendingHasKey material_store []
unfolding PendingHasKey contents lookup
nothing_pending id (b, e) = cc (e)

first-saved :
    (contents (pending_file material_store (codes "a")) saved_second.nodes ≡ some (codes "a"))
    × (contents (p12_file material_store (codes "b")) saved_second.nodes ≡ some (7 ∷ []))
    × (contents (pending_file material_store (codes "b")) saved_second.nodes ≡ none)
unfolding save_pending_key atomic_write p12_path pending_path validate_identifier
    all_identifier_bytes is_identifier_byte create_dir_all faulty put lookup contents path_eq
    bytes_eq materials_dir
first-saved = (refl, refl, refl)

StoreHistory-PendingHasKey_example :
    PendingHasKey material_store (clear_pending_key material_store (codes "a") saved_second).1.nodes
StoreHistory-PendingHasKey_example =
    StoreHistory-PendingHasKey store_libraries store_libraries-IsAtomic material_store
      (and_then_step
        (and_then_step
          (and_then_step nothing_yet
            (saves_pending_key empty_disk (key (codes "a")) (codes "t") []))
          (saves_pending_key saved_first (key (codes "b")) (codes "t") []))
        (clears_pending_key saved_second (codes "a")))
      nothing_pending
