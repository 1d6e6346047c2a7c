-- ===== src/Materials/Store/Saved.antt =====
-- What each saving operation leaves behind.
use hap_resigner.Prelude.{
  ◌≡◌, sym, ap, subst, ◌∙◌, some, Result, ok, err, map_err-eq-ok, Bytes, Text,
}
use hap_resigner.Effect.{
  Triple, Post, bind-Triple, pure-Triple, weaken-Triple, attempt-Triple, known-Triple,
}
use hap_resigner.Files.{
  IoError, not_found, io_failed, PathBuf, file, Nodes, FileSystem, put, delete, contents,
}
use hap_resigner.Files.Lookup.{contents-put_same, contents-put_other}
use hap_resigner.Files.Calls.{At, IsOfFiles, remove_file-Triple}
use hap_resigner.Materials.Store.{
  StoreError, metadata, MaterialStore, GeneratedKeyMaterial, StoreLibraries, removed,
  clear_pending_key, atomic_write, save_profile, save_key_pair, save_pending_key, record_of,
  material_of,
}
use hap_resigner.Materials.Store.Paths.{
  p12_file, cer_file, pending_file, profile_file, p12_path-named, profile_path-named,
  pending_path-named, p12-not_cer, pending-not_p12,
}
use hap_resigner.Materials.Store.Atomic.{IsAtomic, atomic_write-Triple}

-- What is said of one more file.
pub IsOfFiles-with :
    (P : Nodes → Type 0) (path : PathBuf) (b : Bytes)
    → IsOfFiles P
    → IsOfFiles (λ n. P n × (contents path n ≡ some b))
IsOfFiles-with P path b h n n' same (p, e) = (h n n' same p, sym (same path) ∙ e)

module _ (lib : StoreLibraries) (atomic : IsAtomic lib) (store : MaterialStore) (P : Nodes → Type 0)
    (of_files : IsOfFiles P) where
  write :
      (path target : PathBuf) (b : Bytes)
      → path ≡ target
      → ((n : Nodes) → P n → P (put target (file b) n))
      → Triple
          (At P)
          (atomic_write lib path b)
          (λ _ fs. P fs.nodes × (contents target fs.nodes ≡ some b))
          (At P)
  write path target b e kept =
      subst
        (λ t.
          Triple (At P) (atomic_write lib t b)
            (λ _ fs. P fs.nodes × (contents target fs.nodes ≡ some b)) (At P))
        (sym e)
        (atomic_write-Triple lib atomic P (λ n. P n × (contents target n ≡ some b)) of_files target
          b (λ n p. (kept n p, contents-put_same target b n)))

  pub save_profile-Triple :
      (bundle : Text) (profile : Bytes)
      → ((n : Nodes) → P n → P (put (profile_file store bundle) (file profile) n))
      → Triple
          (At P)
          (save_profile lib store bundle profile)
          (λ path fs.
            P fs.nodes
            × (path ≡ profile_file store bundle)
            × (contents (profile_file store bundle) fs.nodes ≡ some profile))
          (At P)
  unfolding save_profile
  save_profile-Triple bundle profile kept =
      known-Triple (λ w p. p)
        (λ path e.
          bind-Triple
            (write path (profile_file store bundle) profile (profile_path-named store bundle e)
              kept)
            (λ _. pure-Triple path (λ w k. (k.0, profile_path-named store bundle e, k.1))))

  -- The pair is on disk, with the key in a `.p12` file and the certificate beside it.
  pub save_key_pair-Triple :
      (id : Text) (p12 certificate : Bytes)
      → ((n : Nodes) → P n → P (put (p12_file store id) (file p12) n))
      → ((n : Nodes) → P n → P (put (cer_file store id) (file certificate) n))
      → Triple
          (At P)
          (save_key_pair lib store id p12 certificate)
          (λ pair fs.
            P fs.nodes
            × (pair ≡ record { p12 = p12_file store id; certificate = cer_file store id })
            × (contents (p12_file store id) fs.nodes ≡ some p12)
            × (contents (cer_file store id) fs.nodes ≡ some certificate))
          (At P)
  unfolding save_key_pair
  save_key_pair-Triple id p12 certificate kept_p12 kept_cer =
      known-Triple (λ w p. p)
        (λ path e.
          bind-Triple (write path (p12_file store id) p12 (p12_path-named store id e) kept_p12)
            (λ _.
              bind-Triple
                (weaken-Triple
                  (atomic_write-Triple lib atomic
                    (λ n. P n × (contents (p12_file store id) n ≡ some p12))
                    (λ n.
                      (P n × (contents (p12_file store id) n ≡ some p12))
                      × (contents (cer_file store id) n ≡ some certificate))
                    (IsOfFiles-with P (p12_file store id) p12 of_files) (cer_file store id)
                    certificate
                    (λ n k. (
                      (
                        kept_cer n k.0,
                        contents-put_other (p12_file store id) (cer_file store id)
                              (file certificate) n (p12-not_cer store id id)
                            ∙ k.1,
                      ),
                      contents-put_same (cer_file store id) certificate n,
                    )))
                  (λ w k. k) (λ a w k. k) (λ w k. k.0))
                (λ _. pure-Triple _ (λ w k. (
                  k.0.0,
                  ap (λ t. record { p12 = t; certificate = cer_file store id })
                      (p12_path-named store id e),
                  k.0.1,
                  k.1,
                )))))

  -- The key is on disk before its pending record.
  pub save_pending_key-Triple :
      (g : GeneratedKeyMaterial) (team_id certificate_name : Text)
      → ((n : Nodes) → P n → P (put (p12_file store g.identifier) (file g.p12) n))
      → ((json : Bytes) (n : Nodes)
          → P n
          → contents (p12_file store g.identifier) n ≡ some g.p12
          → P (put (pending_file store g.identifier) (file json) n))
      → Triple
          (At P)
          (save_pending_key lib store g team_id certificate_name)
          (λ pending fs.
            P fs.nodes
            × (pending
                ≡ material_of
                    (record_of lib g team_id certificate_name)
                    (p12_file store g.identifier))
            × (contents (p12_file store g.identifier) fs.nodes ≡ some g.p12)
            × ((json : Bytes) × (lib.to_json (record_of lib g team_id certificate_name) ≡ ok json)
                × (contents (pending_file store g.identifier) fs.nodes ≡ some json)))
          (At P)
  unfolding save_pending_key
  save_pending_key-Triple g team_id certificate_name kept_p12 kept_pending =
      known-Triple (λ w p. p)
        (λ path e.
          bind-Triple
            (write path (p12_file store g.identifier) g.p12 (p12_path-named store g.identifier e)
              kept_p12)
            (λ _.
              known-Triple (λ w p. p.0)
                (λ pending d.
                  known-Triple (λ w p. p.0)
                    (λ json j.
                      bind-Triple
                        (weaken-Triple
                          (atomic_write-Triple lib atomic
                            (λ n. P n × (contents (p12_file store g.identifier) n ≡ some g.p12))
                            (λ n.
                              (P n × (contents (p12_file store g.identifier) n ≡ some g.p12))
                              × (contents (pending_file store g.identifier) n ≡ some json))
                            (IsOfFiles-with P (p12_file store g.identifier) g.p12 of_files) pending
                            json
                            (λ n k.
                              subst
                                (λ t.
                                  (P (put t (file json) n)
                                    × (contents (p12_file store g.identifier) (put t (file json) n)
                                        ≡ some g.p12))
                                  × (contents (pending_file store g.identifier)
                                        (put t (file json) n)
                                      ≡ some json))
                                (sym (pending_path-named store g.identifier d))
                                (
                                  (
                                    kept_pending json n k.0 k.1,
                                    contents-put_other (p12_file store g.identifier)
                                          (pending_file store g.identifier) (file json) n
                                          (λ q.
                                            pending-not_p12 store g.identifier g.identifier (sym q))
                                        ∙ k.1,
                                  ),
                                  contents-put_same (pending_file store g.identifier) json n,
                                )))
                          (λ w k. k) (λ a w k. k) (λ w k. k.0))
                        (λ _. pure-Triple _ (λ w k. (
                          k.0.0,
                          ap (material_of (record_of lib g team_id certificate_name))
                              (p12_path-named store g.identifier e),
                          k.0.1,
                          (json, map_err-eq-ok metadata _ j, k.1),
                        )))))))

-- The pending file is all that a call can remove, if it removes anything.
pub clear_pending_key-Triple :
    (store : MaterialStore) (P : Nodes → Type 0) (id : Text)
    → ((n : Nodes) → P n → P (delete (pending_file store id) n))
    → Triple (At P) (clear_pending_key store id) (λ _ fs. P fs.nodes) (At P)
unfolding clear_pending_key
clear_pending_key-Triple store P id kept =
    known-Triple (λ w p. p)
      (λ path e.
        bind-Triple
          (attempt-Triple {S = At P} (
            remove_file-Triple P P path (λ n p.
              subst (λ t. P (delete t n)) (sym (pending_path-named store id e)) (kept n p))))
          (λ result. record { run = λ w k. cleared result w k }))
  where
    cleared :
        (result : Result IoError (Unit {0})) (w : FileSystem)
        → Post (λ _ fs. P fs.nodes) (At P) (result, w)
        → Post {E = StoreError} (λ _ (fs : FileSystem). P fs.nodes) (At P) (removed result, w)
    cleared (ok u) w k = k
    cleared (err not_found) w k = k
    cleared (err (io_failed text)) w k = k
