-- ===== src/Materials/Manager/Prepared.antt =====
-- The materials that `prepare_materials_with_api` returns, and what it leaves on disk on every path.
use hap_resigner.Prelude.{
  ◌≡◌, refl, ap, ◌∙◌, Option, some, none, [], ◌∷◌, ltb, leb, length, ◌&&◌, is_none, ok, fail_if,
  ok_or, ok_or-eq-ok, map_err, map_err-eq-ok, Bytes, Text,
}
use hap_resigner.Effect.{
  Triple, bind-Triple, pure-Triple, weaken-Triple, lift-Triple, fact-Triple, each-Triple, Triple-ok,
  Triple-kept,
}
use hap_resigner.Files.{PathBuf, Nodes, FileSystem, contents}
use hap_resigner.Materials.Profile.{ProvisionProfile, validate_profile, first}
use hap_resigner.Materials.Profile.Integrity.{first-eq-some}
use hap_resigner.Materials.Profile.Decided.{validate_profile_iff}
use hap_resigner.Materials.Store.{KeyPairFiles, MaterialStore}
use hap_resigner.Materials.Store.Paths.{profile_file}
use hap_resigner.Materials.Store.Atomic.{IsAtomic}
use hap_resigner.Materials.Store.Saved.{save_profile-Triple}
use hap_resigner.Materials.Store.Listed.{list_key_pairs-KeepsAt, list_pending_keys-KeepsAt}
use hap_resigner.Materials.Store.Invariant.{PendingHasKey}
use hap_resigner.Materials.Manager.{
  invalid_material, PrepareRequest, ManagerLibraries, Managed, Materials, profile_error_text,
  agc_debug_certificate_limit, count_debug, of_team, with_pending,
}
use hap_resigner.Materials.Manager.Usable.{IsUsable, AtFiles, on_store-Triple, outside-Triple}
use hap_resigner.Materials.Manager.Found.{find_local_materials-Triple}
use hap_resigner.Materials.Manager.Steps.{
  Obtained, provision_with, prepare_new, or_prepare, prepare_materials_with_api,
}
use hap_resigner.Materials.Manager.Chosen.{
  lift-Keeps, validate_pending-Keeps, candidate_loop-Keeps, select_loop-Selects,
}
use hap_resigner.Materials.Manager.Obtained.{
  HasPair, HasPair-IsOfFiles, HasPair-put_profile, IsObtained, obtain-Obtains,
}

module _ (lib : ManagerLibraries) (atomic : IsAtomic lib.files) (store : MaterialStore) where
  abbrev Prepares : PrepareRequest → (Nodes → Type 0) → Managed lib (Materials lib) → Type 0
  Prepares request P m =
      Triple (AtFiles lib P) m
        (λ m w.
          PendingHasKey store w.0.nodes
          × IsUsable lib store request.bundle_name request.udid request.now_unix w.0.nodes m)
        (AtFiles lib (PendingHasKey store))

  module _ (request : PrepareRequest) (o : Obtained lib) (id : Text) (p12 chain : Bytes)
      (obtained : IsObtained lib store o id p12 chain) where
    IsSaved : PathBuf → Bytes → Nodes → Type 0
    IsSaved path profile n =
        HasPair store id p12 chain n
        × (path ≡ profile_file store request.bundle_name)
        × (contents (profile_file store request.bundle_name) n ≡ some profile)

    saved-IsUsable :
        (path : PathBuf) (profile leaf : Bytes) (checked : ProvisionProfile) (n : Nodes)
        → first o.identity.certificates ≡ some leaf
        → validate_profile lib.profiles profile request.bundle_name request.udid leaf
            request.now_unix
          ≡ ok checked
        → IsSaved path profile n
        → IsUsable lib store request.bundle_name request.udid request.now_unix n (record {
          pair = o.pair;
          profile_path = path;
          profile = profile;
          password = o.password;
          identity = o.identity;
          provision = checked;
        })
    unfolding IsSaved
    saved-IsUsable path profile leaf checked n head valid (((h, p), c), named, there) =
        let (others, shape) = first-eq-some o.identity.certificates head in
        record {
          p12 = p12;
          p12_is = ap (λ (k : KeyPairFiles). contents k.p12 n) obtained.pair_is ∙ p;
          chain = chain;
          chain_is = ap (λ (k : KeyPairFiles). contents k.certificate n) obtained.pair_is ∙ c;
          loads = obtained.loads;
          profile_path_is = named;
          profile_is = ap (λ t. contents t n) named ∙ there;
          leaf = leaf;
          others = others;
          certificates = shape;
          acceptable = (validate_profile_iff lib.profiles profile _ _ leaf _ checked).0 valid;
        }

    provision_with-Prepares :
        Prepares request (HasPair store id p12 chain) (provision_with lib store request o)
    unfolding provision_with IsSaved
    provision_with-Prepares =
        weaken-Triple
          (bind-Triple (lift-Keeps lib P (ok_or o.certificate.id _)) (λ certificate_id.
            bind-Triple
              (outside-Triple lib P
                (lib.register_device request.udid request.device_type request.device_name))
              (λ device. bind-Triple (lift-Keeps lib P (ok_or device.id _)) (λ device_id.
                bind-Triple
                  (outside-Triple lib P (
                    lib.create_test_provision (certificate_id ∷ []) (device_id ∷ [])
                      request.bundle_name request.provision_name))
                  (λ provision.
                    bind-Triple (outside-Triple lib P (lib.download_object provision.url))
                      (λ profile.
                        bind-Triple
                          (on_store-Triple lib P
                            (λ path n.
                              P n
                              × (path ≡ profile_file store request.bundle_name)
                              × (contents (profile_file store request.bundle_name) n
                                  ≡ some profile))
                            (save_profile-Triple lib.files atomic store P
                              (HasPair-IsOfFiles store id p12 chain) request.bundle_name profile
                              (HasPair-put_profile store id p12 chain request.bundle_name profile)))
                          (λ path.
                            bind-Triple
                              (weaken-Triple
                                (lift-Triple {P = λ w. IsSaved path profile w.0.nodes}
                                  (ok_or (first o.identity.certificates) _))
                                (λ w k. k) (λ a w k. k) (λ w k. k.0))
                              (λ leaf. fact-Triple (λ head.
                                bind-Triple
                                  (weaken-Triple
                                    (lift-Triple {P = λ w. IsSaved path profile w.0.nodes} (
                                      map_err (λ e. invalid_material (profile_error_text e))
                                        (validate_profile lib.profiles profile request.bundle_name
                                          request.udid leaf request.now_unix)))
                                    (λ w k. k) (λ a w k. k) (λ w k. k.0))
                                  (λ checked. fact-Triple (λ valid. pure-Triple _ (λ w k. (
                                    k.0.0.0,
                                    saved-IsUsable path profile leaf checked w.0.nodes
                                        (ok_or-eq-ok _ _ head) (map_err-eq-ok _ _ valid) k,
                                  )))))))))))))
          (λ w p. p) (λ a w k. k) (λ w p. p.0.0)
      where
        P : Nodes → Type 0
        P = HasPair store id p12 chain

  prepare_new-Prepares :
      (request : PrepareRequest)
      → Prepares request (PendingHasKey store) (prepare_new lib store request)
  unfolding prepare_new
  prepare_new-Prepares request =
      bind-Triple (on_store-Triple lib P (λ _ n. P n) (list_key_pairs-KeepsAt P store)) (λ pairs.
        bind-Triple
          (on_store-Triple lib P (λ _ n. P n) (list_pending_keys-KeepsAt P lib.files store))
          (λ all_pending.
            bind-Triple
              (lift-Keeps lib P (fail_if (ltb 1 (length (of_team request.team_id all_pending))) _))
              (λ _.
                bind-Triple
                  (validate_pending-Keeps lib P (first (of_team request.team_id all_pending)))
                  (λ validated. bind-Triple (candidate_loop-Keeps lib P pairs) (λ from_pairs.
                    bind-Triple (outside-Triple lib P lib.list_certificates) (λ certificates.
                      bind-Triple
                        (select_loop-Selects lib P (with_pending validated from_pairs) certificates)
                        (λ selected. fact-Triple (λ chosen.
                          bind-Triple
                            (lift-Keeps lib P (
                              fail_if
                                (is_none selected
                                  && leb agc_debug_certificate_limit (count_debug certificates))
                                _))
                            (λ _.
                              bind-Triple
                                (obtain-Obtains lib atomic store request validated selected chosen)
                                (λ o.
                                  each-Triple
                                    {P = λ (x : Text × Bytes × Bytes) w.
                                      HasPair store x.0 x.1 x.2 w.0.nodes
                                      × IsObtained lib store o x.0 x.1 x.2}
                                    (λ x. fact-Triple (λ obtained.
                                      weaken-Triple
                                        (provision_with-Prepares request o x.0 x.1 x.2 obtained)
                                        (λ w k. k) (λ m w k. k) (λ w k. k)))))))))))))
    where
      P : Nodes → Type 0
      P = PendingHasKey store

  or_prepare-Prepares :
      (request : PrepareRequest) (found : Option (Materials lib))
      (rest : Managed lib (Materials lib))
      → Prepares request (PendingHasKey store) rest
      → Triple
          (λ (w : FileSystem × lib.Outside).
            PendingHasKey store w.0.nodes
            × ((m : Materials lib)
                → found ≡ some m
                → IsUsable lib store request.bundle_name request.udid request.now_unix w.0.nodes m))
          (or_prepare lib found rest)
          (λ m w.
            PendingHasKey store w.0.nodes
            × IsUsable lib store request.bundle_name request.udid request.now_unix w.0.nodes m)
          (AtFiles lib (PendingHasKey store))
  or_prepare-Prepares request none rest h = weaken-Triple h (λ w k. k.0) (λ a w k. k) (λ w k. k)
  or_prepare-Prepares request (some m) rest h = pure-Triple m (λ w k. (k.0, k.1 m refl))

  prepare-Prepares :
      (request : PrepareRequest)
      → Prepares request (PendingHasKey store) (prepare_materials_with_api lib store request)
  unfolding prepare_materials_with_api
  prepare-Prepares request =
      bind-Triple
        (find_local_materials-Triple lib store request.bundle_name request.udid request.now_unix
          (PendingHasKey store))
        (λ found. or_prepare-Prepares request found _ (prepare_new-Prepares request))

-- The materials that `prepare_materials_with_api` returns can be used, whether they were found or made
-- with the service: the pair is on disk and its key and certificates load, with the password, to the
-- identity; the profile is on disk at its path and is acceptable for the request's bundle and device,
-- for the time of the request and for the identity's first certificate. The directory starts with a
-- key for every pending request, and an atomic file changes nothing before it is committed.
pub prepare_materials_with_api-IsUsable :
    (lib : ManagerLibraries) (atomic : IsAtomic lib.files) (store : MaterialStore)
    (request : PrepareRequest) (w w' : FileSystem × lib.Outside) (m : Materials lib)
    → PendingHasKey store w.0.nodes
    → prepare_materials_with_api lib store request w ≡ (ok m, w')
    → IsUsable lib store request.bundle_name request.udid request.now_unix w'.0.nodes m
prepare_materials_with_api-IsUsable lib atomic store request w w' m h e =
    (Triple-ok (prepare-Prepares lib atomic store request) w h m w' e).1

-- However `prepare_materials_with_api` ends, with materials or with an error of any of its reads,
-- writes or calls, every pending request on disk has its key if this was so before, so that the next
-- run can go on with it. An atomic file changes nothing before it is committed.
pub prepare_materials_with_api-PendingHasKey :
    (lib : ManagerLibraries) (atomic : IsAtomic lib.files) (store : MaterialStore)
    (request : PrepareRequest) (w : FileSystem × lib.Outside)
    → PendingHasKey store w.0.nodes
    → PendingHasKey store (prepare_materials_with_api lib store request w).1.0.nodes
prepare_materials_with_api-PendingHasKey lib atomic store request w h =
    Triple-kept
      (weaken-Triple (prepare-Prepares lib atomic store request) (λ w k. k) (λ m w k. k.0)
        (λ w k. k))
      w h
