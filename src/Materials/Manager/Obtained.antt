-- ===== src/Materials/Manager/Obtained.antt =====
-- The pair that the preparation obtains, and what is on disk then.
use hap_resigner.Prelude.{
  ◌≡◌, refl, sym, ◌∙◌, Option, some, none, [], ◌∷◌, ◌||◌, is_none, ok, fail_if, ok_or, ok_or-eq-ok,
  Bytes, Text,
}
use hap_resigner.Effect.{Triple, bind-Triple, pure-Triple, weaken-Triple, lift-Triple, fact-Triple}
use hap_resigner.Files.{file, Nodes, put, delete, contents}
use hap_resigner.Files.Lookup.{contents-put_other, contents-delete_other}
use hap_resigner.Files.Calls.{IsOfFiles}
use hap_resigner.Agc.{CertificateRecord}
use hap_resigner.Materials.Store.{MaterialStore, p12_path, is_empty}
use hap_resigner.Materials.Store.Paths.{
  p12_file, cer_file, pending_file, profile_file, pending-not_p12, pending-not_cer,
  pending-not_profile, p12-not_profile, cer-not_profile,
}
use hap_resigner.Materials.Store.Atomic.{IsAtomic}
use hap_resigner.Materials.Store.Saved.{
  IsOfFiles-with, save_key_pair-Triple, save_pending_key-Triple, clear_pending_key-Triple,
}
use hap_resigner.Materials.Store.Invariant.{
  PendingHasKey, PendingHasKey-IsOfFiles, put-PendingHasKey, pending-PendingHasKey,
  delete-PendingHasKey,
}
use hap_resigner.Materials.Manager.{PrepareRequest, ManagerLibraries, ValidatedPending, Managed}
use hap_resigner.Materials.Manager.Usable.{AtFiles, on_store-Triple, outside-Triple}
use hap_resigner.Materials.Manager.Steps.{
  Selected, Opened, open_with, Obtained, pending_or_generated, keep_pair, obtain,
}
use hap_resigner.Materials.Manager.Chosen.{
  IsLoaded, open_with-IsLoaded, IsChosen, Keeps, lift-Keeps,
}

-- A pair is on disk, and every pending request has its key.
abbrev pub HasPair : MaterialStore → Text → Bytes → Bytes → Nodes → Type 0
HasPair store id p12 chain n =
    (PendingHasKey store n × (contents (p12_file store id) n ≡ some p12))
    × (contents (cer_file store id) n ≡ some chain)

pub HasPair-IsOfFiles :
    (store : MaterialStore) (id : Text) (p12 chain : Bytes) → IsOfFiles (HasPair store id p12 chain)
HasPair-IsOfFiles store id p12 chain =
    IsOfFiles-with (λ n. PendingHasKey store n × (contents (p12_file store id) n ≡ some p12))
      (cer_file store id) chain
      (IsOfFiles-with (PendingHasKey store) (p12_file store id) p12 (PendingHasKey-IsOfFiles store))

HasPair-delete :
    (store : MaterialStore) (id : Text) (p12 chain : Bytes) (n : Nodes)
    → HasPair store id p12 chain n
    → HasPair store id p12 chain (delete (pending_file store id) n)
HasPair-delete store id p12 chain n ((h, p), c) = (
  (
    delete-PendingHasKey store id n h,
    contents-delete_other (p12_file store id) (pending_file store id) n
          (λ m. pending-not_p12 store id id (sym m))
        ∙ p,
  ),
  contents-delete_other (cer_file store id) (pending_file store id) n
        (λ m. pending-not_cer store id id (sym m))
      ∙ c,
)

pub HasPair-put_profile :
    (store : MaterialStore) (id : Text) (p12 chain : Bytes) (bundle : Text) (profile : Bytes)
    (n : Nodes)
    → HasPair store id p12 chain n
    → HasPair store id p12 chain (put (profile_file store bundle) (file profile) n)
HasPair-put_profile store id p12 chain bundle profile n ((h, p), c) = (
  (
    put-PendingHasKey store (profile_file store bundle) profile n
        (λ x. pending-not_profile store x bundle) h,
    contents-put_other (p12_file store id) (profile_file store bundle) (file profile) n
          (p12-not_profile store id bundle)
        ∙ p,
  ),
  contents-put_other (cer_file store id) (profile_file store bundle) (file profile) n
        (cer-not_profile store id bundle)
      ∙ c,
)

-- The pair of an obtained identity, on disk.
pub record IsObtained (lib : ManagerLibraries) (store : MaterialStore) (o : Obtained lib)
    (id : Text) (p12 chain : Bytes) : Type 0 where
  pub pair_is : o.pair ≡ record { p12 = p12_file store id; certificate = cer_file store id }
  pub loads : IsLoaded lib p12 o.password chain o.identity

module _ (lib : ManagerLibraries) (atomic : IsAtomic lib.files) (store : MaterialStore) where
  abbrev pub Obtains : Managed lib (Obtained lib) → Type 0
  Obtains m =
      Triple (AtFiles lib (PendingHasKey store)) m
        (λ o w.
          (x : Text × Bytes × Bytes) × (HasPair store x.0 x.1 x.2 w.0.nodes
            × IsObtained lib store o x.0 x.1 x.2))
        (AtFiles lib (PendingHasKey store))

  keep_pair-Obtains :
      (id : Text) (p12 chain : Bytes) (o : Opened lib) (certificate : CertificateRecord)
      → IsLoaded lib p12 o.password chain o.identity
      → Obtains (keep_pair lib store id p12 chain o certificate)
  unfolding keep_pair
  keep_pair-Obtains id p12 chain o certificate loads =
      bind-Triple
        (on_store-Triple lib (PendingHasKey store)
          (λ pair n.
            PendingHasKey store n
            × (pair ≡ record { p12 = p12_file store id; certificate = cer_file store id })
            × (contents (p12_file store id) n ≡ some p12)
            × (contents (cer_file store id) n ≡ some chain))
          (save_key_pair-Triple lib.files atomic store (PendingHasKey store)
            (PendingHasKey-IsOfFiles store) id p12 chain
            (λ n k.
              put-PendingHasKey store (p12_file store id) p12 n (λ x. pending-not_p12 store x id) k)
            (λ n k.
              put-PendingHasKey store (cer_file store id) chain n (λ x. pending-not_cer store x id)
                k)))
        (λ pair.
          bind-Triple
            (weaken-Triple
              (on_store-Triple lib
                (λ n.
                  HasPair store id p12 chain n
                  × (pair ≡ record { p12 = p12_file store id; certificate = cer_file store id }))
                (λ _ n.
                  HasPair store id p12 chain n
                  × (pair ≡ record { p12 = p12_file store id; certificate = cer_file store id }))
                (clear_pending_key-Triple store _ id
                  (λ n k. (HasPair-delete store id p12 chain n k.0, k.1))))
              (λ w k. (((k.0, k.2), k.3), k.1)) (λ a w k. k) (λ w k. k.0.0.0))
            (λ _.
              pure-Triple _
                (λ w k. ((id, p12, chain), (k.0, record { pair_is = k.1; loads = loads })))))

  pending_or_generated-Keeps :
      (request : PrepareRequest) (validated : Option ValidatedPending)
      → Keeps lib (PendingHasKey store) (pending_or_generated lib store request validated)
  unfolding pending_or_generated
  pending_or_generated-Keeps request (some v) = pure-Triple v (λ w p. p)
  pending_or_generated-Keeps request none =
      bind-Triple
        (outside-Triple lib (PendingHasKey store)
          (lib.generate request.team_id request.new_password))
        (λ g.
          bind-Triple
            (weaken-Triple
              (on_store-Triple lib (PendingHasKey store)
                (λ path n. PendingHasKey store n × (p12_path store g.identifier ≡ ok path))
                (lift-Triple (p12_path store g.identifier)))
              (λ w p. p) (λ a w k. k.0) (λ w p. p))
            (λ path.
              bind-Triple
                (outside-Triple lib (PendingHasKey store)
                  (lib.save_password path request.new_password))
                (λ _.
                  bind-Triple
                    (on_store-Triple lib (PendingHasKey store) (λ _ n. PendingHasKey store n)
                      (weaken-Triple
                        (save_pending_key-Triple lib.files atomic store (PendingHasKey store)
                          (PendingHasKey-IsOfFiles store) g request.team_id request.certificate_name
                          (λ n k.
                            put-PendingHasKey store (p12_file store g.identifier) g.p12 n
                              (λ x. pending-not_p12 store x g.identifier) k)
                          (λ json n k e.
                            pending-PendingHasKey store g.identifier json n (g.p12, e) k))
                        (λ w p. p) (λ a w k. k.0) (λ w p. p)))
                    (λ pending. pure-Triple _ (λ w p. p)))))

  pub obtain-Obtains :
      (request : PrepareRequest) (validated : Option ValidatedPending)
      (selected : Option (Selected lib))
      → ((s : Selected lib) → selected ≡ some s → IsChosen lib s)
      → Obtains (obtain lib store request validated selected)
  unfolding obtain
  obtain-Obtains request validated (some s) h =
      keep_pair-Obtains s.identifier s.p12 s.chain _ s.certificate (h s refl)
  obtain-Obtains request validated none h =
      bind-Triple (pending_or_generated-Keeps request validated) (λ v.
        bind-Triple
          (outside-Triple lib (PendingHasKey store)
            (lib.upload_csr v.pending.csr_pem v.pending.certificate_name))
          (λ certificate.
            bind-Triple
              (lift-Keeps lib (PendingHasKey store)
                (fail_if (is_none certificate.id || is_empty certificate.cert_url) _))
              (λ _.
                bind-Triple
                  (outside-Triple lib (PendingHasKey store)
                    (lib.download_object certificate.cert_url))
                  (λ chain.
                    bind-Triple
                      (lift-Triple (ok_or (open_with lib v.p12 chain (v.password ∷ [])) _))
                      (λ o. fact-Triple (λ opened.
                        keep_pair-Obtains v.pending.identifier v.p12 chain o certificate (
                          open_with-IsLoaded lib v.p12 chain (v.password ∷ []) o
                            (ok_or-eq-ok _ _ opened))))))))
