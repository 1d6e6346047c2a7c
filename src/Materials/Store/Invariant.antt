-- ===== src/Materials/Store/Invariant.antt =====
-- Every pending request has its key, whatever fails: what the order of the writes is for.
use hap_resigner.Prelude.{◌≡◌, sym, subst, ◌∙◌, false, some, Bytes, Text, Bool-cases, inl, inr}
use hap_resigner.Effect.{Triple-kept, weaken-Triple}
use hap_resigner.Files.{PathBuf, file, Nodes, FileSystem, put, delete, contents, path_eq}
use hap_resigner.Files.Lookup.{
  path_eq_iff, path_eq_self, contents-put_same, contents-put_other, contents-delete_same,
  contents-delete_other,
}
use hap_resigner.Files.Calls.{IsOfFiles}
use hap_resigner.Materials.Store.{
  MaterialStore, StoreLibraries, GeneratedKeyMaterial, save_profile, save_key_pair,
  save_pending_key, clear_pending_key, list_key_pairs, list_pending_keys,
}
use hap_resigner.Materials.Store.Paths.{
  p12_file, cer_file, pending_file, profile_file, pending-not_p12, pending-not_cer,
  pending-not_profile, pending_file-injective,
}
use hap_resigner.Materials.Store.Atomic.{IsAtomic}
use hap_resigner.Materials.Store.Saved.{
  save_profile-Triple, save_key_pair-Triple, save_pending_key-Triple, clear_pending_key-Triple,
}
use hap_resigner.Materials.Store.Listed.{list_key_pairs-KeepsAt, list_pending_keys-KeepsAt}

-- A file stands at the path.
abbrev pub IsThere : PathBuf → Nodes → Type 0
IsThere path n = (b : Bytes) × (contents path n ≡ some b)

-- A key for every pending request of the directory.
unfoldable pub PendingHasKey : MaterialStore → Nodes → Type 0
PendingHasKey store n =
    (id : Text) → IsThere (pending_file store id) n → IsThere (p12_file store id) n

module _ (store : MaterialStore) where
  pub PendingHasKey-IsOfFiles : IsOfFiles (PendingHasKey store)
  unfolding PendingHasKey
  PendingHasKey-IsOfFiles n n' same h id (b, e) =
      let (k, f) = h id (b, same (pending_file store id) ∙ e) in
      (k, sym (same (p12_file store id)) ∙ f)

  put-IsThere : (q p : PathBuf) (b : Bytes) (n : Nodes) → IsThere q n → IsThere q (put p (file b) n)
  put-IsThere q p b n (c, e) = elim (Bool-cases (path_eq q p)) [
    | inl k ↦ (
      b,
      subst (λ t. contents t (put p (file b) n) ≡ some b) (sym ((path_eq_iff q p).0 k))
          (contents-put_same p b n),
    )
    | inr k ↦ (
      c,
      contents-put_other q p (file b) n
            (λ m. cc (path_eq_self p, subst (λ t. path_eq t p ≡ false) m k))
          ∙ e,
    )
  ]

  -- A write anywhere but at a pending request.
  pub put-PendingHasKey :
      (p : PathBuf) (b : Bytes) (n : Nodes)
      → ((id : Text) → pending_file store id ≡ p → ⊥)
      → PendingHasKey store n
      → PendingHasKey store (put p (file b) n)
  unfolding PendingHasKey
  put-PendingHasKey p b n other h id (c, e) =
      put-IsThere (p12_file store id) p b n
        (h id (c, sym (contents-put_other (pending_file store id) p (file b) n (other id)) ∙ e))

  -- A pending request whose key is there.
  pub pending-PendingHasKey :
      (id : Text) (b : Bytes) (n : Nodes)
      → IsThere (p12_file store id) n
      → PendingHasKey store n
      → PendingHasKey store (put (pending_file store id) (file b) n)
  unfolding PendingHasKey
  pending-PendingHasKey id b n key h x (c, e) =
      put-IsThere (p12_file store x) (pending_file store id) b n
        (elim (Bool-cases (path_eq (pending_file store x) (pending_file store id))) [
          | inl k ↦
              subst (λ t. IsThere (p12_file store t) n)
                (sym (pending_file-injective store x id ((path_eq_iff _ _).0 k))) key
          | inr k ↦ h x (
            c,
            sym (
                  contents-put_other (pending_file store x) (pending_file store id) (file b) n
                    (λ m. cc ((path_eq_iff (pending_file store x) (pending_file store id)).1 m, k)))
                ∙ e,
          )
        ])

  pub delete-PendingHasKey :
      (id : Text) (n : Nodes)
      → PendingHasKey store n
      → PendingHasKey store (delete (pending_file store id) n)
  unfolding PendingHasKey
  delete-PendingHasKey id n h x (c, e) =
      let (k, f) = h x (elim (Bool-cases (path_eq (pending_file store x) (pending_file store id))) [
        | inl k ↦ cc (
          contents-delete_same (pending_file store id) n,
          subst (λ t. contents t (delete (pending_file store id) n) ≡ some c)
              ((path_eq_iff _ _).0 k) e,
        )
        | inr k ↦ (
          c,
          sym (
                contents-delete_other (pending_file store x) (pending_file store id) n
                  (λ m. cc ((path_eq_iff (pending_file store x) (pending_file store id)).1 m, k)))
              ∙ e,
        )
      ]) in
      (
        k,
        contents-delete_other (p12_file store x) (pending_file store id) n
              (λ m. pending-not_p12 store id x (sym m))
            ∙ f,
      )

-- One call of the store, that may fail anywhere.
pub data StoreStep (lib : StoreLibraries) (store : MaterialStore)
    : FileSystem → FileSystem → Type 0 where
  saves_profile :
      (w : FileSystem) (bundle : Text) (profile : Bytes)
      → StoreStep lib store w (save_profile lib store bundle profile w).1
  saves_key_pair :
      (w : FileSystem) (id : Text) (p12 certificate : Bytes)
      → StoreStep lib store w (save_key_pair lib store id p12 certificate w).1
  saves_pending_key :
      (w : FileSystem) (g : GeneratedKeyMaterial) (team_id certificate_name : Text)
      → StoreStep lib store w (save_pending_key lib store g team_id certificate_name w).1
  clears_pending_key :
      (w : FileSystem) (id : Text) → StoreStep lib store w (clear_pending_key store id w).1
  lists_key_pairs : (w : FileSystem) → StoreStep lib store w (list_key_pairs store w).1
  lists_pending_keys : (w : FileSystem) → StoreStep lib store w (list_pending_keys lib store w).1

pub data StoreHistory (lib : StoreLibraries) (store : MaterialStore)
    : FileSystem → FileSystem → Type 0 where
  nothing_yet : {w : FileSystem} → StoreHistory lib store w w
  and_then_step :
      {w v u : FileSystem}
      → StoreHistory lib store w v
      → StoreStep lib store v u
      → StoreHistory lib store w u

module _ (lib : StoreLibraries) (atomic : IsAtomic lib) (store : MaterialStore) where
  step-PendingHasKey :
      {w v : FileSystem}
      → StoreStep lib store w v
      → PendingHasKey store w.nodes
      → PendingHasKey store v.nodes
  step-PendingHasKey (saves_profile w bundle profile) h =
      Triple-kept
        (weaken-Triple
          (save_profile-Triple lib atomic store (PendingHasKey store)
            (PendingHasKey-IsOfFiles store) bundle profile
            (λ n k.
              put-PendingHasKey store (profile_file store bundle) profile n
                (λ id. pending-not_profile store id bundle) k))
          (λ w p. p) (λ a w k. k.0) (λ w p. p))
        w h
  step-PendingHasKey (saves_key_pair w id p12 certificate) h =
      Triple-kept
        (weaken-Triple
          (save_key_pair-Triple lib atomic store (PendingHasKey store)
            (PendingHasKey-IsOfFiles store) id p12 certificate
            (λ n k.
              put-PendingHasKey store (p12_file store id) p12 n (λ x. pending-not_p12 store x id) k)
            (λ n k.
              put-PendingHasKey store (cer_file store id) certificate n
                (λ x. pending-not_cer store x id) k))
          (λ w p. p) (λ a w k. k.0) (λ w p. p))
        w h
  step-PendingHasKey (saves_pending_key w g team_id certificate_name) h =
      Triple-kept
        (weaken-Triple
          (save_pending_key-Triple lib atomic store (PendingHasKey store)
            (PendingHasKey-IsOfFiles store) g team_id certificate_name
            (λ n k.
              put-PendingHasKey store (p12_file store g.identifier) g.p12 n
                (λ x. pending-not_p12 store x g.identifier) k)
            (λ json n k e. pending-PendingHasKey store g.identifier json n (g.p12, e) k))
          (λ w p. p) (λ a w k. k.0) (λ w p. p))
        w h
  step-PendingHasKey (clears_pending_key w id) h =
      Triple-kept
        (clear_pending_key-Triple store (PendingHasKey store) id
          (λ n k. delete-PendingHasKey store id n k))
        w h
  step-PendingHasKey (lists_key_pairs w) h =
      Triple-kept (list_key_pairs-KeepsAt (PendingHasKey store) store) w h
  step-PendingHasKey (lists_pending_keys w) h =
      Triple-kept (list_pending_keys-KeepsAt (PendingHasKey store) lib store) w h

  -- Over any sequence of calls of the store, each of which may fail at any of its reads and writes,
  -- every pending request has a key file if this was so before the first. What is needed is that a
  -- file of the crate atomic-write-file changes nothing before it is committed.
  pub StoreHistory-PendingHasKey :
      {w v : FileSystem}
      → StoreHistory lib store w v
      → PendingHasKey store w.nodes
      → PendingHasKey store v.nodes
  StoreHistory-PendingHasKey nothing_yet h = h
  StoreHistory-PendingHasKey (and_then_step history step) h =
      step-PendingHasKey step (StoreHistory-PendingHasKey history h)
