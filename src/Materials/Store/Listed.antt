-- ===== src/Materials/Store/Listed.antt =====
-- The listings of the store read, and write nothing.
use hap_resigner.Prelude.{
  Bool, true, false, not, Option, some, none, List, [], ◌∷◌, ◌++◌, if◌then◌else◌, bytes_eq, codes,
  Text, fail_if, map_err,
}
use hap_resigner.Effect.{
  Triple, bind-Triple, pure-Triple, weaken-Triple, map_error-Triple, lift-Triple,
}
use hap_resigner.Files.{PathBuf, Nodes, FileSystem}
use hap_resigner.Files.Names.{extension, with_extension}
use hap_resigner.Files.Calls.{
  At, read-Triple, read_dir-Triple, next_entry-Triple, is_file-Triple, exists-Triple,
}
use hap_resigner.Materials.Store.{
  io, metadata, validate_identifier, MaterialStore, StoreLibraries, StoreEffect, materials_dir,
  pair_entry, pair_entry_by, pair_loop, list_key_pairs, pending_identifier, pending_entry,
  pending_turn, pending_turn_by, pending_loop, list_pending_keys,
}

module _ (P : Nodes → Type 0) where
  -- The call starts and ends in `P`.
  abbrev pub KeepsAt : {A : Type 0} → StoreEffect A → Type 0
  KeepsAt m = Triple (At P) m (λ _ fs. P fs.nodes) (At P)

  kept_only :
      {A : Type 0} {F : A → FileSystem → Type 0} {m : StoreEffect A}
      → Triple (At P) m (λ a fs. P fs.nodes × F a fs) (At P)
      → KeepsAt m
  kept_only h = weaken-Triple h (λ w p. p) (λ a w k. k.0) (λ w p. p)

  if-KeepsAt :
      {A : Type 0} (b : Bool) {x y : StoreEffect A}
      → KeepsAt x
      → KeepsAt y
      → KeepsAt (if b then x else y)
  if-KeepsAt true h k = h
  if-KeepsAt false h k = k

  pair_entry-KeepsAt : (path : PathBuf) → KeepsAt (pair_entry path)
  unfolding pair_entry
  pair_entry-KeepsAt path = by_extension_KeepsAt (extension path)
    where
      by_extension_KeepsAt : (value : Option Text) → KeepsAt (pair_entry_by path value)
      by_extension_KeepsAt none = pure-Triple none (λ w p. p)
      by_extension_KeepsAt (some value) =
          if-KeepsAt (not (bytes_eq value (codes "p12"))) (pure-Triple none (λ w p. p)) (
            bind-Triple (kept_only (is_file-Triple P (with_extension path (codes "cer"))))
              (λ present. pure-Triple _ (λ w p. p)))

  pair_loop-KeepsAt : (entries : List PathBuf) → KeepsAt (pair_loop entries)
  unfolding pair_loop
  pair_loop-KeepsAt [] = pure-Triple [] (λ w p. p)
  pair_loop-KeepsAt (entry ∷ entries) =
      bind-Triple (kept_only (map_error-Triple io (next_entry-Triple P entry))) (λ path.
        bind-Triple (pair_entry-KeepsAt path)
          (λ pair. bind-Triple (pair_loop-KeepsAt entries) (λ pairs. pure-Triple _ (λ w p. p))))

  pub list_key_pairs-KeepsAt : (store : MaterialStore) → KeepsAt (list_key_pairs store)
  unfolding list_key_pairs
  list_key_pairs-KeepsAt store = bind-Triple (exists-Triple P (materials_dir store)) (λ present.
      if-KeepsAt (not present) (pure-Triple [] (λ w p. p)) (
        bind-Triple (kept_only (map_error-Triple io (read_dir-Triple P (materials_dir store))))
          (λ entries. bind-Triple (pair_loop-KeepsAt entries) (λ pairs. pure-Triple _ (λ w p. p)))))

  module _ (lib : StoreLibraries) where
    pending_entry-KeepsAt :
        (materials path : PathBuf) (id : Text) → KeepsAt (pending_entry lib materials path id)
    unfolding pending_entry
    pending_entry-KeepsAt materials path id =
        bind-Triple (kept_only (lift-Triple (validate_identifier id))) (λ _.
          bind-Triple (kept_only (map_error-Triple io (read-Triple P path))) (λ json.
            bind-Triple (kept_only (lift-Triple (map_err metadata (lib.from_json json)))) (λ found.
              bind-Triple (kept_only (lift-Triple (fail_if (not (bytes_eq found.identifier id)) _)))
                (λ _.
                  bind-Triple (kept_only (is_file-Triple P ((id ++ codes ".p12") ∷ materials)))
                    (λ present.
                      bind-Triple (kept_only (lift-Triple (fail_if (not present) _)))
                        (λ _. pure-Triple _ (λ w p. p)))))))

    pending_loop-KeepsAt :
        (materials : PathBuf) (entries : List PathBuf)
        → KeepsAt (pending_loop lib materials entries)
    unfolding pending_loop pending_turn
    pending_loop-KeepsAt materials [] = pure-Triple [] (λ w p. p)
    pending_loop-KeepsAt materials (entry ∷ entries) =
        bind-Triple (kept_only (map_error-Triple io (next_entry-Triple P entry))) (λ path.
          bind-Triple (turn path (pending_identifier lib path)) (λ material.
            bind-Triple (pending_loop-KeepsAt materials entries)
              (λ pending. pure-Triple _ (λ w p. p))))
      where
        turn : (path : PathBuf) (id : Option Text) → KeepsAt (pending_turn_by lib materials path id)
        turn path none = pure-Triple none (λ w p. p)
        turn path (some id) =
            bind-Triple (pending_entry-KeepsAt materials path id)
              (λ material. pure-Triple _ (λ w p. p))

    pub list_pending_keys-KeepsAt : (store : MaterialStore) → KeepsAt (list_pending_keys lib store)
    unfolding list_pending_keys
    list_pending_keys-KeepsAt store =
        bind-Triple (exists-Triple P (materials_dir store)) (λ present.
          if-KeepsAt (not present) (pure-Triple [] (λ w p. p)) (
            bind-Triple (kept_only (map_error-Triple io (read_dir-Triple P (materials_dir store))))
              (λ entries.
                bind-Triple (pending_loop-KeepsAt (materials_dir store) entries)
                  (λ pending. pure-Triple _ (λ w p. p)))))
