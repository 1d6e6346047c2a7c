-- ===== src/Materials/Manager/Found.antt =====
-- The materials that `find_local_materials` finds can be used.
use hap_resigner.Prelude.{
  ok_option, ℤ, ◌≡◌, refl, sym, subst, Bool, true, false, not, Option, some, none, List, [], ◌∷◌,
  if◌then◌else◌, Result, ok, err, Bytes, Text, Option-cases, inl, inr,
}
use mathlib.Core.Option.{some-injective}
use hap_resigner.Effect.{
  Triple, Post, pure, bind-Triple, pure-Triple, weaken-Triple, lift-Triple, attempt-Triple,
  fact-Triple, ◌>>=◌, on_first-Triple, on_first,
}
use hap_resigner.Files.{IoError, PathBuf, Nodes, FileSystem, contents, read, is_file}
use hap_resigner.Files.Calls.{read-Triple, is_file-Triple}
use hap_resigner.Materials.Store.{KeyPairFiles, MaterialStore, profile_path, list_key_pairs}
use hap_resigner.Materials.Store.Paths.{profile_file, profile_path-named}
use hap_resigner.Materials.Store.Listed.{list_key_pairs-KeepsAt}
use hap_resigner.Materials.Manager.{
  ManagerLibraries, Managed, Materials, on_store, on_io, candidates_of, try_passwords,
  find_with_key, find_with_certificate, find_pair, or_continue, find_loop, find_local_materials,
  materials_of,
}
use hap_resigner.Materials.Manager.Usable.{
  IsUsable, AtFiles, on_store-Triple, on_io-Triple, outside-Triple,
}
use hap_resigner.Materials.Manager.Passwords.{try_passwords-IsUnlocked}

module _ (lib : ManagerLibraries) where
  module _ (store : MaterialStore) (bundle udid : Text) (now : ℤ) (profile : Bytes)
      (P : Nodes → Type 0) where
    -- The profile has been read.
    HasProfile : Nodes → Type 0
    HasProfile n = P n × (contents (profile_file store bundle) n ≡ some profile)

    -- What is found can be used.
    abbrev IsGood : Option (Materials lib) → Nodes → Type 0
    IsGood found n =
        HasProfile n
        × ((m : Materials lib) → found ≡ some m → IsUsable lib store bundle udid now n m)

    abbrev FindsGood : Managed lib (Option (Materials lib)) → Type 0
    FindsGood m =
        Triple (AtFiles lib HasProfile) m (λ found w. IsGood found w.0.nodes)
          (AtFiles lib HasProfile)

    nothing-IsGood : (n : Nodes) → HasProfile n → IsGood none n
    nothing-IsGood n h = (h, λ m e. cc (e))

    module _ (pair : KeyPairFiles) (p12 chain : Bytes) where
      IsRead : Nodes → Type 0
      IsRead n =
          (HasProfile n × (contents pair.p12 n ≡ some p12))
          × (contents pair.certificate n ≡ some chain)

      materials_of-IsUsable :
          (n : Nodes) (passwords : List Text) (m : Materials lib)
          → IsRead n
          → materials_of lib pair
              (profile_file store bundle)
              profile
              (try_passwords lib profile bundle udid now p12 chain passwords)
            ≡ some m
          → IsUsable lib store bundle udid now n m
      unfolding IsRead HasProfile
      materials_of-IsUsable n passwords m ((h, p), c) e =
          elim (Option-cases (try_passwords lib profile bundle udid now p12 chain passwords)) [
            | inl none_found ↦ cc (rw none_found at e)
            | inr (u, found) ↦
                let k =
                  try_passwords-IsUnlocked lib profile bundle udid now p12 chain passwords u
                    found in
                subst (IsUsable lib store bundle udid now n) (some-injective _ _ (rw found at e))
                  (record {
                    p12 = p12;
                    p12_is = p;
                    chain = chain;
                    chain_is = c;
                    loads = k.loads;
                    profile_path_is = refl;
                    profile_is = h.1;
                    leaf = k.leaf;
                    others = k.others;
                    certificates = k.certificates;
                    acceptable = k.acceptable;
                  })
          ]

      with_passwords-FindsGood :
          Triple
            (AtFiles lib IsRead)
            (find_with_certificate lib
              (profile_file store bundle)
              profile
              bundle
              udid
              now
              pair
              p12
              (some chain))
            (λ found w. IsGood found w.0.nodes)
            (AtFiles lib HasProfile)
      unfolding IsRead
      with_passwords-FindsGood =
          bind-Triple
            (weaken-Triple (outside-Triple lib IsRead (candidates_of lib pair.p12)) (λ w p. p)
              (λ a w p. p) (λ w p. p.0.0))
            (λ passwords.
              pure-Triple _
                (λ w p. (p.0.0, λ m e. materials_of-IsUsable w.0.nodes passwords m p e)))

    abbrev Read :
        PathBuf → Result IoError Bytes → (Nodes → Type 0) → FileSystem × lib.Outside → Type 0
    Read path r Q w =
        Post (λ b (v : FileSystem × lib.Outside). Q v.0.nodes × (contents path v.0.nodes ≡ some b))
          (AtFiles lib Q) (r, w)

    find_with_key-FindsGood :
        (pair : KeyPairFiles) (r : Result IoError Bytes)
        → Triple
            (Read pair.p12 r HasProfile)
            (find_with_key lib
              (profile_file store bundle)
              profile
              bundle
              udid
              now
              pair
              (ok_option r))
            (λ found w. IsGood found w.0.nodes)
            (AtFiles lib HasProfile)
    unfolding IsRead
    find_with_key-FindsGood pair (err e) = pure-Triple none (λ w p. nothing-IsGood w.0.nodes p)
    find_with_key-FindsGood pair (ok p12) =
        bind-Triple
          (attempt-Triple {S = AtFiles lib HasProfile} (
            on_first-Triple (
              read-Triple (λ n. HasProfile n × (contents pair.p12 n ≡ some p12)) pair.certificate)))
          (certificate_found pair p12)
      where
        certificate_found :
            (pair : KeyPairFiles) (p12 : Bytes) (c : Result IoError Bytes)
            → Triple
                (Read pair.certificate c (λ n. HasProfile n × (contents pair.p12 n ≡ some p12)))
                (find_with_certificate lib
                  (profile_file store bundle)
                  profile
                  bundle
                  udid
                  now
                  pair
                  p12
                  (ok_option c))
                (λ found w. IsGood found w.0.nodes)
                (AtFiles lib HasProfile)
        certificate_found pair p12 (err e) = pure-Triple none (λ w p. nothing-IsGood w.0.nodes p.0)
        certificate_found pair p12 (ok chain) = with_passwords-FindsGood pair p12 chain

    find_pair-FindsGood :
        (pair : KeyPairFiles)
        → FindsGood (find_pair lib (profile_file store bundle) profile bundle udid now pair)
    unfolding find_pair
    find_pair-FindsGood pair =
        bind-Triple
          (attempt-Triple {S = AtFiles lib HasProfile}
            (on_first-Triple (read-Triple HasProfile pair.p12)))
          (find_with_key-FindsGood pair)

    find_loop-FindsGood :
        (pairs : List KeyPairFiles)
        → FindsGood (find_loop lib (profile_file store bundle) profile bundle udid now pairs)
    unfolding find_loop
    find_loop-FindsGood [] = pure-Triple none (λ w p. nothing-IsGood w.0.nodes p)
    find_loop-FindsGood (pair ∷ pairs) =
        bind-Triple (find_pair-FindsGood pair)
          (λ found. continued found (find_loop-FindsGood pairs))
      where
        continued :
            (found : Option (Materials lib)) {rest : Managed lib (Option (Materials lib))}
            → FindsGood rest
            → Triple
                (λ (w : FileSystem × lib.Outside). IsGood found w.0.nodes)
                (or_continue lib found rest)
                (λ result w. IsGood result w.0.nodes)
                (AtFiles lib HasProfile)
        continued none h = weaken-Triple h (λ w k. k.0) (λ a w k. k) (λ w k. k)
        continued (some m) h = pure-Triple (some m) (λ w k. k)

  -- What is found can be used, and nothing is written.
  pub find_local_materials-Triple :
      (store : MaterialStore) (bundle udid : Text) (now : ℤ) (P : Nodes → Type 0)
      → Triple
          (AtFiles lib P)
          (find_local_materials lib store bundle udid now)
          (λ found w.
            P w.0.nodes
            × ((m : Materials lib)
                → found ≡ some m
                → IsUsable lib store bundle udid now w.0.nodes m))
          (AtFiles lib P)
  unfolding find_local_materials HasProfile
  find_local_materials-Triple store bundle udid now P =
      bind-Triple
        (on_store-Triple lib P (λ path n. P n × (profile_path store bundle ≡ ok path))
          (lift-Triple (profile_path store bundle)))
        (λ path. fact-Triple (λ named.
          subst (λ t. Result_from t) (sym (profile_path-named store bundle named)) found_there))
    where
      rest : PathBuf → Managed lib (Option (Materials lib))
      rest path = do
        present ← on_first (is_file path)
        if not present then pure none else do
          profile ← on_io lib (read path)
          pairs ← on_store lib (list_key_pairs store)
          find_loop lib path profile bundle udid now pairs

      Result_from : PathBuf → Type 0
      Result_from path =
          Triple (AtFiles lib P) (rest path)
            (λ found w.
              P w.0.nodes
              × ((m : Materials lib)
                  → found ≡ some m
                  → IsUsable lib store bundle udid now w.0.nodes m))
            (AtFiles lib P)

      by_presence :
          (present : Bool)
          → Triple
              (AtFiles lib P)
              (if not present
                then pure none
                else (on_io lib (read (profile_file store bundle)) >>= λ profile.
                    on_store lib (list_key_pairs store) >>= λ pairs.
                    find_loop lib (profile_file store bundle) profile bundle udid now pairs))
              (λ found w.
                P w.0.nodes
                × ((m : Materials lib)
                    → found ≡ some m
                    → IsUsable lib store bundle udid now w.0.nodes m))
              (AtFiles lib P)
      by_presence false = pure-Triple none (λ w p. (p, λ m e. cc (e)))
      by_presence true =
          bind-Triple
            (on_io-Triple lib P
              (λ profile n. P n × (contents (profile_file store bundle) n ≡ some profile))
              (read-Triple P (profile_file store bundle)))
            (λ profile.
              bind-Triple
                (weaken-Triple
                  (on_store-Triple lib (HasProfile store bundle udid now profile P)
                    (λ pairs n. HasProfile store bundle udid now profile P n)
                    (list_key_pairs-KeepsAt (HasProfile store bundle udid now profile P) store))
                  (λ w p. p) (λ a w p. p) (λ w p. p.0))
                (λ pairs.
                  weaken-Triple (find_loop-FindsGood store bundle udid now profile P pairs)
                    (λ w p. p) (λ a w k. (k.0.0, k.1)) (λ w p. p.0)))

      found_there : Result_from (profile_file store bundle)
      found_there =
          bind-Triple
            (weaken-Triple (on_first-Triple (is_file-Triple P (profile_file store bundle)))
              (λ w p. p) (λ a w k. k.0) (λ w p. p))
            by_presence
