-- ===== src/Materials/Manager/Chosen.antt =====
-- The reads of the preparation, and the certificate that it selects for a key.
use hap_resigner.Prelude.{
  ok_option, ◌≡◌, refl, subst, Bool, true, false, Option, some, none, List, [], ◌∷◌, if◌then◌else◌,
  Result, ok, err, ok_or, Bytes, Text, Result-cases, Option-cases, inl, inr,
}
use mathlib.Core.Option.{some-injective}
use hap_resigner.Effect.{
  Triple, Post, bind-Triple, pure-Triple, weaken-Triple, lift-Triple, attempt-Triple,
  on_first-Triple, lift,
}
use hap_resigner.Files.{IoError, PathBuf, Nodes, FileSystem, contents}
use hap_resigner.Files.Names.{file_stem}
use hap_resigner.Files.Calls.{read-Triple}
use hap_resigner.Agc.{CertificateRecord}
use hap_resigner.Materials.{load_signing_identity}
use hap_resigner.Materials.Store.{KeyPairFiles, PendingKeyMaterial, is_empty}
use hap_resigner.Materials.Store.Paths.{}
use hap_resigner.Materials.Store.Saved.{}
use hap_resigner.Materials.Store.Invariant.{}
use hap_resigner.Materials.Manager.{
  ManagerError, ManagerLibraries, Candidate, Managed, Identity, is_skipped, candidates_of,
}
use hap_resigner.Materials.Manager.Usable.{AtFiles, on_io-Triple, outside-Triple}
use hap_resigner.Materials.Manager.Steps.{
  find_password, validate_pending, candidate_with, candidate_named, candidate_loop, Selected,
  Opened, open_with, match_candidates, or_next, select_loop,
}

module _ (lib : ManagerLibraries) where
  -- The password opens the key, and the chain has its certificate.
  abbrev pub IsLoaded : Bytes → Text → Bytes → Identity lib → Type 0
  IsLoaded p12 password chain identity =
      load_signing_identity lib.keys p12 password chain ≡ ok identity

  pub open_with-IsLoaded :
      (p12 chain : Bytes) (passwords : List Text) (o : Opened lib)
      → open_with lib p12 chain passwords ≡ some o
      → IsLoaded p12 o.password chain o.identity
  unfolding open_with
  open_with-IsLoaded p12 chain [] o h = cc
  open_with-IsLoaded p12 chain (password ∷ passwords) o h =
      elim (Result-cases (load_signing_identity lib.keys p12 password chain)) [
        | inr (e, l) ↦ open_with-IsLoaded p12 chain passwords o (rw l at h)
        | inl (identity, l) ↦
            subst (λ (x : Opened lib). IsLoaded p12 x.password chain x.identity)
              (some-injective _ _ (rw l at h)) l
      ]

  abbrev pub IsChosen : Selected lib → Type 0
  IsChosen s = IsLoaded s.p12 s.password s.chain s.identity

  match_candidates-IsChosen :
      (certificate : CertificateRecord) (chain : Bytes) (cs : List Candidate) (s : Selected lib)
      → match_candidates lib certificate chain cs ≡ some s
      → IsChosen s
  unfolding match_candidates
  match_candidates-IsChosen certificate chain [] s h = cc
  match_candidates-IsChosen certificate chain (c ∷ cs) s h =
      elim (Option-cases (open_with lib c.p12 chain c.passwords)) [
        | inl e ↦ match_candidates-IsChosen certificate chain cs s (rw e at h)
        | inr (o, e) ↦
            subst IsChosen (some-injective _ _ (rw e at h))
              (open_with-IsLoaded c.p12 chain c.passwords o e)
      ]

  module _ (P : Nodes → Type 0) where
    -- The call keeps what holds of the files.
    abbrev pub Keeps : {A : Type 0} → Managed lib A → Type 0
    Keeps m = Triple (AtFiles lib P) m (λ _ w. P w.0.nodes) (AtFiles lib P)

    pub lift-Keeps : {A : Type 0} (r : Result ManagerError A) → Keeps (lift r)
    lift-Keeps r = weaken-Triple (lift-Triple r) (λ w p. p) (λ a w k. k.0) (λ w p. p)

    pub validate_pending-Keeps :
        (pending : Option PendingKeyMaterial) → Keeps (validate_pending lib pending)
    unfolding validate_pending
    validate_pending-Keeps none = pure-Triple none (λ w p. p)
    validate_pending-Keeps (some pending) =
        bind-Triple
          (weaken-Triple
            (on_io-Triple lib P (λ b n. P n × (contents pending.p12 n ≡ some b))
              (read-Triple P pending.p12))
            (λ w p. p) (λ a w k. k.0) (λ w p. p))
          (λ p12.
            bind-Triple (outside-Triple lib P (lib.pending_password_candidates pending.p12))
              (λ passwords.
                bind-Triple (lift-Keeps (ok_or (find_password lib p12 passwords) _))
                  (λ password. pure-Triple _ (λ w p. p))))

    candidate_named-Keeps :
        (path : PathBuf) (stem : Option Text) → Keeps (candidate_named lib path stem)
    candidate_named-Keeps path none = pure-Triple [] (λ w p. p)
    candidate_named-Keeps path (some identifier) =
        bind-Triple (attempt-Triple {S = AtFiles lib P} (on_first-Triple (read-Triple P path)))
          (λ r. read_one r)
      where
        read_one :
            (r : Result IoError Bytes)
            → Triple
                (λ (w : FileSystem × lib.Outside).
                  Post
                    (λ b (v : FileSystem × lib.Outside).
                      P v.0.nodes × (contents path v.0.nodes ≡ some b))
                    (AtFiles lib P)
                    (r, w))
                (candidate_with lib path identifier (ok_option r))
                (λ _ (w : FileSystem × lib.Outside). P w.0.nodes)
                (AtFiles lib P)
        read_one (err e) = pure-Triple [] (λ w p. p)
        read_one (ok p12) =
            bind-Triple
              (weaken-Triple (outside-Triple lib P (candidates_of lib path)) (λ w k. k.0)
                (λ a w p. p) (λ w p. p))
              (λ passwords.
                pure-Triple
                  (record { identifier = identifier; path = path; p12 = p12; passwords = passwords }
                    ∷ [])
                  (λ w p. p))

    pub candidate_loop-Keeps : (pairs : List KeyPairFiles) → Keeps (candidate_loop lib pairs)
    unfolding candidate_loop
    candidate_loop-Keeps [] = pure-Triple [] (λ w p. p)
    candidate_loop-Keeps (pair ∷ pairs) =
        bind-Triple (candidate_named-Keeps pair.p12 (file_stem pair.p12))
          (λ candidate. bind-Triple (candidate_loop-Keeps pairs) (λ rest. pure-Triple _ (λ w p. p)))

    -- A selection has loaded its identity.
    abbrev pub Selects : Managed lib (Option (Selected lib)) → Type 0
    Selects m =
        Triple (AtFiles lib P) m
          (λ selected w. P w.0.nodes × ((s : Selected lib) → selected ≡ some s → IsChosen s))
          (AtFiles lib P)

    or_next-Selects :
        (certificate : CertificateRecord) (chain : Bytes) (cs : List Candidate)
        (found : Option (Selected lib)) {rest : Managed lib (Option (Selected lib))}
        → match_candidates lib certificate chain cs ≡ found
        → Selects rest
        → Selects (or_next lib found rest)
    or_next-Selects certificate chain cs none e h = h
    or_next-Selects certificate chain cs (some s) e h = pure-Triple (some s) (λ w p. (
      p,
      λ t k.
          subst IsChosen (some-injective _ _ k)
            (match_candidates-IsChosen certificate chain cs s e),
    ))

    if-Selects :
        (b : Bool) {x y : Managed lib (Option (Selected lib))}
        → Selects x
        → Selects y
        → Selects (if b then x else y)
    if-Selects true h k = h
    if-Selects false h k = k

    pub select_loop-Selects :
        (cs : List Candidate) (certificates : List CertificateRecord)
        → Selects (select_loop lib cs certificates)
    unfolding select_loop
    select_loop-Selects cs [] = pure-Triple none (λ w p. (p, λ s e. cc (e)))
    select_loop-Selects cs (certificate ∷ certificates) =
        let rest = select_loop-Selects cs certificates in
        if-Selects (is_skipped certificate) rest (
          if-Selects (is_empty cs) rest (
            bind-Triple (outside-Triple lib P (lib.download_object certificate.cert_url)) (λ chain.
              or_next-Selects certificate chain cs (match_candidates lib certificate chain cs) refl
                rest)))
