-- ===== src/Materials/Store/Paths.antt =====
-- The file names of the store: which of them are the same.
use hap_resigner.Prelude.{
  ℕ, ◌≡◌, ◌≢◌, refl, sym, ap, ◌∙◌, [], ◌∷◌, ◌++◌, length, take, take-append, length-append, Text,
  codes, arith, Result, ok, err, ok-injective,
}
use hap_resigner.Files.{PathBuf}
use hap_resigner.Materials.Store.{
  MaterialStore, StoreError, when_valid, materials_dir, validate_identifier, p12_path, profile_path,
  pending_path,
}

abbrev last_from : ℕ → Text → ℕ
last_from c [] = c
last_from c (d ∷ ds) = last_from d ds

abbrev last : Text → ℕ
last [] = 0
last (c ∷ cs) = last_from c cs

last_from-append :
    (c : ℕ) (xs : Text) (d : ℕ) (ds : Text) → last_from c (xs ++ (d ∷ ds)) ≡ last_from d ds
last_from-append c [] d ds = refl
last_from-append c (x ∷ xs) d ds = last_from-append x xs d ds

last-append : (xs : Text) (d : ℕ) (ds : Text) → last (xs ++ (d ∷ ds)) ≡ last_from d ds
last-append [] d ds = refl
last-append (x ∷ xs) d ds = last_from-append x xs d ds

abbrev name_of : PathBuf → Text
name_of [] = []
name_of (name ∷ parent) = name

-- Names that end in different bytes are different.
differs_at_end :
    (x y : Text) (p q : PathBuf) (c d : ℕ) (cs ds : Text)
    → last_from c cs ≢ last_from d ds
    → ◌≢◌ {A = PathBuf} ((x ++ (c ∷ cs)) ∷ p) ((y ++ (d ∷ ds)) ∷ q)
differs_at_end x y p q c d cs ds h e =
    h (sym (last-append x c cs) ∙ ap (λ r. last (name_of r)) e ∙ last-append y d ds)

append-cancel_right : (xs ys s : Text) → xs ++ s ≡ ys ++ s → xs ≡ ys
append-cancel_right xs ys s h =
    sym (take-append (length xs) xs s refl)
    ∙ ap (take (length xs)) h
    ∙ take-append (length xs) ys s
        (omega (arith, length-append xs s, length-append ys s, ap length h))

abbrev pub p12_file : MaterialStore → Text → PathBuf
p12_file store id = (id ++ codes ".p12") ∷ materials_dir store

abbrev pub cer_file : MaterialStore → Text → PathBuf
cer_file store id = (id ++ codes ".cer") ∷ materials_dir store

abbrev pub pending_file : MaterialStore → Text → PathBuf
pending_file store id = (id ++ codes ".pending.json") ∷ materials_dir store

abbrev pub profile_file : MaterialStore → Text → PathBuf
profile_file store name = (codes "profile_" ++ name ++ codes ".p7b") ∷ materials_dir store

module _ (store : MaterialStore) where
  pub pending-not_p12 : (id x : Text) → pending_file store id ≢ p12_file store x
  pending-not_p12 id x =
      differs_at_end id x (materials_dir store) (materials_dir store) 46 46 (codes "pending.json")
        (codes "p12") (omega arith)

  pub pending-not_cer : (id x : Text) → pending_file store id ≢ cer_file store x
  pending-not_cer id x =
      differs_at_end id x (materials_dir store) (materials_dir store) 46 46 (codes "pending.json")
        (codes "cer") (omega arith)

  pub p12-not_cer : (id x : Text) → p12_file store id ≢ cer_file store x
  p12-not_cer id x =
      differs_at_end id x (materials_dir store) (materials_dir store) 46 46 (codes "p12")
        (codes "cer") (omega arith)

  pub pending-not_profile : (id x : Text) → pending_file store id ≢ profile_file store x
  pending-not_profile id x =
      differs_at_end id (codes "profile_" ++ x) (materials_dir store) (materials_dir store) 46 46
        (codes "pending.json") (codes "p7b") (omega arith)

  pub p12-not_profile : (id x : Text) → p12_file store id ≢ profile_file store x
  p12-not_profile id x =
      differs_at_end id (codes "profile_" ++ x) (materials_dir store) (materials_dir store) 46 46
        (codes "p12") (codes "p7b") (omega arith)

  pub cer-not_profile : (id x : Text) → cer_file store id ≢ profile_file store x
  cer-not_profile id x =
      differs_at_end id (codes "profile_" ++ x) (materials_dir store) (materials_dir store) 46 46
        (codes "cer") (codes "p7b") (omega arith)

  pub pending_file-injective : (id x : Text) → pending_file store id ≡ pending_file store x → id ≡ x
  pending_file-injective id x h = append-cancel_right id x (codes ".pending.json") (ap name_of h)

valid_path :
    (r : Result StoreError (Unit {0})) (named : PathBuf) {path : PathBuf}
    → when_valid r named ≡ ok path
    → path ≡ named
valid_path (ok u) named h = sym (ok-injective h)
valid_path (err e) named h = cc

module _ (store : MaterialStore) (id : Text) {path : PathBuf} where
  pub p12_path-named : p12_path store id ≡ ok path → path ≡ p12_file store id
  unfolding p12_path
  p12_path-named h = valid_path (validate_identifier id) (p12_file store id) h

  pub profile_path-named : profile_path store id ≡ ok path → path ≡ profile_file store id
  unfolding profile_path
  profile_path-named h = valid_path (validate_identifier id) (profile_file store id) h

  pub pending_path-named : pending_path store id ≡ ok path → path ≡ pending_file store id
  unfolding pending_path
  pending_path-named h = valid_path (validate_identifier id) (pending_file store id) h
