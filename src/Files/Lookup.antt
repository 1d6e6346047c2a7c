-- ===== src/Files/Lookup.antt =====
-- What stands at a path after a write or a removal.
use hap_resigner.Prelude.{
  ◌≡◌, ◌≢◌, ◌↔◌, inl, inr, refl, sym, ap, ◌∙◌, Bool, true, false, ◌&&◌, none, some, [], ◌∷◌,
  Bool-cases, if◌then◌else◌, bytes_eq, bytes_eq_iff, Bytes, Text,
}
use mathlib.Core.List.{Memᴰ}
use mathlib.Core.List.Memᴰ.{head, tail}
use hap_resigner.Files.{
  PathBuf, Node, file, directory, Nodes, path_eq, lookup, put, delete, as_file, contents, children,
}

and_step :
    (c d : Text) (p q : PathBuf) (b e : Bool)
    → bytes_eq c d ≡ b
    → (e ≡ true) ↔ (p ≡ q)
    → ((b && e) ≡ true) ↔ (◌≡◌ {A = PathBuf} (c ∷ p) (d ∷ q))
and_step c d p q true e h k = (λ x. cc ((bytes_eq_iff c d).0 h, k.0 x), λ x. k.1 (ap behind x))
  where
    behind : PathBuf → PathBuf
    behind [] = []
    behind (x ∷ xs) = xs
and_step c d p q false e h k = (λ x. cc, λ x. cc ((bytes_eq_iff c d).1 (ap front x), h))
  where
    front : PathBuf → Text
    front [] = []
    front (x ∷ xs) = x

pub path_eq_iff : (p q : PathBuf) → (path_eq p q ≡ true) ↔ (p ≡ q)
unfolding path_eq
path_eq_iff [] [] = (λ h. refl, λ h. refl)
path_eq_iff [] (d ∷ q) = (λ h. cc, λ h. cc)
path_eq_iff (c ∷ p) [] = (λ h. cc, λ h. cc)
path_eq_iff (c ∷ p) (d ∷ q) = and_step c d p q (bytes_eq c d) (path_eq p q) refl (path_eq_iff p q)

pub path_eq_self : (p : PathBuf) → path_eq p p ≡ true
path_eq_self p = (path_eq_iff p p).1 refl

pub path_eq_other : (p q : PathBuf) → p ≢ q → path_eq p q ≡ false
path_eq_other p q h = elim (Bool-cases (path_eq p q)) [
  | inl e ↦ absurd (h ((path_eq_iff p q).0 e))
  | inr e ↦ e
]

pub lookup-put :
    (q p : PathBuf) (node : Node) (nodes : Nodes)
    → lookup q (put p node nodes) ≡ (if path_eq q p then some node else lookup q nodes)
unfolding lookup put
lookup-put q p node [] = refl
lookup-put q p node ((r, old) ∷ rest) = elim (Bool-cases (path_eq p r)) [
  | inr e ↦ elim (Bool-cases (path_eq q r)) [
    | inl k ↦ rw e (
        rw k (
          rw
            (path_eq_other q p (λ m. cc ((path_eq_iff p r).1 (sym m ∙ (path_eq_iff q r).0 k), e)))))
    | inr k ↦ rw e (rw k (lookup-put q p node rest))
  ]
  | inl e ↦ rw e (same ((path_eq_iff p r).0 e))
]
  where
    by_test :
        (b : Bool)
        → (if b then some node else lookup q rest)
          ≡ (if b then some node else (if b then some old else lookup q rest))
    by_test true = refl
    by_test false = refl

    same :
        p ≡ r
        → (if path_eq q r then some node else lookup q rest)
          ≡ (if path_eq q p then some node else (if path_eq q r then some old else lookup q rest))
    same m = rw m (by_test (path_eq q r))

pub lookup-delete :
    (q p : PathBuf) (nodes : Nodes)
    → lookup q (delete p nodes) ≡ (if path_eq q p then none else lookup q nodes)
unfolding lookup delete
lookup-delete q p [] = elim (Bool-cases (path_eq q p)) [ inl e ↦ rw e | inr e ↦ rw e ]
lookup-delete q p ((r, old) ∷ rest) = elim (Bool-cases (path_eq p r)) [
  | inl e ↦ rw e (lookup-delete q p rest ∙ same ((path_eq_iff p r).0 e))
  | inr e ↦ elim (Bool-cases (path_eq q r)) [
    | inl k ↦ rw e (
        rw k (
          rw
            (path_eq_other q p (λ m. cc ((path_eq_iff p r).1 (sym m ∙ (path_eq_iff q r).0 k), e)))))
    | inr k ↦ rw e (rw k (lookup-delete q p rest))
  ]
]
  where
    by_test :
        (b : Bool)
        → (if b then none else lookup q rest)
          ≡ (if b then none else (if b then some old else lookup q rest))
    by_test true = refl
    by_test false = refl

    same :
        p ≡ r
        → (if path_eq q p then none else lookup q rest)
          ≡ (if path_eq q p then none else (if path_eq q r then some old else lookup q rest))
    same m = rw m (by_test (path_eq q r))

pub contents-put_same :
    (p : PathBuf) (b : Bytes) (nodes : Nodes) → contents p (put p (file b) nodes) ≡ some b
unfolding contents
contents-put_same p b nodes = rw (lookup-put p p (file b) nodes) (rw (path_eq_self p))

pub contents-put_other :
    (q p : PathBuf) (node : Node) (nodes : Nodes)
    → q ≢ p
    → contents q (put p node nodes) ≡ contents q nodes
unfolding contents
contents-put_other q p node nodes h = rw (lookup-put q p node nodes) (rw (path_eq_other q p h))

pub contents-delete_same : (p : PathBuf) (nodes : Nodes) → contents p (delete p nodes) ≡ none
unfolding contents
contents-delete_same p nodes = rw (lookup-delete p p nodes) (rw (path_eq_self p))

pub contents-delete_other :
    (q p : PathBuf) (nodes : Nodes) → q ≢ p → contents q (delete p nodes) ≡ contents q nodes
unfolding contents
contents-delete_other q p nodes h = rw (lookup-delete q p nodes) (rw (path_eq_other q p h))

-- A new directory stands where nothing stood, and so hides no file.
pub contents-make :
    (q p : PathBuf) (nodes : Nodes)
    → lookup p nodes ≡ none
    → contents q (put p directory nodes) ≡ contents q nodes
unfolding contents
contents-make q p nodes h = elim (Bool-cases (path_eq q p)) [
  | inl e ↦ rw (lookup-put q p directory nodes) (rw e (rw ((path_eq_iff q p).0 e) (rw h)))
  | inr e ↦ rw (lookup-put q p directory nodes) (rw e)
]

-- A file of a directory is among its entries.
pub contents-children :
    (c : Text) (p : PathBuf) (nodes : Nodes) {b : Bytes}
    → contents (c ∷ p) nodes ≡ some b
    → Memᴰ (c ∷ p) (children p nodes)
unfolding contents lookup children path_eq
contents-children c p [] h = cc
contents-children c p (([], node) ∷ rest) h = contents-children c p rest h
contents-children c p ((d ∷ q, node) ∷ rest) {b = b} h = elim (Bool-cases (path_eq p q)) [
  | inr e ↦ rw e (contents-children c p rest (and_false (bytes_eq c d) (rw e at h)))
  | inl e ↦ elim (Bool-cases (bytes_eq c d)) [
    | inl k ↦
        rw e (head (ap (◌∷◌ c) ((path_eq_iff p q).0 e) ∙ ap (λ x. x ∷ q) ((bytes_eq_iff c d).0 k)))
    | inr k ↦ rw e (tail (contents-children c p rest (rw k at h)))
  ]
]
  where
    and_false :
        (t : Bool)
        → as_file (if t && false then some node else lookup (c ∷ p) rest) ≡ some b
        → as_file (lookup (c ∷ p) rest) ≡ some b
    and_false true k = k
    and_false false k = k
