-- ===== src/CodeSign/MerkleLaws.antt =====
-- The tree of `generate_merkle_tree` against its description as an inductive relation.
use mathlib.Core.List.{reverse}
use hap_resigner.Prelude.{
  ℕ, zero, suc, ◌+◌, ◌-◌, ◌*◌, ◌/◌, ◌%◌, ◌≤◌, ◌<◌, ◌≡◌, refl, ap, sym, ◌∙◌, subst, false, List, [],
  ◌∷◌, ◌++◌, map, arith, append_assoc, append-nil, length, length-append, take, replicate,
  length-replicate, ok, >>=-eq-ok, ok-injective, ok_or, ok_or-eq-ok, Bytes, checked_mul, chunks,
  chunks_count, div_ceil, overwrite, overwrite-append, flatten, ltb, leb, ◌==◌, Bool-cases, inl,
  inr,
}
use hap_resigner.CodeSign.Sizes.{round_up, round_up_page}
use hap_resigner.CodeSign.Merkle.{
  write_digests, hash_padded_page, parent_level, build_levels, leaf_level, tree_size,
  tree_of_leaves, generate_merkle_tree,
}

-- Zeros up to the next multiple of 4096.
abbrev pub pad_page : Bytes → Bytes
pad_page xs = xs ++ replicate ((4096 - length xs % 4096) % 4096) 0

-- The digests of the pages of a level, one behind the other, padded.
abbrev pub next_level : (Bytes → Bytes) → Bytes → Bytes
next_level hash level = pad_page (flatten (map hash (chunks 4096 level)))

-- `root` and `tree` belong to a level: a level of one page is hashed itself, and a longer one has
-- the root of its parent level, whose tree stands before it.
pub data IsTree (hash : Bytes → Bytes) : Bytes → Bytes → Bytes → Type 0 where
  top :
      {level root tree : Bytes}
      → length level ≡ 4096
      → root ≡ hash level
      → tree ≡ level
      → IsTree hash level root tree
  up :
      {level root upper tree : Bytes}
      → 4096 < length level
      → IsTree hash (next_level hash level) root upper
      → tree ≡ upper ++ level
      → IsTree hash level root tree

replicate-split {ℓ} :
    {A : Type ℓ} (a b k : ℕ) (x : A) → k ≡ a + b → replicate k x ≡ replicate a x ++ replicate b x
replicate-split zero b k x h = let e : k ≡ b = omega arith in ap (λ n. replicate n x) e
replicate-split (suc a) b zero x h = absurd (omega arith)
replicate-split (suc a) b (suc k) x h = ap (◌∷◌ x) (replicate-split a b k x (omega arith))

module _ (hash : Bytes → Bytes) (sized : (b : Bytes) → length (hash b) ≡ 32) where
  length-digests : (pages : List Bytes) → length (flatten (map hash pages)) ≡ 32 * length pages
  length-digests [] = omega arith
  length-digests (p ∷ ps) =
      omega (arith, length-append (hash p) (flatten (map hash ps)), sized p, length-digests ps)

  write_digests-eq :
      (index k : ℕ) (pages : List Bytes) (front : Bytes)
      → length front ≡ index * 32
      → 32 * length pages ≤ k
      → write_digests hash index pages (front ++ replicate k 0)
        ≡ front ++ (flatten (map hash pages) ++ replicate (k - 32 * length pages) 0)
  unfolding write_digests
  write_digests-eq index k [] front h room =
      let e : k ≡ k - 32 * 0 = omega arith in ap (λ n. front ++ replicate n 0) e
  write_digests-eq index k (p ∷ ps) front h room =
      let zeros : replicate k 0 ≡ replicate 32 0 ++ replicate (k - 32) 0 =
        replicate-split 32 (k - 32) k 0 (omega arith) in
      let here =
        overwrite-append (index * 32) front (replicate 32 0) (hash p) (replicate (k - 32) 0)
          (omega (arith, h)) (sized p) in
      let rest =
        write_digests-eq (index + 1) (k - 32) ps (front ++ hash p)
          (omega (arith, length-append front (hash p), sized p, h)) (omega arith) in
      let left : k - 32 - 32 * length ps ≡ k - 32 * suc (length ps) = omega arith in
      ap (λ z. write_digests hash (index + 1) ps (overwrite (index * 32) (hash p) (front ++ z)))
        zeros
      ∙ ap (write_digests hash (index + 1) ps)
          (here ∙ sym (append_assoc front (hash p) (replicate (k - 32) 0)))
      ∙ rest
      ∙ append_assoc front (hash p) (flatten (map hash ps) ++ replicate (k - 32 - 32 * length ps) 0)
      ∙ ap (λ t. front ++ t)
          (sym
            (append_assoc (hash p) (flatten (map hash ps)) (replicate (k - 32 - 32 * length ps) 0)))
      ∙ ap (λ n. front ++ ((hash p ++ flatten (map hash ps)) ++ replicate n 0)) left

  -- The buffer that is filled digest by digest is the padded sequence of digests.
  level-eq :
      (level : Bytes) (digest_bytes size : ℕ)
      → digest_bytes ≡ div_ceil (length level) 4096 * 32
      → (digest_bytes ≤ size) × (size < digest_bytes + 4096) × (size % 4096 ≡ 0)
      → write_digests hash 0 (chunks 4096 level) (replicate size 0) ≡ next_level hash level
  level-eq level digest_bytes size e (lo, hi, whole) =
      let pages = chunks 4096 level in
      let count : length pages ≡ div_ceil (length level) 4096 =
        ground (arith, chunks_count 4096 level (omega arith)) in
      let digests = length-digests pages in
      let pad : size - 32 * length pages
          ≡ (4096 - length (flatten (map hash pages)) % 4096) % 4096 =
        omega arith in
      write_digests-eq 0 size pages [] (omega arith) (omega arith)
      ∙ ap (λ n. flatten (map hash pages) ++ replicate n 0) pad

  pub next_level-length :
      (level : Bytes)
      → 0 < length level
      → (4096 ≤ length (next_level hash level))
        × (length (next_level hash level) % 4096 ≡ 0)
        × (4096 < length level → length (next_level hash level) < length level)
        × (length (next_level hash level) < length level / 128 + 4128)
  next_level-length level h =
      let digests = flatten (map hash (chunks 4096 level)) in
      let zeros = (4096 - length digests % 4096) % 4096 in
      let size : length digests ≡ 32 * length (chunks 4096 level) =
        length-digests (chunks 4096 level) in
      let count = chunks_count 4096 level (omega arith) in
      omega (
        arith,
        length-append digests (replicate zeros 0),
        length-replicate {A = ℕ} zeros 0,
        size,
        count.0,
        count.1,
      )

pub take-all {ℓ} : {A : Type ℓ} (n : ℕ) (xs : List A) → length xs ≤ n → take n xs ≡ xs
take-all zero [] h = refl
take-all zero (x ∷ xs) h = absurd (omega arith)
take-all (suc n) [] h = refl
take-all (suc n) (x ∷ xs) h = ap (◌∷◌ x) (take-all n xs (omega arith))

module _ (sha256 : Bytes → Bytes) (sized : (b : Bytes) → length (sha256 b) ≡ 32) where
  pub parent_level-eq :
      (child : Bytes) {parent : Bytes}
      → parent_level sha256 child ≡ ok parent
      → parent ≡ next_level sha256 child
  unfolding parent_level
  parent_level-eq child h =
      let n = div_ceil (length child) 4096 in
      let (digest_bytes, hd, h1) = >>=-eq-ok (ok_or (checked_mul n 32) _) _ h in
      let (size, hs, h2) = >>=-eq-ok (round_up digest_bytes 4096) _ h1 in
      let product : digest_bytes ≡ n * 32 = ground (arith, ok_or-eq-ok _ _ hd) in
      sym (ok-injective h2)
      ∙ level-eq sha256 sized child digest_bytes size product (round_up_page digest_bytes hs)

  pub leaf_level-eq :
      (bytes : Bytes) {leaves : Bytes}
      → leaf_level sha256 bytes ≡ ok leaves
      → leaves ≡ next_level (hash_padded_page sha256) bytes
  unfolding leaf_level hash_padded_page
  leaf_level-eq bytes h =
      let n = div_ceil (length bytes) 4096 in
      let (digest_bytes, hd, h1) = >>=-eq-ok (ok_or (checked_mul n 32) _) _ h in
      let (size, hs, h2) = >>=-eq-ok (round_up digest_bytes 4096) _ h1 in
      let product : digest_bytes ≡ n * 32 = ground (arith, ok_or-eq-ok _ _ hd) in
      sym (ok-injective h2)
      ∙ level-eq (hash_padded_page sha256) (λ b. sized _) bytes digest_bytes size product
          (round_up_page digest_bytes hs)

  build_levels-IsTree :
      (fuel : ℕ) (last : Bytes) (below : List Bytes) {t : Bytes} {bs : List Bytes}
      → length last % 4096 ≡ 0
      → 4096 ≤ length last
      → length last ≤ fuel
      → build_levels sha256 fuel last below ≡ ok (t, bs)
      → (tree : Bytes) × IsTree sha256 last (sha256 (take 4096 t)) tree
        × (flatten (t ∷ bs) ≡ tree ++ flatten below)
  unfolding build_levels
  build_levels-IsTree zero last below {t} {bs} whole some_page enough h = absurd (omega arith)
  build_levels-IsTree (suc fuel) last below {t} {bs} whole some_page enough h =
      elim (Bool-cases (ltb 4096 (length last))) [
        | inl long ↦
            let (parent, hp, h') = >>=-eq-ok (parent_level sha256 last) _ (rw long at h) in
            let e = parent_level-eq last hp in
            let size = next_level-length sha256 sized last (omega arith) in
            let n = ap length e in
            let shrinks = size.2 (ground arith) in
            let (upper, is_tree, split) =
              build_levels-IsTree fuel parent (last ∷ below) (omega (arith, size.1))
                (omega (arith, size.0)) (omega arith) h' in
            (
              upper ++ last,
              up (ground arith)
                  (subst (λ l. IsTree sha256 l (sha256 (take 4096 t)) upper) e is_tree) refl,
              split ∙ sym (append_assoc upper last (flatten below)),
            )
        | inr short ↦
            let pair = ok-injective (rw short at h) in
            let same = ap (λ p. p.0) pair in
            let one : length last ≡ 4096 = ground arith in
            (
              last,
              top one (ap sha256 (ap (take 4096) (sym same) ∙ take-all 4096 last (omega arith)))
                  refl,
              ap (λ p. flatten (p.0 ∷ p.1)) (sym pair),
            )
      ]

  tree_of_leaves-IsTree :
      (leaves : Bytes) {root tree : Bytes}
      → length leaves % 4096 ≡ 0
      → 4096 ≤ length leaves
      → tree_of_leaves sha256 leaves ≡ ok (root, tree)
      → IsTree sha256 leaves root tree
  unfolding tree_of_leaves
  tree_of_leaves-IsTree leaves {root} {tree} whole some_page h =
      let ((last, below), built, h1) =
        >>=-eq-ok (build_levels sha256 (length leaves) leaves []) _ h in
      let (size, _, h2) = >>=-eq-ok (tree_size 0 (reverse (last ∷ below))) _ h1 in
      let (t, is_tree, split) =
        build_levels-IsTree (length leaves) leaves [] whole some_page (omega arith) built in
      let pair = ok-injective h2 in
      let e : t ≡ tree = sym (append-nil t) ∙ sym split ∙ ap (λ p. p.1) pair in
      subst (IsTree sha256 leaves root) e
        (subst (λ r. IsTree sha256 leaves r t) (ap (λ p. p.0) pair) is_tree)

  -- Of more than one page, and with a hash of 32 bytes, the tree that `generate_merkle_tree` returns
  -- is that of the level of the padded pages' digests: each level
  -- above has the digests of the pages of the one below, zero-padded to whole pages, up to a level
  -- of exactly one page, whose digest is the root; the levels stand in the tree from the top down.
  pub generate_merkle_tree-IsTree :
      (bytes : Bytes) {root tree : Bytes}
      → 4096 < length bytes
      → generate_merkle_tree sha256 bytes ≡ ok (root, tree)
      → IsTree sha256 (next_level (hash_padded_page sha256) bytes) root tree
  unfolding generate_merkle_tree hash_padded_page
  generate_merkle_tree-IsTree bytes {root} {tree} large h =
      let some_bytes : (length bytes == 0) ≡ false = ground arith in
      let many : leb (length bytes) 4096 ≡ false = ground arith in
      let (leaves, hl, h') = >>=-eq-ok (leaf_level sha256 bytes) _ (rw some_bytes at h) in
      let e = leaf_level-eq bytes hl in
      let size = next_level-length (hash_padded_page sha256) (λ b. sized _) bytes (omega arith) in
      let n = ap length e in
      subst (λ l. IsTree sha256 l root tree) e
        (tree_of_leaves-IsTree leaves (omega (arith, size.1)) (omega (arith, size.0))
          (rw many at h'))
