-- ===== src/CodeSign/MerkleTotal.antt =====
-- What `generate_merkle_tree` returns for inputs below 2 ^ 62 bytes.
use mathlib.Core.List.{reverse, reverse-append}
use hap_resigner.Prelude.{
  true, false, sym, map, replicate, take, drop, take-append, append_assoc, chunks_loop, >>=-eq-ok,
  ok-injective, ℕ, zero, suc, ◌+◌, ◌*◌, ◌/◌, ◌%◌, ◌^◌, ◌≤◌, ◌<◌, ◌≡◌, refl, ap, ◌∙◌, List, [], ◌∷◌,
  ◌++◌, arith, length, length-append, ok, Bytes, chunks, div_ceil, flatten, ltb, leb, ◌==◌,
  Bool-cases, inl, inr, lt→ltb,
}
use hap_resigner.CodeSign.Sizes.{round_up_fits}
use hap_resigner.CodeSign.Merkle.{
  write_digests, hash_padded_page, parent_level, build_levels, leaf_level, tree_size,
  tree_of_leaves, generate_merkle_tree,
}
use hap_resigner.CodeSign.MerkleLaws.{
  pad_page, take-all, IsTree, next_level, next_level-length, parent_level-eq, leaf_level-eq,
  generate_merkle_tree-IsTree,
}

-- The root and the tree of an input of any length.
pub data IsMerkle (sha256 : Bytes → Bytes) (bytes root tree : Bytes) : Type 0 where
  empty : length bytes ≡ 0 → root ≡ replicate 32 0 → tree ≡ [] → IsMerkle sha256 bytes root tree
  page :
      0 < length bytes
      → length bytes ≤ 4096
      → root ≡ hash_padded_page sha256 bytes
      → tree ≡ []
      → IsMerkle sha256 bytes root tree
  pages :
      4096 < length bytes
      → IsTree sha256 (next_level (hash_padded_page sha256) bytes) root tree
      → IsMerkle sha256 bytes root tree

drop-none : (n : ℕ) (xs : Bytes) → length xs ≤ n → drop n xs ≡ []
drop-none zero [] h = refl
drop-none (suc n) [] h = refl
drop-none zero (x ∷ xs) h = absurd (omega arith)
drop-none (suc n) (x ∷ xs) h = drop-none n xs (omega arith)

no_chunks : (fuel n : ℕ) → chunks_loop {A = ℕ} fuel n [] ≡ []
unfolding chunks_loop
no_chunks zero n = refl
no_chunks (suc fuel) n = refl

chunks-one : (n : ℕ) (xs : Bytes) → 0 < length xs → length xs ≤ n → chunks n xs ≡ xs ∷ []
unfolding chunks chunks_loop
chunks-one n [] h k = absurd (omega arith)
chunks-one n (x ∷ xs) h k =
    rw (take-all n (x ∷ xs) k, drop-none n (x ∷ xs) k, no_chunks (length xs) n) refl

flatten-append :
    (xs ys : List Bytes) → length (flatten (xs ++ ys)) ≡ length (flatten xs) + length (flatten ys)
flatten-append [] ys = omega arith
flatten-append (x ∷ xs) ys = omega (
  arith,
  length-append x (flatten (xs ++ ys)),
  length-append x (flatten xs),
  flatten-append xs ys,
)

flatten-reverse : (xs : List Bytes) → length (flatten (reverse xs)) ≡ length (flatten xs)
flatten-reverse [] = refl
flatten-reverse (x ∷ xs) =
    ap (λ l. length (flatten l)) (reverse-append (x ∷ []) xs)
    ∙ omega (
      arith,
      flatten-append (reverse xs) (x ∷ []),
      flatten-reverse xs,
      length-append x (flatten xs),
      length-append x [],
    )

tree_size-fits :
    (total : ℕ) (levels : List Bytes)
    → total + length (flatten levels) < 2 ^ 64
    → tree_size total levels ≡ ok (total + length (flatten levels))
unfolding tree_size
tree_size-fits total [] h = ap ok (omega arith)
tree_size-fits total (l ∷ ls) h =
    let size = length-append l (flatten ls) in
    let test : ltb (total + length l) (2 ^ 64) ≡ true = ground arith in
    rw test (tree_size-fits (total + length l) ls (omega arith) ∙ ap ok (omega arith))

module _ (sha256 : Bytes → Bytes) (sized : (b : Bytes) → length (sha256 b) ≡ 32) where
  -- A level that is built from one below 2 ^ 62 bytes does not meet the size checks.
  room : (level : Bytes) → length level < 2 ^ 62 → div_ceil (length level) 4096 * 32 < 2 ^ 60
  room level h = ground arith

  parent_level-ok :
      (child : Bytes)
      → length child < 2 ^ 62
      → (parent : Bytes) × (parent_level sha256 child ≡ ok parent)
  unfolding parent_level
  parent_level-ok child h =
      let n = div_ceil (length child) 4096 in
      let fits = room child h in
      let test = lt→ltb (n * 32) (2 ^ 64) (omega arith) in
      (
        write_digests sha256 0 (chunks 4096 child) (replicate ((n * 32 + 4095) / 4096 * 4096) 0),
        rw test (rw (round_up_fits (n * 32) (omega arith))),
      )

  leaf_level-ok :
      (bytes : Bytes)
      → length bytes < 2 ^ 62
      → (leaves : Bytes) × (leaf_level sha256 bytes ≡ ok leaves)
  unfolding leaf_level
  leaf_level-ok bytes h =
      let n = div_ceil (length bytes) 4096 in
      let fits = room bytes h in
      let test = lt→ltb (n * 32) (2 ^ 64) (omega arith) in
      (
        write_digests (hash_padded_page sha256) 0 (chunks 4096 bytes)
            (replicate ((n * 32 + 4095) / 4096 * 4096) 0),
        rw test (rw (round_up_fits (n * 32) (omega arith))),
      )

  -- The levels fit twice the lowest one, as each has at most half the bytes of the one below.
  build_levels-ok :
      (fuel : ℕ) (last : Bytes) (below : List Bytes)
      → length last % 4096 ≡ 0
      → 4096 ≤ length last
      → length last < 2 ^ 62
      → (t : Bytes) × (bs : List Bytes) × (build_levels sha256 fuel last below ≡ ok (t, bs))
        × (length (flatten (t ∷ bs)) ≤ 2 * length last + length (flatten below))
  unfolding build_levels
  build_levels-ok zero last below whole some_page small =
      (last, below, refl, omega (arith, length-append last (flatten below)))
  build_levels-ok (suc fuel) last below whole some_page small =
      elim (Bool-cases (ltb 4096 (length last))) [
        | inl long ↦
            let (parent, hp) = parent_level-ok last small in
            let n = ap length (parent_level-eq sha256 sized last hp) in
            let size = next_level-length sha256 sized last (omega arith) in
            let large : 4096 < length last = ground arith in
            let half : 2 * length parent ≤ length last = omega (arith, size.1, size.3) in
            let (t, bs, built, fits) =
              build_levels-ok fuel parent (last ∷ below) (omega (arith, size.1))
                (omega (arith, size.0)) (omega arith) in
            (t, bs, rw long (rw hp built), omega (arith, length-append last (flatten below)))
        | inr short ↦ (last, below, rw short, omega (arith, length-append last (flatten below)))
      ]

  returns :
      (bytes : Bytes)
      → length bytes < 2 ^ 62
      → (root : Bytes) × (tree : Bytes) × (generate_merkle_tree sha256 bytes ≡ ok (root, tree))
  unfolding generate_merkle_tree tree_of_leaves hash_padded_page
  returns bytes small = elim (Bool-cases (length bytes == 0)) [
    | inl e ↦ (replicate 32 0, [], rw e)
    | inr filled ↦
        let (leaves, hl) = leaf_level-ok bytes small in
        let n = ap length (leaf_level-eq sha256 sized bytes hl) in
        let nonempty : 0 < length bytes = ground arith in
        let size = next_level-length (hash_padded_page sha256) (λ b. sized _) bytes nonempty in
        elim (Bool-cases (leb (length bytes) 4096)) [
          | inl one ↦ (take 32 leaves, [], rw filled (rw hl (rw one)))
          | inr many ↦
              let (t, bs, built, fits) =
                build_levels-ok (length leaves) leaves [] (omega (arith, size.1))
                  (omega (arith, size.0)) (omega (arith, size.3)) in
              let total =
                tree_size-fits 0 (reverse (t ∷ bs))
                  (omega (arith, flatten-reverse (t ∷ bs), size.3)) in
              (
                sha256 (take 4096 t),
                flatten (t ∷ bs),
                rw filled (rw hl (rw many (rw built (rw total)))),
              )
        ]
  ]

  first_page :
      (bytes leaves : Bytes)
      → 0 < length bytes
      → length bytes ≤ 4096
      → leaves ≡ next_level (hash_padded_page sha256) bytes
      → take 32 leaves ≡ hash_padded_page sha256 bytes
  unfolding hash_padded_page
  first_page bytes leaves some_bytes short e =
      ap (λ l. take 32 l)
        (e
          ∙ ap (λ pages. pad_page (flatten (map (hash_padded_page sha256) pages)))
              (chunks-one 4096 bytes some_bytes short)
          ∙ append_assoc (hash_padded_page sha256 bytes) [] _)
      ∙ take-append 32 (hash_padded_page sha256 bytes) _ (sym (sized _))

  of_page :
      (bytes : Bytes) {root tree : Bytes}
      → 0 < length bytes
      → length bytes ≤ 4096
      → generate_merkle_tree sha256 bytes ≡ ok (root, tree)
      → IsMerkle sha256 bytes root tree
  unfolding generate_merkle_tree
  of_page bytes {root} {tree} some_bytes short h =
      let filled : (length bytes == 0) ≡ false = ground arith in
      let one : leb (length bytes) 4096 ≡ true = ground arith in
      let (leaves, hl, h') = >>=-eq-ok (leaf_level sha256 bytes) _ (rw filled at h) in
      let pair = ok-injective (rw one at h') in
      page some_bytes short
        (sym (ap (λ p. p.0) pair)
          ∙ first_page bytes leaves some_bytes short (leaf_level-eq sha256 sized bytes hl))
        (sym (ap (λ p. p.1) pair))

  of_empty :
      (bytes : Bytes) {root tree : Bytes}
      → length bytes ≡ 0
      → generate_merkle_tree sha256 bytes ≡ ok (root, tree)
      → IsMerkle sha256 bytes root tree
  unfolding generate_merkle_tree
  of_empty bytes none_there h =
      let test : (length bytes == 0) ≡ true = ground arith in
      let pair = ok-injective (rw test at h) in
      empty none_there (sym (ap (λ p. p.0) pair)) (sym (ap (λ p. p.1) pair))

  -- For every input below 2 ^ 62 bytes, and with a hash of 32 bytes, `generate_merkle_tree` returns the
  -- whole tree of the input: no size check fails. The empty input has a root of zeros, one page has its
  -- padded digest for the root, and with more pages the loop goes on until a level has exactly one page,
  -- whose digest is the root.
  pub generate_merkle_tree-ok :
      (bytes : Bytes)
      → length bytes < 2 ^ 62
      → (root : Bytes) × (tree : Bytes) × (generate_merkle_tree sha256 bytes ≡ ok (root, tree))
        × IsMerkle sha256 bytes root tree
  generate_merkle_tree-ok bytes small =
      let (root, tree, returned) = returns bytes small in
      let is_merkle : IsMerkle sha256 bytes root tree = elim (Bool-cases (length bytes == 0)) [
        | inl e ↦ of_empty bytes (ground arith) returned
        | inr e ↦ elim (Bool-cases (leb (length bytes) 4096)) [
          | inl f ↦ of_page bytes (ground arith) (ground arith) returned
          | inr f ↦
              let large : 4096 < length bytes = ground arith in
              pages large (generate_merkle_tree-IsTree sha256 sized bytes large returned)
        ]
      ] in
      (root, tree, returned, is_merkle)
