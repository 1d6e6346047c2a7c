-- ===== src/CodeSign/Merkle.antt =====
-- `generate_merkle_tree` of code_sign.rs. SHA-256 is a parameter.
use mathlib.Core.List.{reverse}
use hap_resigner.Prelude.{
  ℕ, zero, suc, ◌+◌, ◌-◌, ◌*◌, List, [], ◌∷◌, ◌++◌, ltb, leb, ◌==◌, if◌then◌else◌, length, take,
  replicate, Result, ok, ◌>>=◌, ok_or, Bytes, checked_add, checked_mul, chunks, div_ceil, overwrite,
  flatten,
}
use hap_resigner.SignErrors.{CodeSignError}
use hap_resigner.CodeSign.Sizes.{fsverity_block_size, sha256_size, round_up}

-- `for (index, page) in pages.enumerate()`: each digest is written at its place in the level.
unfoldable pub write_digests : (Bytes → Bytes) → ℕ → List Bytes → Bytes → Bytes
write_digests hash index [] level = level
write_digests hash index (page ∷ pages) level =
    write_digests hash (index + 1) pages (overwrite (index * sha256_size) (hash page) level)

-- `levels.iter().try_fold(0, |total, level| total.checked_add(level.len()))`.
unfoldable pub tree_size : ℕ → List Bytes → Result CodeSignError ℕ
tree_size total [] = ok total
tree_size total (level ∷ levels) = do
  next ← ok_or (checked_add total (length level)) CodeSignError.size_limit
  tree_size next levels

module _ (sha256 : Bytes → Bytes) where
  unfoldable pub hash_padded_page : Bytes → Bytes
  hash_padded_page page = sha256 (
      page
      ++ (if ltb (length page) fsverity_block_size
          then replicate (fsverity_block_size - length page) 0
          else []))

  -- The body of the `while` loop.
  unfoldable pub parent_level : Bytes → Result CodeSignError Bytes
  parent_level child = do
    digest_bytes ←
        ok_or (checked_mul (div_ceil (length child) fsverity_block_size) sha256_size)
          CodeSignError.size_limit
    parent_size ← round_up digest_bytes fsverity_block_size
    ok (write_digests sha256 0 (chunks fsverity_block_size child) (replicate parent_size 0))

  -- `levels` is the last level and those below it, the latest first. The fuel is the length of the
  -- leaf level: each parent is shorter.
  unfoldable pub build_levels : ℕ → Bytes → List Bytes → Result CodeSignError (Bytes × List Bytes)
  build_levels zero last below = ok (last, below)
  build_levels (suc fuel) last below =
      if ltb fsverity_block_size (length last)
      then (do parent ← parent_level last; build_levels fuel parent (last ∷ below))
      else ok (last, below)

  unfoldable pub leaf_level : Bytes → Result CodeSignError Bytes
  leaf_level bytes = do
    digest_bytes ←
        ok_or (checked_mul (div_ceil (length bytes) fsverity_block_size) sha256_size)
          CodeSignError.size_limit
    leaf_size ← round_up digest_bytes fsverity_block_size
    ok (write_digests hash_padded_page 0 (chunks fsverity_block_size bytes) (replicate leaf_size 0))

  -- The root hash and the tree, whose top level comes first.
  unfoldable pub tree_of_leaves : Bytes → Result CodeSignError (Bytes × Bytes)
  tree_of_leaves leaves = do
    (last, below) ← build_levels (length leaves) leaves []
    size ← tree_size 0 (reverse (last ∷ below))
    ok (sha256 (take fsverity_block_size last), flatten (last ∷ below))

  unfoldable pub generate_merkle_tree : Bytes → Result CodeSignError (Bytes × Bytes)
  generate_merkle_tree bytes = if length bytes == 0 then ok (replicate sha256_size 0, []) else do
    leaves ← leaf_level bytes
    if leb (length bytes) fsverity_block_size
        then ok (take sha256_size leaves, [])
        else tree_of_leaves leaves
