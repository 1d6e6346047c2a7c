-- ===== src/Tests/CodeSign.antt =====
-- Runs of the code-sign models at concrete inputs.
use hap_resigner.Prelude.{
  ◌∷◌, [], false, ℕ, ◌+◌, ◌%◌, ◌≤◌, ◌<◌, ◌≡◌, refl, arith, length, replicate, length-replicate, ok,
  Bytes,
}
use hap_resigner.CodeSign.Sizes.{round_up, round_up_page}
use hap_resigner.CodeSign.Merkle.{generate_merkle_tree, hash_padded_page}
use hap_resigner.CodeSign.MerkleLaws.{IsTree, next_level, generate_merkle_tree-IsTree}
use hap_resigner.CodeSign.MerkleTotal.{IsMerkle, generate_merkle_tree-ok}
use hap_resigner.CodeSign.Property.{encode_code_sign}
use hap_resigner.CodeSign.Fits.{encode_code_sign-fits}
use hap_resigner.Tests.Samples.{checksum}

abbrev two_pages : Bytes
two_pages = replicate 5000 7

two_pages-length : length two_pages ≡ 5000
two_pages-length = length-replicate {A = ℕ} 5000 7

round_up_page_example : (5000 ≤ 8192) × (8192 < 5000 + 4096) × (8192 % 4096 ≡ 0)
unfolding round_up
round_up_page_example = round_up_page 5000 refl

generate_merkle_tree-ok_example :
    (root : Bytes) × (tree : Bytes) × (generate_merkle_tree checksum two_pages ≡ ok (root, tree))
    × IsMerkle checksum two_pages root tree
generate_merkle_tree-ok_example =
    generate_merkle_tree-ok checksum (λ b. refl) two_pages (omega (arith, two_pages-length))

generate_merkle_tree-IsTree_example :
    (root : Bytes) × (tree : Bytes) × IsTree checksum
      (next_level (hash_padded_page checksum) two_pages)
      root
      tree
generate_merkle_tree-IsTree_example = (
  generate_merkle_tree-ok_example.0,
  generate_merkle_tree-ok_example.1,
  generate_merkle_tree-IsTree checksum (λ b. refl) two_pages (omega (arith, two_pages-length))
      generate_merkle_tree-ok_example.2,
)

encode_code_sign-fits_example :
    (r : Bytes) × (encode_code_sign 2 (1 ∷ []) (2 ∷ []) (3 ∷ []) [] false ≡ ok r)
encode_code_sign-fits_example =
    encode_code_sign-fits 2 (1 ∷ []) (2 ∷ []) (3 ∷ []) [] false (omega arith)
