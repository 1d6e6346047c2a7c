-- ===== src/CodeSign/SignInfo.antt =====
-- What `encode_sign_info` writes for the tree of the HAP.
use hap_resigner.Prelude.{
  ℕ, ◌+◌, ◌-◌, ◌%◌, ◌<◌, ◌≡◌, refl, ap, sym, ◌∙◌, some, ◌++◌, arith, append_assoc, length,
  length-append, length-replicate, replicate, resize, ok, >>=-eq-ok, ok-injective, ok_or,
  ok_or-eq-ok, and_then, Bytes, to_le, length-to_le, checked_add, u32_try_from,
}
use hap_resigner.SignErrors.{CodeSignError}
use hap_resigner.CodeSign.Sizes.{put_u32}
use hap_resigner.CodeSign.MerkleLaws.{take-all}
use hap_resigner.CodeSign.Verity.{FsVerityOutput}
use hap_resigner.CodeSign.Segments.{padding, encode_extension, encode_sign_info}

-- The size of the signed data, the signature, padded to words, and behind it the extension with the
-- length, the place and the root of the tree.
pub record IsSignInfo (size tree_offset : ℕ) (cms root tree info : Bytes) : Type 0 where
  pub padding_size : ℕ
  pub few : padding_size < 4
  pub extension_offset : ℕ
  pub words : extension_offset % 4 ≡ 0
  pub offset_is : extension_offset ≡ 60 + length cms + padding_size
  pub head : Bytes
  pub head_is :
      head
      ≡ to_le 4 0
        ++ (to_le 4 (length cms)
            ++ (to_le 4 1
                ++ (to_le 8 size ++ (replicate 32 0 ++ (to_le 4 1 ++ to_le 4 extension_offset)))))
  pub extension : Bytes
  pub extension_is :
      extension
      ≡ to_le 4 1
        ++ (to_le 4 80
            ++ (to_le 8 (length tree) ++ (to_le 8 tree_offset ++ (root ++ replicate 32 0))))
  pub shape : info ≡ head ++ (cms ++ (replicate padding_size 0 ++ extension))

pub put_u32-eq :
    (output : Bytes) (value : ℕ) {r : Bytes}
    → put_u32 output value ≡ ok r
    → r ≡ output ++ to_le 4 value
unfolding put_u32
put_u32-eq output value h =
    let (word, hw, h') = >>=-eq-ok (ok_or (u32_try_from value) CodeSignError.size_limit) _ h in
    let same : word ≡ value = ground (arith, ok_or-eq-ok _ _ hw) in
    sym (ok-injective h') ∙ ap (λ n. output ++ to_le 4 n) same

resize-longer : (n k : ℕ) (xs : Bytes) → n ≡ length xs + k → resize n 0 xs ≡ xs ++ replicate k 0
unfolding resize
resize-longer n k xs h =
    let difference : n - length xs ≡ k = omega arith in
    ap (λ t. t ++ replicate (n - length xs) 0) (take-all n xs (omega arith))
    ∙ ap (λ m. xs ++ replicate m 0) difference

padding-words : (n : ℕ) → (padding n < 4) × ((60 + n + padding n) % 4 ≡ 0)
padding-words n = (omega arith, omega arith)

head_of : ℕ → ℕ → ℕ → Bytes
head_of size cms_size extension_offset =
    to_le 4 0
    ++ (to_le 4 cms_size
        ++ (to_le 4 1
            ++ (to_le 8 size ++ (replicate 32 0 ++ (to_le 4 1 ++ to_le 4 extension_offset)))))

length-head_of : (size cms_size offset : ℕ) → length (head_of size cms_size offset) ≡ 60
unfolding head_of
length-head_of size cms_size offset = omega (
  arith,
  length-append (to_le 4 0) (
      to_le 4 cms_size
      ++ (to_le 4 1 ++ (to_le 8 size ++ (replicate 32 0 ++ (to_le 4 1 ++ to_le 4 offset))))),
  length-append (to_le 4 cms_size)
      (to_le 4 1 ++ (to_le 8 size ++ (replicate 32 0 ++ (to_le 4 1 ++ to_le 4 offset)))),
  length-append (to_le 4 1) (to_le 8 size ++ (replicate 32 0 ++ (to_le 4 1 ++ to_le 4 offset))),
  length-append (to_le 8 size) (replicate 32 0 ++ (to_le 4 1 ++ to_le 4 offset)),
  length-append (replicate 32 0) (to_le 4 1 ++ to_le 4 offset),
  length-append (to_le 4 1) (to_le 4 offset),
  length-to_le 4 0,
  length-to_le 4 cms_size,
  length-to_le 4 1,
  length-to_le 8 size,
  length-to_le 4 offset,
  length-replicate {A = ℕ} 32 0,
)

pub encode_sign_info-IsSignInfo :
    (size : ℕ) (cms : Bytes) (verity : FsVerityOutput) (tree_offset : ℕ) {info : Bytes}
    → encode_sign_info size cms (some (verity, tree_offset)) ≡ ok info
    → IsSignInfo size tree_offset cms verity.root_hash verity.tree info
unfolding encode_sign_info encode_extension head_of
encode_sign_info-IsSignInfo size cms verity tree_offset {info} h =
    let pad = padding (length cms) in
    let sum = and_then (checked_add 60 (length cms)) (λ n. checked_add n pad) in
    let (offset, ho, h1) = >>=-eq-ok (ok_or sum CodeSignError.size_limit) _ h in
    let (total, _, h2) = >>=-eq-ok (ok_or (checked_add offset 88) CodeSignError.size_limit) _ h1 in
    let (sized, hs, h3) = >>=-eq-ok (put_u32 (to_le 4 0) (length cms)) _ h2 in
    let header = ((sized ++ to_le 4 1) ++ to_le 8 size) ++ (replicate 32 0 ++ to_le 4 1) in
    let (placed, hp, h4) = >>=-eq-ok (put_u32 header offset) _ h3 in
    let offset_is : offset ≡ 60 + length cms + pad = ground (arith, ok_or-eq-ok _ _ ho) in
    let head = head_of size (length cms) offset in
    let placed_is : placed ≡ head =
      put_u32-eq header offset hp
      ∙ ap
          (λ s.
            (((s ++ to_le 4 1) ++ to_le 8 size) ++ (replicate 32 0 ++ to_le 4 1)) ++ to_le 4 offset)
          (put_u32-eq (to_le 4 0) (length cms) hs)
      ∙ simp append_assoc in
    let extension = encode_extension (some (verity, tree_offset)) in
    let longer : resize offset 0 (placed ++ cms) ≡ (head ++ cms) ++ replicate pad 0 =
      ap (λ p. resize offset 0 (p ++ cms)) placed_is
      ∙ resize-longer offset pad (head ++ cms) (
          omega
            (arith, offset_is, length-append head cms, length-head_of size (length cms) offset)) in
    let (few, words) = padding-words (length cms) in
    record {
      padding_size = pad;
      few = few;
      extension_offset = offset;
      words = rw offset_is words;
      offset_is = offset_is;
      head = head;
      head_is = refl;
      extension = extension;
      extension_is = refl;
      shape = sym (ok-injective h4) ∙ ap (λ r. r ++ extension) longer ∙ simp append_assoc;
    }
