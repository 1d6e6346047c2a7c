-- ===== src/CodeSign/Placed.antt =====
-- Where the parts of the property block come to stand in the signed file.
use hap_resigner.Prelude.{
  ℕ, ◌+◌, ◌*◌, ◌%◌, ◌≤◌, ◌<◌, ◌≡◌, ap, sym, ◌∙◌, Bool, ◌++◌, arith, append_assoc, length,
  length-append, replicate, ok, >>=-eq-ok, ok-injective, ok_or, ok_or-eq-ok, fail_if, and_then, not,
  ◌==◌, Bytes, to_le, codes, length-to_le, checked_add, u32_try_from,
}
use hap_resigner.SignErrors.{CodeSignError}
use hap_resigner.CodeSign.Sizes.{put_u32, round_up_page}
use hap_resigner.CodeSign.Segments.{encode_segment_header, encode_fsverity_info_segment, flag}
use hap_resigner.CodeSign.SignInfo.{put_u32-eq}
use hap_resigner.CodeSign.Property.{
  code_sign_magic, code_sign_sub_block_type, tree_offset_of, zero_padding_of, encode_header,
  encode_code_sign, encode_property,
}

put_u32-length :
    (output : Bytes) (value : ℕ) {r : Bytes}
    → put_u32 output value ≡ ok r
    → length r ≡ length output + 4
unfolding put_u32
put_u32-length output value h =
    let (word, _, h') = >>=-eq-ok (ok_or (u32_try_from value) CodeSignError.size_limit) _ h in
    ap length (sym (ok-injective h'))
    ∙ length-append output (to_le 4 word)
    ∙ omega (arith, length-to_le 4 word)

encode_segment_header-length :
    (output : Bytes) (kind offset size : ℕ) {r : Bytes}
    → encode_segment_header output kind offset size ≡ ok r
    → length r ≡ length output + 12
unfolding encode_segment_header
encode_segment_header-length output kind offset size h =
    let (placed, hp, h') = >>=-eq-ok (put_u32 (output ++ to_le 4 kind) offset) _ h in
    omega (
      arith,
      put_u32-length (output ++ to_le 4 kind) offset hp,
      put_u32-length placed size h',
      length-append output (to_le 4 kind),
      length-to_le 4 kind,
    )

pub encode_header-length :
    (size : ℕ) (native : Bool) (first second third : ℕ × ℕ) {r : Bytes}
    → encode_header size native first second third ≡ ok r
    → length r ≡ 68
unfolding encode_header
encode_header-length size native (a, b) (c, d) (e, f) h =
    let start = to_le 8 code_sign_magic ++ to_le 4 1 in
    let (sized, hs, h1) = >>=-eq-ok (put_u32 start size) _ h in
    let flags = 1 + 2 * flag native in
    let fixed = ((sized ++ to_le 4 3) ++ to_le 4 flags) ++ replicate 8 0 in
    let (one, h_one, h2) = >>=-eq-ok (encode_segment_header fixed 1 a b) _ h1 in
    let (two, h_two, h3) = >>=-eq-ok (encode_segment_header one 2 c d) _ h2 in
    let fixed_length : length fixed ≡ length sized + 16 = omega (
      arith,
      length-append ((sized ++ to_le 4 3) ++ to_le 4 flags) (replicate 8 0),
      length-append (sized ++ to_le 4 3) (to_le 4 flags),
      length-append sized (to_le 4 3),
      length-to_le 4 3,
      length-to_le 4 flags,
    ) in
    let start_length : length start ≡ 12 = omega (
      arith,
      length-append (to_le 8 code_sign_magic) (to_le 4 1),
      length-to_le 8 code_sign_magic,
      length-to_le 4 1,
    ) in
    omega (
      arith,
      put_u32-length start size hs,
      encode_segment_header-length fixed 1 a b h_one,
      encode_segment_header-length one 2 c d h_two,
      encode_segment_header-length two 3 e f h3,
    )

-- A property block that stands 12 bytes before `at`: it says how long its code-sign block is and that it
-- stands at `at`; the block has a header, less than a page of zeros, the tree on a page of the file, and
-- the segments.
pub record IsPlaced (at tree_offset : ℕ) (tree hap property : Bytes) : Type 0 where
  pub code_sign : Bytes
  pub says :
      property
      ≡ (to_le 4 code_sign_sub_block_type ++ (to_le 4 (length code_sign) ++ to_le 4 at))
        ++ code_sign
  pub header : Bytes
  pub header_size : length header ≡ 68
  pub zeros : ℕ
  pub few : zeros < 4096
  pub native : Bytes
  pub shape :
      code_sign
      ≡ header ++ (replicate zeros 0 ++ (tree ++ (encode_fsverity_info_segment ++ (hap ++ native))))
  pub aligned : tree_offset % 4096 ≡ 0
  pub placed : at + 68 + zeros ≡ tree_offset

encode_code_sign-shape :
    (z : ℕ) (tree fsverity hap native : Bytes) (has_native : Bool) {r : Bytes}
    → encode_code_sign z tree fsverity hap native has_native ≡ ok r
    → (header : Bytes) × (length header ≡ 68)
      × (r ≡ header ++ (replicate z 0 ++ (tree ++ (fsverity ++ (hap ++ native)))))
unfolding encode_code_sign
encode_code_sign-shape z tree fsverity hap native has_native h =
    let at_first = and_then (checked_add 68 z) (λ size. checked_add size (length tree)) in
    let (first, _, h1) = >>=-eq-ok (ok_or at_first CodeSignError.size_limit) _ h in
    let (second, _, h2) =
      >>=-eq-ok (ok_or (checked_add first (length fsverity)) CodeSignError.size_limit) _ h1 in
    let (third, _, h3) =
      >>=-eq-ok (ok_or (checked_add second (length hap)) CodeSignError.size_limit) _ h2 in
    let (size, _, h4) =
      >>=-eq-ok (ok_or (checked_add third (length native)) CodeSignError.size_limit) _ h3 in
    let (header, built, h5) =
      >>=-eq-ok
        (encode_header size has_native (first, length fsverity) (second, length hap)
          (third, length native))
        _ h4 in
    let (padded, _, h6) =
      >>=-eq-ok (ok_or (checked_add (length header) z) CodeSignError.size_limit) _ h5 in
    let whole = header ++ (replicate z 0 ++ (tree ++ (fsverity ++ (hap ++ native)))) in
    let (_, _, h7) =
      >>=-eq-ok
        (fail_if (not (length whole == size))
          (CodeSignError.invalid_structure (codes "code-sign block size mismatch")))
        _ h6 in
    (header, encode_header-length size has_native _ _ _ built, sym (ok-injective h7))

encode_property-shape :
    (code_sign : Bytes) (at : ℕ) {r : Bytes}
    → encode_property code_sign at ≡ ok r
    → r
      ≡ (to_le 4 code_sign_sub_block_type ++ (to_le 4 (length code_sign) ++ to_le 4 at))
        ++ code_sign
unfolding encode_property
encode_property-shape code_sign at h =
    let kind = to_le 4 code_sign_sub_block_type in
    let (sized, hs, h1) = >>=-eq-ok (put_u32 kind (length code_sign)) _ h in
    let (placed, hp, h2) = >>=-eq-ok (put_u32 sized at) _ h1 in
    sym (ok-injective h2)
    ∙ ap (λ p. p ++ code_sign)
        (put_u32-eq sized at hp
          ∙ ap (λ t. t ++ to_le 4 at) (put_u32-eq kind (length code_sign) hs)
          ∙ append_assoc kind (to_le 4 (length code_sign)) (to_le 4 at))

tree_offset_of-page :
    (at : ℕ) {t : ℕ}
    → tree_offset_of at ≡ ok t
    → (t % 4096 ≡ 0) × (at + 68 ≤ t) × (t < at + 68 + 4096)
unfolding tree_offset_of
tree_offset_of-page at h =
    let (ends, he, h1) = >>=-eq-ok (ok_or (checked_add at 68) CodeSignError.size_limit) _ h in
    let sum : ends ≡ at + 68 = ground (arith, ok_or-eq-ok _ _ he) in
    let (below, above, page) = round_up_page ends h1 in (page, omega arith, omega arith)

zero_padding_of-eq :
    (t at : ℕ) {z : ℕ} → zero_padding_of t at ≡ ok z → at + 68 ≤ t → at + 68 + z ≡ t
unfolding zero_padding_of
zero_padding_of-eq t at h below = ground arith

pub property-IsPlaced :
    (at : ℕ) {t z : ℕ} (tree hap native : Bytes) (has_native : Bool) {code_sign property : Bytes}
    → tree_offset_of at ≡ ok t
    → zero_padding_of t at ≡ ok z
    → encode_code_sign z tree encode_fsverity_info_segment hap native has_native ≡ ok code_sign
    → encode_property code_sign at ≡ ok property
    → IsPlaced at t tree hap property
property-IsPlaced at {t} {z} tree hap native has_native {code_sign} ht hz hc hp =
    let (page, below, above) = tree_offset_of-page at ht in
    let padding = zero_padding_of-eq t at hz below in
    let (header, sized, shape) =
      encode_code_sign-shape z tree encode_fsverity_info_segment hap native has_native hc in
    record {
      code_sign = code_sign;
      says = encode_property-shape code_sign at hp;
      header = header;
      header_size = sized;
      zeros = z;
      few = omega arith;
      native = native;
      shape = shape;
      aligned = page;
      placed = padding;
    }
