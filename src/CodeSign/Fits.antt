-- ===== src/CodeSign/Fits.antt =====
-- The code-sign block is encoded whenever its size has 32 bits.
use hap_resigner.Prelude.{
  ℕ, ◌+◌, ◌*◌, ◌<◌, ◌^◌, ◌≡◌, refl, Bool, true, some, ◌++◌, arith, length, length-append,
  length-replicate, replicate, ok, lt→ltb, ◌==◌, ==_iff, Bytes, to_le, IsU32, checked_add,
}
use hap_resigner.CodeSign.Sizes.{put_u32}
use hap_resigner.CodeSign.Segments.{encode_segment_header, flag}
use hap_resigner.CodeSign.Property.{code_sign_magic, encode_header, encode_code_sign}
use hap_resigner.CodeSign.Placed.{encode_header-length}

put_u32-fits :
    (output : Bytes) (value : ℕ) → IsU32 value → put_u32 output value ≡ ok (output ++ to_le 4 value)
unfolding put_u32
put_u32-fits output value h = rw (lt→ltb value (2 ^ 32) h)

encode_segment_header-fits :
    (output : Bytes) (kind offset size : ℕ)
    → IsU32 offset
    → IsU32 size
    → encode_segment_header output kind offset size
      ≡ ok (((output ++ to_le 4 kind) ++ to_le 4 offset) ++ to_le 4 size)
unfolding encode_segment_header
encode_segment_header-fits output kind offset size h k =
    rw (put_u32-fits (output ++ to_le 4 kind) offset h)
      (put_u32-fits ((output ++ to_le 4 kind) ++ to_le 4 offset) size k)

encode_header-fits :
    (size : ℕ) (native : Bool) (a b c d e f : ℕ)
    → IsU32 size
    → IsU32 a
    → IsU32 b
    → IsU32 c
    → IsU32 d
    → IsU32 e
    → IsU32 f
    → (r : Bytes) × (encode_header size native (a, b) (c, d) (e, f) ≡ ok r)
unfolding encode_header
encode_header-fits size native a b c d e f hs ha hb hc hd he hf =
    let start = to_le 8 code_sign_magic ++ to_le 4 1 in
    let sized = start ++ to_le 4 size in
    let fixed = ((sized ++ to_le 4 3) ++ to_le 4 (1 + 2 * flag native)) ++ replicate 8 0 in
    let one = ((fixed ++ to_le 4 1) ++ to_le 4 a) ++ to_le 4 b in
    let two = ((one ++ to_le 4 2) ++ to_le 4 c) ++ to_le 4 d in
    (
      ((two ++ to_le 4 3) ++ to_le 4 e) ++ to_le 4 f,
      rw (put_u32-fits start size hs) (
          rw (encode_segment_header-fits fixed 1 a b ha hb) (
            rw (encode_segment_header-fits one 2 c d hc hd)
              (encode_segment_header-fits two 3 e f he hf))),
    )

checked_add-fits : (a b : ℕ) → a + b < 2 ^ 64 → checked_add a b ≡ some (a + b)
checked_add-fits a b h = rw (lt→ltb (a + b) (2 ^ 64) h)

-- Where the header, the padding, the tree and the three segments have less than 2 ^ 32 bytes together,
-- `encode_code_sign` returns a block: no size check fails, and the error for a size mismatch is not
-- returned.
pub encode_code_sign-fits :
    (z : ℕ) (tree fsverity hap native : Bytes) (has_native : Bool)
    → 68 + z + length tree + length fsverity + length hap + length native < 2 ^ 32
    → (r : Bytes) × (encode_code_sign z tree fsverity hap native has_native ≡ ok r)
unfolding encode_code_sign
encode_code_sign-fits z tree fsverity hap native has_native h =
    let first = 68 + z + length tree in
    let second = first + length fsverity in
    let third = second + length hap in
    let size = third + length native in
    let (header, built) =
      encode_header-fits size has_native first (length fsverity) second (length hap) third
        (length native) (omega arith) (omega arith) (omega arith) (omega arith) (omega arith)
        (omega arith) (omega arith) in
    let n = encode_header-length size has_native _ _ _ built in
    let whole = header ++ (replicate z 0 ++ (tree ++ (fsverity ++ (hap ++ native)))) in
    let total : length whole ≡ size = omega (
      arith,
      n,
      length-append header (replicate z 0 ++ (tree ++ (fsverity ++ (hap ++ native)))),
      length-append (replicate z 0) (tree ++ (fsverity ++ (hap ++ native))),
      length-append tree (fsverity ++ (hap ++ native)),
      length-append fsverity (hap ++ native),
      length-append hap native,
      length-replicate {A = ℕ} z 0,
    ) in
    let same : (length whole == size) ≡ true = (==_iff (length whole) size).1 total in
    (
      whole,
      rw (checked_add-fits 68 z (omega arith)) (
          rw (checked_add-fits (68 + z) (length tree) (omega arith)) (
            rw (checked_add-fits first (length fsverity) (omega arith)) (
              rw (checked_add-fits second (length hap) (omega arith)) (
                rw (checked_add-fits third (length native) (omega arith)) (
                  rw built (
                    rw (checked_add-fits (length header) z (omega (arith, n))) (rw same refl))))))),
    )
