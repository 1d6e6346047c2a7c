-- ===== src/Block/Patch.antt =====
-- `write_u32` of sign.rs on the EOCD record: the record stays one, and stays the last one.
use hap_resigner.Prelude.{
  ℕ, ◌+◌, ◌-◌, ◌≤◌, ◌≡◌, refl, ap, sym, ◌∙◌, some, ◌++◌, arith, append_assoc, take-append,
  drop-append, length-take, length, length-append, take, drop, slice, slice-append_right,
  slice-patch_before, slice-patch_behind, length-patch, get_range, get_range-fits, IsU32, ok, Bytes,
  to_le, from_le, length-to_le, subst,
}
use hap_resigner.Format.{find_eocd, read_u32}
use hap_resigner.Format.Eocd.{IsEocdAt, find_eocd_iff}
use hap_resigner.Block.{write_u32}
use hap_resigner.Block.Table.{read_u32_at}

-- A record at the end of a file is one of the bytes from anywhere before it on.
behind :
    (front tail : Bytes) (k : ℕ) → IsEocdAt tail k → IsEocdAt (front ++ tail) (length front + k)
behind front tail k h =
    let size = length-append front tail in
    record {
      fits = omega (arith, size, h.fits);
      signature =
          slice-append_right (length front + k) (length front + k + 4) k (k + 4) front tail refl
            (omega arith)
          ∙ h.signature;
      comment =
          rw
            (slice-append_right (length front + k + 20) (length front + k + 22) (k + 20) (k + 22)
              front tail (omega arith) (omega arith))
            (omega (arith, size, h.comment));
    }

alone : (front tail : Bytes) (k : ℕ) → IsEocdAt (front ++ tail) (length front + k) → IsEocdAt tail k
alone front tail k h =
    let size = length-append front tail in
    record {
      fits = omega (arith, size, h.fits);
      signature =
          sym (
            slice-append_right (length front + k) (length front + k + 4) k (k + 4) front tail refl
              (omega arith))
          ∙ h.signature;
      comment =
          rw
            (← (
              slice-append_right (length front + k + 20) (length front + k + 22) (k + 20) (k + 22)
                front tail (omega arith) (omega arith)))
            (omega (arith, size, h.comment));
    }

-- The new value of the word at 16 does not touch the signature and the comment length of a
-- record that starts at most 12 bytes into the tail.
abbrev pub patched : Bytes → ℕ → Bytes
patched tail v = take 16 tail ++ (to_le 4 v ++ drop 20 tail)

module _ (tail : Bytes) (v k : ℕ) (near : k ≤ 12) (fits : k + 22 ≤ length tail) where
  patched_signature : slice k (k + 4) (patched tail v) ≡ slice k (k + 4) tail
  patched_signature =
      slice-patch_before k (k + 4) 16 20 tail (to_le 4 v) (omega arith) (omega arith) (omega arith)

  patched_comment : slice (k + 20) (k + 22) (patched tail v) ≡ slice (k + 20) (k + 22) tail
  patched_comment =
      slice-patch_behind (k + 20) (k + 22) 16 20 tail (to_le 4 v) (omega arith) (omega arith)
        (omega (arith, length-to_le 4 v)) (omega arith)

  length-patched_near : length (patched tail v) ≡ length tail
  length-patched_near =
      length-patch 16 20 tail (to_le 4 v) (omega (arith, length-to_le 4 v)) (omega arith)

  patch-IsEocdAt : IsEocdAt tail k → IsEocdAt (patched tail v) k
  patch-IsEocdAt h = record {
    fits = omega (arith, length-patched_near, h.fits);
    signature = patched_signature ∙ h.signature;
    comment = rw (patched_comment, length-patched_near) h.comment;
  }

  unpatch-IsEocdAt : IsEocdAt (patched tail v) k → IsEocdAt tail k
  unpatch-IsEocdAt h = record {
    fits = fits;
    signature = sym patched_signature ∙ h.signature;
    comment = rw (← patched_comment) (omega (arith, length-patched_near, h.comment));
  }

pub write_u32-patched :
    (tail : Bytes) (v : ℕ) {tail' : Bytes}
    → write_u32 tail 16 v ≡ ok tail'
    → (tail' ≡ patched tail v) × (20 ≤ length tail)
unfolding write_u32 get_range
write_u32-patched tail v h = ground arith

-- Twice the same word: the second value stands.
pub patched-patched :
    (tail : Bytes) (v w : ℕ) → 20 ≤ length tail → patched (patched tail v) w ≡ patched tail w
patched-patched tail v w h =
    let m : length (take 16 tail) ≡ 16 = omega (arith, length-take 16 tail) in
    let front : take 16 (patched tail v) ≡ take 16 tail = take-append 16 (take 16 tail) _ (sym m) in
    let split : patched tail v ≡ (take 16 tail ++ to_le 4 v) ++ drop 20 tail =
      sym (append_assoc (take 16 tail) (to_le 4 v) (drop 20 tail)) in
    let back : drop 20 (patched tail v) ≡ drop 20 tail =
      ap (drop 20) split
      ∙ drop-append 20 (take 16 tail ++ to_le 4 v) (drop 20 tail)
          (omega (arith, m, length-append (take 16 tail) (to_le 4 v), length-to_le 4 v)) in
    rw (front, back)

pub length-patched :
    (tail : Bytes) (v : ℕ) → 22 ≤ length tail → length (patched tail v) ≡ length tail
length-patched tail v h = length-patched_near tail v 0 (omega arith) (omega arith)

-- Behind any front, the record with its new word is still a record.
pub patch_found :
    (front front' tail : Bytes) (v : ℕ)
    → find_eocd (front ++ tail) ≡ some (length front)
    → IsEocdAt (front' ++ patched tail v) (length front')
      × (22 ≤ length tail)
      × (length tail ≤ 22 + 65535)
patch_found front front' tail v h =
    let last = (find_eocd_iff (front ++ tail) (length front)).0 h in
    let first : length front ≡ length front + 0 = omega arith in
    let first' : length front' + 0 ≡ length front' = omega arith in
    let here = alone front tail 0 (subst (IsEocdAt (front ++ tail)) first last.here) in
    let fits = here.fits in
    let near = last.near in
    let size = length-append front tail in
    (
      subst (IsEocdAt (front' ++ patched tail v)) first' (
          behind front' (patched tail v) 0
            (patch-IsEocdAt tail v 0 (omega arith) (omega arith) here)),
      omega arith,
      omega arith,
    )

-- Behind any other front, the record that `find_eocd` found is with a new word at 16 still the one
-- that it finds, if
-- its comment has at most 12 bytes: a longer one could spell a signature across the new word.
pub find_eocd-patched :
    (front front' tail : Bytes) (v : ℕ)
    → find_eocd (front ++ tail) ≡ some (length front)
    → length tail ≤ 34
    → find_eocd (front' ++ patched tail v) ≡ some (length front')
find_eocd-patched front front' tail v h short =
    let last = (find_eocd_iff (front ++ tail) (length front)).0 h in
    let size = length-append front tail in
    let (here, fits, _) = patch_found front front' tail v h in
    let same = length-patched_near tail v 0 (omega arith) (omega arith) in
    let size' = length-append front' (patched tail v) in
    (find_eocd_iff (front' ++ patched tail v) (length front')).1 (record {
      here = here;
      near = omega arith;
      none_later = λ j p e.
          let k = j - length front' in
          let split : j ≡ length front' + k = omega arith in
          let e' =
            alone front' (patched tail v) k (subst (IsEocdAt (front' ++ patched tail v)) split e) in
          let room = e'.fits in
          last.none_later (length front + k) (omega arith)
            (behind front tail k (unpatch-IsEocdAt tail v k (omega arith) (omega arith) e'));
    })

read_u32-slice :
    (bytes : Bytes) (o : ℕ)
    → o + 4 ≤ length bytes
    → read_u32 bytes o ≡ ok (from_le (slice o (o + 4) bytes))
unfolding read_u32
read_u32-slice bytes o h = rw (get_range-fits o (o + 4) bytes (omega arith) h)

read_u32-append :
    (front tail : Bytes) (k : ℕ)
    → k + 4 ≤ length tail
    → read_u32 (front ++ tail) (length front + k) ≡ ok (from_le (slice k (k + 4) tail))
read_u32-append front tail k h =
    read_u32-slice (front ++ tail) (length front + k) (omega (arith, length-append front tail))
    ∙ ap (λ b. ok (from_le b))
        (slice-append_right (length front + k) (length front + k + 4) k (k + 4) front tail refl
          (omega arith))

-- The word before the new one is read as before.
pub read_u32-patched :
    (front front' tail : Bytes) (v : ℕ)
    → 22 ≤ length tail
    → read_u32 (front' ++ patched tail v) (length front' + 12)
      ≡ read_u32 (front ++ tail) (length front + 12)
read_u32-patched front front' tail v h =
    read_u32-append front' (patched tail v) 12
      (omega (arith, length-patched_near tail v 0 (omega arith) (omega arith)))
    ∙ ap (λ b. ok (from_le b))
        (slice-patch_before 12 16 16 20 tail (to_le 4 v) (omega arith) (omega arith) (omega arith))
    ∙ sym (read_u32-append front tail 12 (omega arith))

-- The new word is read back.
pub read_u32-patched_word :
    (front tail : Bytes) (v : ℕ)
    → 22 ≤ length tail
    → IsU32 v
    → read_u32 (front ++ patched tail v) (length front + 16) ≡ ok v
read_u32-patched_word front tail v h w =
    read_u32_at (front ++ patched tail v) (front ++ take 16 tail) (drop 20 tail) (length front + 16)
      v (sym (append_assoc front (take 16 tail) (to_le 4 v ++ drop 20 tail)))
      (omega (arith, length-append front (take 16 tail), length-take 16 tail)) w
