-- ===== src/Sign/Input.antt =====
-- How `sign_hap` splits its input: the parts are those of an accepted file.
use hap_resigner.Prelude.{
  ℕ, ◌+◌, ◌≤◌, ◌≡◌, ap, ◌∙◌, subst, Option, none, some, ◌++◌, arith, length, length-take,
  length-slice, take, drop, take-append-drop, ok, >>=-eq-ok, ok-injective, ok_or, ok_or-eq-ok,
  fail_if, is_none, filter_option, checked_add, ◌==◌, Bytes,
}
use hap_resigner.Format.{
  HapLayout, SigningBlock, find_eocd, read_u32, parse_signing_block, parse_hap,
}
use hap_resigner.Format.Bounds.{BlockIsWithin, parse_hap-IsValid}
use hap_resigner.Sign.{block_start, Parts, split_parts}

-- The parts fit together: the EOCD record is one, and it gives the size of the directory.
pub record IsSplit (parts : Parts) (start : ℕ) : Type 0 where
  pub front : Bytes
  pub start_is : length parts.before ≡ start
  pub found : find_eocd (front ++ parts.eocd) ≡ some (length front)
  pub directory :
      read_u32 (front ++ parts.eocd) (length front + 12) ≡ ok (length parts.central_directory)

-- What `parse_hap` read: the record's offset and the word behind it.
parse_hap_words :
    (bytes : Bytes) {l : HapLayout}
    → parse_hap bytes ≡ ok l
    → (find_eocd bytes ≡ some l.eocd_offset)
      × (read_u32 bytes (l.eocd_offset + 12) ≡ ok l.central_directory_size)
unfolding parse_hap
parse_hap_words bytes {l} h =
    let (eocd, found, h1) = >>=-eq-ok (ok_or (find_eocd bytes) _) _ h in
    let (cd_size, sized, h2) = >>=-eq-ok (read_u32 bytes (eocd + 12)) _ h1 in
    let (cd, _, h3) = >>=-eq-ok (read_u32 bytes (eocd + 16)) _ h2 in
    let ends = filter_option (λ stop. stop == eocd) (checked_add cd cd_size) in
    let (_, _, h4) = >>=-eq-ok (fail_if (is_none ends) _) _ h3 in
    let (block, _, h5) = >>=-eq-ok (parse_signing_block bytes cd) _ h4 in
    subst
      (λ (x : HapLayout).
        (find_eocd bytes ≡ some x.eocd_offset)
        × (read_u32 bytes (x.eocd_offset + 12) ≡ ok x.central_directory_size))
      (ok-injective h5) (ok_or-eq-ok _ _ found, sized)

start-le :
    (cd : ℕ) (o : Option SigningBlock)
    → BlockIsWithin cd o
    → elim o [ none ↦ cd | some block ↦ block.start ] ≤ cd
start-le cd none w = omega arith
start-le cd (some b) w = omega (arith, w.joined)

pub block_start-le :
    (bytes : Bytes) {l : HapLayout}
    → parse_hap bytes ≡ ok l
    → block_start l ≤ l.central_directory_offset
unfolding block_start
block_start-le bytes {l} h =
    start-le l.central_directory_offset l.signing_block (parse_hap-IsValid bytes h).block

pub split_parts-IsSplit :
    (bytes : Bytes) {l : HapLayout}
    → parse_hap bytes ≡ ok l
    → IsSplit (split_parts bytes l) (block_start l)
unfolding split_parts
split_parts-IsSplit bytes {l} h =
    let valid = parse_hap-IsValid bytes h in
    let (found, sized) = parse_hap_words bytes h in
    let o = l.eocd_offset in
    let cd = l.central_directory_offset in
    let joined = valid.directory in
    let fits = valid.eocd.here.fits in
    let start = block_start-le bytes h in
    let whole : take o bytes ++ drop o bytes ≡ bytes = take-append-drop o bytes in
    let at : length (take o bytes) ≡ o = omega (arith, length-take o bytes) in
    record {
      front = take o bytes;
      start_is = omega (arith, length-take (block_start l) bytes);
      found = rw (whole, at) found;
      directory =
          rw (whole, at)
            (sized
              ∙ ap ok (
                  omega
                    (arith, length-slice cd (cd + l.central_directory_size) bytes (omega arith))));
    }
