-- ===== src/Format/Bounds.antt =====
-- What `parse_hap` guarantees of an accepted file: every range that its callers slice lies within.
use hap_resigner.Prelude.{
  ◌==◌, ◌&&◌, not, bytes_eq, Option-cases, ℕ, zero, suc, ◌+◌, ◌-◌, ◌*◌, ◌≤◌, ◌≡◌, refl, ap, false,
  Option, none, some, List, [], ◌∷◌, arith, length, All, get_range, get_range-fits, ok, >>=-eq-ok,
  ok-injective, ok_or, ok_or-eq-ok, fail_if, fail_if-eq-ok, filter_option, is_none, leb,
  checked_add, checked_mul, ltb, ◌||◌, subst, Bytes, Bool-cases, inl, inr, slice,
}
use mathlib.Core.Option
use mathlib.Core.Option.{some-injective}
use hap_resigner.Format.{
  magic_v2, magic_v3, SigningBlockEntry, SigningBlock, HapLayout, read_u32, read_u64, parse_entry,
  parse_entries, parse_trailer, parse_signing_block, parse_hap, find_entry, block_value, find_eocd,
}
use hap_resigner.Format.Eocd.{IsLastEocd, find_eocd_iff}

-- A value lies between the table and the trailer.
pub record InValues (lo hi : ℕ) (e : SigningBlockEntry) : Type 0 where
  pub after_table : lo ≤ e.range.start
  pub ordered : e.range.start ≤ e.range.stop
  pub before_trailer : e.range.stop ≤ hi

-- The block ends at the central directory `cd`; its table, its values and its trailer are disjoint.
pub record IsWithin (cd : ℕ) (b : SigningBlock) : Type 0 where
  pub joined : b.start + b.size ≡ cd
  pub table : b.start + 12 * length b.entries + 32 ≤ cd
  pub values : All (InValues (b.start + 12 * length b.entries) (cd - 32)) b.entries

abbrev pub BlockIsWithin : ℕ → Option SigningBlock → Type 0
BlockIsWithin cd none = Unit
BlockIsWithin cd (some b) = IsWithin cd b

pub record IsValid (bytes : Bytes) (l : HapLayout) : Type 0 where
  pub eocd : IsLastEocd bytes l.eocd_offset
  pub directory : l.central_directory_offset + l.central_directory_size ≡ l.eocd_offset
  pub block : BlockIsWithin l.central_directory_offset l.signing_block

parse_entry-InValues :
    (bytes : Bytes) (start table_size values_end index : ℕ) {e : SigningBlockEntry}
    → parse_entry bytes start table_size values_end index ≡ ok e
    → InValues (start + table_size) values_end e
unfolding parse_entry
parse_entry-InValues bytes start table_size values_end index h = ground arith

abbrev IsTable : ℕ → ℕ → ℕ → List SigningBlockEntry → Type 0
IsTable lo hi rounds es = All (InValues lo hi) es × (length es ≡ rounds)

parse_entries-IsTable :
    (bytes : Bytes) (start table_size values_end rounds index : ℕ) {es : List SigningBlockEntry}
    → parse_entries bytes start table_size values_end rounds index ≡ ok es
    → IsTable (start + table_size) values_end rounds es
unfolding parse_entries
parse_entries-IsTable bytes start table_size values_end zero index h =
    subst (IsTable _ _ _) (ok-injective h) (tt, refl)
parse_entries-IsTable bytes start table_size values_end (suc rounds) index h =
    let (e, parsed, h') = >>=-eq-ok (parse_entry bytes start table_size values_end index) _ h in
    let (es, more, h'') =
      >>=-eq-ok (parse_entries bytes start table_size values_end rounds (index + 1)) _ h' in
    let (all, count) =
      parse_entries-IsTable bytes start table_size values_end rounds (index + 1) more in
    subst (IsTable _ _ _) (ok-injective h'')
      ((parse_entry-InValues bytes start table_size values_end index parsed, all), ap suc count)

parse_trailer-IsWithin :
    (bytes : Bytes) (cd : ℕ) {o : Option SigningBlock}
    → 32 ≤ cd
    → parse_trailer bytes cd ≡ ok o
    → BlockIsWithin cd o
unfolding parse_trailer
parse_trailer-IsWithin bytes cd large h =
    let (size, _, h1) = >>=-eq-ok (read_u64 bytes (cd - 28)) _ h in
    let (_, sized, h2) = >>=-eq-ok (fail_if (ltb size 32 || ltb cd size) _) _ h1 in
    let (count, _, h3) = >>=-eq-ok (read_u32 bytes (cd - 32)) _ h2 in
    let (table_size, counted, h4) = >>=-eq-ok (ok_or (checked_mul count 12) _) _ h3 in
    let ends = filter_option (λ stop. leb stop (cd - 32)) (checked_add (cd - size) table_size) in
    let (_, fits, h5) = >>=-eq-ok (fail_if (is_none ends) _) _ h4 in
    let (es, parsed, h6) =
      >>=-eq-ok (parse_entries bytes (cd - size) table_size (cd - 32) count 0) _ h5 in
    let (version, _, h7) = >>=-eq-ok (read_u32 bytes (cd - 4)) _ h6 in
    let (all, rounds) =
      parse_entries-IsTable bytes (cd - size) table_size (cd - 32) count 0 parsed in
    let small : ltb size 32 || ltb cd size ≡ false = fail_if-eq-ok _ _ sized in
    let product : 12 * length es ≡ table_size = ground (arith, ok_or-eq-ok _ _ counted) in
    let table : cd - size + table_size ≤ cd - 32 = ground (arith, fail_if-eq-ok _ _ fits) in
    subst (BlockIsWithin cd) (ok-injective h7)
      (record { joined = ground arith; table = ground arith; values = rw product all })

parse_signing_block-IsWithin :
    (bytes : Bytes) (cd : ℕ) {o : Option SigningBlock}
    → parse_signing_block bytes cd ≡ ok o
    → BlockIsWithin cd o
unfolding parse_signing_block
parse_signing_block-IsWithin bytes cd h = elim (Bool-cases (ltb cd 32)) [
  | inl small ↦ subst (BlockIsWithin cd) (ok-injective (rw small at h)) tt
  | inr large ↦
      let (magic, _, h') =
        >>=-eq-ok (ok_or (get_range (cd - 20) (cd - 4) bytes) _) _ (rw large at h) in
      let other = not (bytes_eq magic magic_v3) && not (bytes_eq magic magic_v2) in
      elim (Bool-cases other) [
        | inl foreign ↦ subst (BlockIsWithin cd) (ok-injective (rw foreign at h')) tt
        | inr ours ↦ parse_trailer-IsWithin bytes cd (ground arith) (rw ours at h')
      ]
]

-- An accepted file has the EOCD record that `find_eocd` looks for, right behind the central
-- directory; a signing block, if there is one, ends where the central directory starts, its
-- table and trailer fit in it, and each of its values lies between the two.
pub parse_hap-IsValid : (bytes : Bytes) {l : HapLayout} → parse_hap bytes ≡ ok l → IsValid bytes l
unfolding parse_hap
parse_hap-IsValid bytes h =
    let (eocd, found, h1) = >>=-eq-ok (ok_or (find_eocd bytes) _) _ h in
    let (cd_size, _, h2) = >>=-eq-ok (read_u32 bytes (eocd + 12)) _ h1 in
    let (cd, _, h3) = >>=-eq-ok (read_u32 bytes (eocd + 16)) _ h2 in
    let ends = filter_option (λ stop. stop == eocd) (checked_add cd cd_size) in
    let (_, joined, h4) = >>=-eq-ok (fail_if (is_none ends) _) _ h3 in
    let (block, parsed, h5) = >>=-eq-ok (parse_signing_block bytes cd) _ h4 in
    subst (IsValid bytes) (ok-injective h5) (record {
      eocd = (find_eocd_iff bytes eocd).0 (ok_or-eq-ok _ _ found);
      directory = ground (arith, fail_if-eq-ok _ _ joined);
      block = parse_signing_block-IsWithin bytes cd parsed;
    })

find_entry-InValues :
    (lo hi t : ℕ) (es : List SigningBlockEntry) {e : SigningBlockEntry}
    → All (InValues lo hi) es
    → find_entry es t ≡ some e
    → InValues lo hi e
unfolding find_entry
find_entry-InValues lo hi t [] v h = cc
find_entry-InValues lo hi t (x ∷ es) (v, vs) h = elim (Bool-cases (x.block_type == t)) [
  | inl same ↦ subst (InValues lo hi) (some-injective _ _ (rw same at h)) v
  | inr other ↦ find_entry-InValues lo hi t es vs (rw other at h)
]

-- In an accepted file the value of an entry is always there: `block_value` answers `none` only
-- for a type that the table does not have, and otherwise the bytes of the first such entry.
pub block_value_lem :
    (bytes : Bytes) {l : HapLayout} {b : SigningBlock} (t : ℕ)
    → parse_hap bytes ≡ ok l
    → l.signing_block ≡ some b
    → block_value b bytes t
      ≡ Option.map (λ e. slice e.range.start e.range.stop bytes) (find_entry b.entries t)
unfolding block_value
block_value_lem bytes {l} {b} t h has =
    let valid = parse_hap-IsValid bytes h in
    let within = rw has at valid.block in
    let fits = valid.eocd.here.fits in
    elim (Option-cases (find_entry b.entries t)) [
      | inl absent ↦ rw absent
      | inr (e, present) ↦
          let v = find_entry-InValues _ _ t b.entries within.values present in
          rw present (
            get_range-fits e.range.start e.range.stop bytes v.ordered
              (omega (arith, v.before_trailer, valid.directory, fits)))
    ]
