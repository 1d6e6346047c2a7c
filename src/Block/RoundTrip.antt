-- ===== src/Block/RoundTrip.antt =====
-- What `encode_signing_block` writes, `parse_signing_block` reads back.
use hap_resigner.Prelude.{
  ℕ, ◌+◌, ◌-◌, ◌*◌, ◌≤◌, ◌≡◌, refl, ap, ◌∙◌, Option, none, some, List, [], ◌∷◌, ◌++◌, arith,
  append_assoc, length, length-append, get_range, get_range_middle, ok, Bytes, bytes_eq_iff, to_le,
  length-to_le, IsU64, Bool-cases, inl, inr, if◌then◌else◌, ◌==◌, and_then,
}
use hap_resigner.Format.{
  SigningBlock, magic_v3, read_u32, read_u64, parse_entries, parse_trailer, parse_signing_block,
  find_entry, block_value,
}
use hap_resigner.Block.{BlockValue, concat_values, encode_signing_block, signing_block_version}
use hap_resigner.Block.Table.{
  read_u32_at, read_u64_at, entries_at, WordTypes, length-encode_table, parse_entries_at,
}
use hap_resigner.Block.Encoded.{Encoded, encode_signing_block-Encoded}

-- The block that `parse_signing_block` finds at `start`, from the blocks that were written there.
abbrev pub written : ℕ → List BlockValue → Bytes → SigningBlock
written start blocks block = record {
  start = start;
  size = length block;
  version = signing_block_version;
  entries = entries_at (start + 12 * length blocks) blocks;
}

module _ (blocks : List BlockValue) (block before after : Bytes) (types : WordTypes blocks)
    (e : Encoded blocks block) (room : IsU64 (length before + length block)) where
  bytes : Bytes
  bytes = before ++ (block ++ after)

  cd : ℕ
  cd = length before + length block

  -- Everything before the trailer.
  body : Bytes
  body = before ++ (e.table ++ concat_values blocks)

  cd-body : cd ≡ length body + 32
  unfolding cd body
  cd-body = omega (
    arith,
    length-append before (e.table ++ concat_values blocks),
    length-append e.table (concat_values blocks),
    length-encode_table (12 * length blocks) blocks e.rows,
    e.size,
  )

  bytes-body :
      bytes
      ≡ body
        ++ (to_le 4 (length blocks)
            ++ (to_le 8 (length block) ++ (magic_v3 ++ (to_le 4 signing_block_version ++ after))))
  unfolding bytes body
  bytes-body = ap (λ b. before ++ (b ++ after)) e.layout ∙ simp append_assoc

  front1 : Bytes
  front1 = body ++ to_le 4 (length blocks)

  front2 : Bytes
  front2 = front1 ++ to_le 8 (length block)

  front3 : Bytes
  front3 = front2 ++ magic_v3

  fronts : (length front1 + 28 ≡ cd) × (length front2 + 20 ≡ cd) × (length front3 + 4 ≡ cd)
  unfolding front1 front2 front3
  fronts = omega (
    arith,
    cd-body,
    length-append body (to_le 4 (length blocks)),
    length-append (body ++ to_le 4 (length blocks)) (to_le 8 (length block)),
    length-append ((body ++ to_le 4 (length blocks)) ++ to_le 8 (length block)) magic_v3,
    length-to_le 4 (length blocks),
    length-to_le 8 (length block),
  )

  count_read : read_u32 bytes (cd - 32) ≡ ok (length blocks)
  count_read =
      read_u32_at bytes body _ (cd - 32) (length blocks) bytes-body (omega (arith, cd-body)) e.count

  size_read : read_u64 bytes (cd - 28) ≡ ok (length block)
  unfolding front1
  size_read =
      read_u64_at bytes front1 (magic_v3 ++ (to_le 4 signing_block_version ++ after)) (cd - 28)
        (length block) (bytes-body ∙ simp append_assoc) (omega (arith, fronts.0)) e.word

  magic_read : get_range (cd - 20) (cd - 4) bytes ≡ some magic_v3
  unfolding front1 front2
  magic_read =
      let split : bytes ≡ front2 ++ (magic_v3 ++ (to_le 4 signing_block_version ++ after)) =
        bytes-body ∙ simp append_assoc in
      rw split (
        get_range_middle (cd - 20) (cd - 4) front2 magic_v3 _ (omega (arith, fronts.1))
          (omega (arith, fronts.1)))

  version_read : read_u32 bytes (cd - 4) ≡ ok signing_block_version
  unfolding front1 front2 front3
  version_read =
      read_u32_at bytes front3 after (cd - 4) signing_block_version (bytes-body ∙ simp append_assoc)
        (omega (arith, fronts.2)) (omega arith)

  entries_read :
      parse_entries bytes (length before) (12 * length blocks) (cd - 32) (length blocks) 0
      ≡ ok (entries_at (length before + 12 * length blocks) blocks)
  unfolding body cd
  entries_read =
      parse_entries_at blocks bytes before
        (concat_values blocks
          ++ (to_le 4 (length blocks)
              ++ (to_le 8 (length block)
                  ++ (magic_v3 ++ (to_le 4 signing_block_version ++ after)))))
        e.table (length before) (12 * length blocks) (cd - 32) 0 (12 * length blocks) types e.rows
        (bytes-body ∙ simp append_assoc) (omega arith) (omega arith) (omega (arith, e.size))
        (omega arith)

  trailer_read : parse_trailer bytes cd ≡ ok (some (written (length before) blocks block))
  unfolding parse_trailer
  trailer_read =
      let small : length block ≤ cd = unfold cd in omega arith in
      let start : cd - length block ≡ length before = unfold cd in omega arith in
      let product : length blocks * 12 ≡ 12 * length blocks = omega arith in
      rw (size_read, count_read, version_read)
        (ground (arith, cd-body, e.size, room, entries_read, start, product, small))

  block_read : parse_signing_block bytes cd ≡ ok (some (written (length before) blocks block))
  unfolding parse_signing_block
  block_read =
      rw magic_read (ground (arith, cd-body, trailer_read, (bytes_eq_iff magic_v3 magic_v3).1 refl))

-- `parse_signing_block` finds a block that `encode_signing_block` wrote, wherever it stands in a
-- file: its start, its size, version 3, and an entry for each block in order, with the ranges
-- where the values were written. The conditions: each block type has 32 bits, and the block ends
-- below 2 ^ 64.
pub parse-encode_signing_block :
    (blocks : List BlockValue) (block before after : Bytes)
    → WordTypes blocks
    → encode_signing_block blocks ≡ ok block
    → IsU64 (length before + length block)
    → parse_signing_block (before ++ (block ++ after)) (length before + length block)
      ≡ ok (some (written (length before) blocks block))
unfolding bytes cd
parse-encode_signing_block blocks block before after types h room =
    block_read blocks block before after types (encode_signing_block-Encoded blocks h) room

-- `blocks.iter().find(…)`, the value of the first block of a type.
abbrev pub first_value : List BlockValue → ℕ → Option Bytes
first_value [] t = none
first_value (b ∷ bs) t = if b.block_type == t then some b.value else first_value bs t

value_at :
    (blocks : List BlockValue) (bytes front back : Bytes) (at t : ℕ)
    → bytes ≡ front ++ (concat_values blocks ++ back)
    → at ≡ length front
    → and_then
        (find_entry (entries_at at blocks) t)
        (λ x. get_range x.range.start x.range.stop bytes)
      ≡ first_value blocks t
unfolding find_entry entries_at concat_values
value_at [] bytes front back at t split e = refl
value_at (b ∷ bs) bytes front back at t split e =
    let here : bytes ≡ front ++ (b.value ++ (concat_values bs ++ back)) =
      split ∙ simp append_assoc in
    let later : bytes ≡ (front ++ b.value) ++ (concat_values bs ++ back) =
      split ∙ simp append_assoc in
    let rest =
      value_at bs bytes (front ++ b.value) back (at + length b.value) t later
        (omega (arith, length-append front b.value)) in
    elim (Bool-cases (b.block_type == t)) [
      | inl same ↦ rw same (
          rw here (
            get_range_middle at (at + length b.value) front b.value (concat_values bs ++ back) e
              (omega arith)))
      | inr other ↦ rw other rest
    ]

-- `block_value` of the block that is found there is the value of the first block of that type
-- among those that `encode_signing_block` wrote, and `none` where there is none.
pub block_value-written :
    (blocks : List BlockValue) (block before after : Bytes) (t : ℕ)
    → encode_signing_block blocks ≡ ok block
    → block_value (written (length before) blocks block) (before ++ (block ++ after)) t
      ≡ first_value blocks t
unfolding block_value
block_value-written blocks block before after t h =
    let e = encode_signing_block-Encoded blocks h in
    let trailer =
      to_le 4 (length blocks)
      ++ (to_le 8 (length block) ++ (magic_v3 ++ to_le 4 signing_block_version)) in
    value_at blocks (before ++ (block ++ after)) (before ++ e.table) (trailer ++ after)
      (length before + 12 * length blocks) t
      (ap (λ b. before ++ (b ++ after)) e.layout ∙ simp append_assoc)
      (omega (
        arith,
        length-append before e.table,
        length-encode_table (12 * length blocks) blocks e.rows,
      ))
