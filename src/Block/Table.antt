-- ===== src/Block/Table.antt =====
-- The table of a signing block, as `parse_entries` reads it.
use hap_resigner.Prelude.{
  ℕ, ◌+◌, ◌*◌, ◌≤◌, ◌≡◌, refl, ap, sym, ◌∙◌, List, [], ◌∷◌, ◌++◌, arith, append_assoc, length,
  length-append, All, get_range_middle, ok, >>=-eq-ok, ok-injective, ok_or, ok_or-eq-ok, subst,
  Bytes, to_le, length-to_le, from_le-to_le_u32, from_le-to_le_u64, IsU32, IsU64, checked_add,
}
use hap_resigner.Format.{SigningBlockEntry, read_u32, read_u64, parse_entry, parse_entries}
use hap_resigner.Block.{BlockValue, encode_row, encode_table, concat_values}

-- A word stands at `o`, behind what `front` holds.
pub read_u32_at :
    (bytes front back : Bytes) (o v : ℕ)
    → bytes ≡ front ++ (to_le 4 v ++ back)
    → o ≡ length front
    → IsU32 v
    → read_u32 bytes o ≡ ok v
unfolding read_u32
read_u32_at bytes front back o v split at word = rw split (
    rw (get_range_middle o (o + 4) front (to_le 4 v) back at (omega (arith, length-to_le 4 v)))
      (ap ok (from_le-to_le_u32 v word)))

pub read_u64_at :
    (bytes front back : Bytes) (o v : ℕ)
    → bytes ≡ front ++ (to_le 8 v ++ back)
    → o ≡ length front
    → IsU64 v
    → read_u64 bytes o ≡ ok v
unfolding read_u64
read_u64_at bytes front back o v split at word = rw split (
    rw (get_range_middle o (o + 8) front (to_le 8 v) back at (omega (arith, length-to_le 8 v)))
      (ap ok (from_le-to_le_u64 v word)))

parse_entry_at :
    (bytes front back : Bytes) (start table_size values_end index t n off : ℕ)
    → bytes ≡ front ++ (to_le 4 t ++ (to_le 4 n ++ (to_le 4 off ++ back)))
    → start + index * 12 ≡ length front
    → IsU32 t × IsU32 n × IsU32 off
    → table_size ≤ off
    → start + off + n ≤ values_end
    → IsU64 values_end
    → parse_entry bytes start table_size values_end index
      ≡ ok (record {
        block_type = t;
        range = record { start = start + off; stop = start + off + n };
      })
unfolding parse_entry
parse_entry_at bytes front back start table_size values_end index t n off split at (wt, wn, wo) lo
      hi w =
    let row = start + index * 12 in
    let rest : Bytes = to_le 4 n ++ (to_le 4 off ++ back) in
    let first = read_u32_at bytes front rest row t split at wt in
    let second =
      read_u32_at bytes (front ++ to_le 4 t) (to_le 4 off ++ back) (row + 4) n
        (split ∙ sym (append_assoc front (to_le 4 t) rest))
        (omega (arith, length-append front (to_le 4 t), length-to_le 4 t)) wn in
    let third =
      read_u32_at bytes ((front ++ to_le 4 t) ++ to_le 4 n) back (row + 8) off
        (split ∙ simp append_assoc)
        (omega (
          arith,
          length-append (front ++ to_le 4 t) (to_le 4 n),
          length-append front (to_le 4 t),
          length-to_le 4 t,
          length-to_le 4 n,
        ))
        wo in
    rw (first, second, third) (ground arith)

-- The entries of a table whose values start at `at`, one behind the other.
unfoldable pub entries_at : ℕ → List BlockValue → List SigningBlockEntry
entries_at at [] = []
entries_at at (b ∷ bs) =
    record { block_type = b.block_type; range = record { start = at; stop = at + length b.value } }
    ∷ entries_at (at + length b.value) bs

abbrev pub WordTypes : List BlockValue → Type 0
WordTypes = All (λ b. IsU32 b.block_type)

encode_row_cases :
    (off : ℕ) (b : BlockValue) {row : Bytes}
    → encode_row off b ≡ ok row
    → IsU32 (length b.value)
      × IsU32 off
      × (row ≡ to_le 4 b.block_type ++ (to_le 4 (length b.value) ++ to_le 4 off))
unfolding encode_row
encode_row_cases off b h = ground arith

length-encode_row :
    (off : ℕ) (b : BlockValue) {row : Bytes} → encode_row off b ≡ ok row → length row ≡ 12
length-encode_row off b h =
    let (_, _, shape) = encode_row_cases off b h in
    ap length shape
    ∙ omega (
      arith,
      length-append (to_le 4 b.block_type) (to_le 4 (length b.value) ++ to_le 4 off),
      length-append (to_le 4 (length b.value)) (to_le 4 off),
      length-to_le 4 b.block_type,
      length-to_le 4 (length b.value),
      length-to_le 4 off,
    )

encode_table-cons :
    (off : ℕ) (b : BlockValue) (bs : List BlockValue) {table : Bytes}
    → encode_table off (b ∷ bs) ≡ ok table
    → (row rows : Bytes) × (encode_row off b ≡ ok row)
      × (encode_table (off + length b.value) bs ≡ ok rows)
      × (table ≡ row ++ rows)
unfolding encode_table
encode_table-cons off b bs h =
    let (row, hrow, h1) = >>=-eq-ok (encode_row off b) _ h in
    let (next, hnext, h2) = >>=-eq-ok (ok_or (checked_add off (length b.value)) _) _ h1 in
    let (rows, hrows, h3) = >>=-eq-ok (encode_table next bs) _ h2 in
    let e : next ≡ off + length b.value = ground (arith, ok_or-eq-ok _ _ hnext) in
    (row, rows, hrow, subst (λ k. encode_table k bs ≡ ok rows) e hrows, sym (ok-injective h3))

encode_table-nil : (off : ℕ) {table : Bytes} → encode_table off [] ≡ ok table → table ≡ []
unfolding encode_table
encode_table-nil off h = sym (ok-injective h)

pub length-encode_table :
    (off : ℕ) (bs : List BlockValue) {table : Bytes}
    → encode_table off bs ≡ ok table
    → length table ≡ 12 * length bs
length-encode_table off [] h = ap length (encode_table-nil off h)
length-encode_table off (b ∷ bs) h =
    let (row, rows, hrow, hrows, e) = encode_table-cons off b bs h in
    let row_size = length-encode_row off b hrow in
    ap length e
    ∙ omega (
      arith,
      length-append row rows,
      length-encode_table (off + length b.value) bs hrows,
      row_size,
    )

-- The table loop reads the rows of a written table wherever it stands.
pub parse_entries_at :
    (blocks : List BlockValue) (bytes front back table : Bytes)
    (start table_size values_end index off : ℕ)
    → WordTypes blocks
    → encode_table off blocks ≡ ok table
    → bytes ≡ front ++ (table ++ back)
    → start + index * 12 ≡ length front
    → table_size ≤ off
    → start + off + length (concat_values blocks) ≤ values_end
    → IsU64 values_end
    → parse_entries bytes start table_size values_end (length blocks) index
      ≡ ok (entries_at (start + off) blocks)
unfolding parse_entries entries_at concat_values
parse_entries_at [] bytes front back table start table_size values_end index off wt h split at lo hi
      w =
    refl
parse_entries_at (b ∷ bs) bytes front back table start table_size values_end index off (wt, wts) h
      split at lo hi w =
    let (row, rows, hrow, hrows, e) = encode_table-cons off b bs h in
    let (wn, wo, shape) = encode_row_cases off b hrow in
    let n = length b.value in
    let row_size = length-encode_row off b hrow in
    let here : bytes
        ≡ front ++ (to_le 4 b.block_type ++ (to_le 4 n ++ (to_le 4 off ++ (rows ++ back)))) =
      split ∙ rw (e, shape) (simp append_assoc) in
    let split' : bytes ≡ (front ++ row) ++ (rows ++ back) = split ∙ rw e (simp append_assoc) in
    let fits = length-append b.value (concat_values bs) in
    let entry =
      parse_entry_at bytes front (rows ++ back) start table_size values_end index b.block_type n off
        here at (wt, wn, wo) lo (omega (arith, fits)) w in
    let rest =
      parse_entries_at bs bytes (front ++ row) back rows start table_size values_end (index + 1)
        (off + n) wts hrows split' (omega (arith, length-append front row)) (omega arith)
        (omega (arith, fits)) w in
    let e' : start + (off + n) ≡ start + off + n = omega arith in rw (entry, rest, e')
