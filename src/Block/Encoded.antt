-- ===== src/Block/Encoded.antt =====
-- The parts of what `encode_signing_block` writes.
use hap_resigner.Prelude.{
  ℕ, ◌+◌, ◌*◌, ◌≡◌, ap, sym, ◌∙◌, List, [], ◌∷◌, ◌++◌, arith, length, length-append, ok, >>=-eq-ok,
  ok-injective, ok_or, ok_or-eq-ok, subst, Bytes, to_le, length-to_le, IsU32, IsU64, checked_add,
  checked_mul, and_then, u32_try_from,
}
use hap_resigner.Format.{magic_v3}
use hap_resigner.Block.{
  BlockValue, values_size, encode_table, concat_values, encode_signing_block, signing_block_version,
}
use hap_resigner.Block.Table.{length-encode_table}

values_size-eq :
    (total : ℕ) (bs : List BlockValue) {v : ℕ}
    → values_size total bs ≡ ok v
    → v ≡ total + length (concat_values bs)
unfolding values_size concat_values
values_size-eq total [] h = let e = ok-injective h in omega arith
values_size-eq total (b ∷ bs) h =
    let (next, hnext, h') = >>=-eq-ok (ok_or (checked_add total (length b.value)) _) _ h in
    let e : next ≡ total + length b.value = ground (arith, ok_or-eq-ok _ _ hnext) in
    omega (arith, values_size-eq next bs h', length-append b.value (concat_values bs))

trailer_length :
    (table values : Bytes) (n size v : ℕ)
    → length (table ++ (values ++ (to_le 4 n ++ (to_le 8 size ++ (magic_v3 ++ to_le 4 v)))))
      ≡ length table + length values + 32
trailer_length table values n size v = omega (
  arith,
  length-append table (values ++ (to_le 4 n ++ (to_le 8 size ++ (magic_v3 ++ to_le 4 v)))),
  length-append values (to_le 4 n ++ (to_le 8 size ++ (magic_v3 ++ to_le 4 v))),
  length-append (to_le 4 n) (to_le 8 size ++ (magic_v3 ++ to_le 4 v)),
  length-append (to_le 8 size) (magic_v3 ++ to_le 4 v),
  length-to_le 4 n,
  length-to_le 8 size,
  length-to_le 4 v,
)

-- The parts of a written signing block.
pub record Encoded (blocks : List BlockValue) (block : Bytes) : Type 0 where
  pub table : Bytes
  pub rows : encode_table (12 * length blocks) blocks ≡ ok table
  pub count : IsU32 (length blocks)
  pub word : IsU64 (length block)
  pub size : length block ≡ 12 * length blocks + length (concat_values blocks) + 32
  pub layout :
      block
      ≡ table
        ++ (concat_values blocks
            ++ (to_le 4 (length blocks)
                ++ (to_le 8 (length block) ++ (magic_v3 ++ to_le 4 signing_block_version))))

pub encode_signing_block-Encoded :
    (blocks : List BlockValue) {block : Bytes}
    → encode_signing_block blocks ≡ ok block
    → Encoded blocks block
unfolding encode_signing_block
encode_signing_block-Encoded blocks {block} h =
    let n = length blocks in
    let (table_size, h0, h1) = >>=-eq-ok (ok_or (checked_mul n 12) _) _ h in
    let (values, hv, h2) = >>=-eq-ok (values_size 0 blocks) _ h1 in
    let total = and_then (checked_add table_size values) (λ v. checked_add v 32) in
    let (size, hs, h3) = >>=-eq-ok (ok_or total _) _ h2 in
    let (table, ht, h4) = >>=-eq-ok (encode_table table_size blocks) _ h3 in
    let (count, hc, h5) = >>=-eq-ok (ok_or (u32_try_from n) _) _ h4 in
    let e0 : table_size ≡ 12 * n = ground (arith, ok_or-eq-ok _ _ h0) in
    let ec : (count ≡ n) × IsU32 n = ground (arith, ok_or-eq-ok _ _ hc) in
    let es : (size ≡ table_size + values + 32) × IsU64 size = ground (arith, ok_or-eq-ok _ _ hs) in
    let rows = subst (λ k. encode_table k blocks ≡ ok table) e0 ht in
    let shape : block
        ≡ table
          ++ (concat_values blocks
              ++ (to_le 4 n ++ (to_le 8 size ++ (magic_v3 ++ to_le 4 signing_block_version)))) =
      sym (ok-injective h5) ∙ rw (ec.0) in
    let sized : length block ≡ size =
      ap length shape
      ∙ trailer_length table (concat_values blocks) n size signing_block_version
      ∙ omega
          (arith, values_size-eq 0 blocks hv, length-encode_table table_size blocks ht, e0, es.0) in
    record {
      table = table;
      rows = rows;
      count = ec.1;
      word = rw sized es.1;
      size = sized ∙ omega (arith, values_size-eq 0 blocks hv, e0, es.0);
      layout = rw sized shape;
    }
