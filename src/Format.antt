-- ===== src/Format.antt =====
-- src/hap/format.rs: the layout of a HAP (a ZIP file with a signing block before its central
-- directory), found by its end-of-central-directory record (EOCD).
pub mod Eocd
pub mod Bounds
use hap_resigner.Prelude.{
  ℕ, zero, suc, ◌+◌, ◌-◌, ◌*◌, Bool, true, false, not, ◌&&◌, ◌||◌, Option, none, some, List, [],
  ◌∷◌, ltb, leb, ◌==◌, if◌then◌else◌, bytes_eq, length, slice, get_range, Result, ok, err, ◌>>=◌,
  ◌>>◌, fail_if, ok_or, and_then, filter_option, is_none, Bytes, from_le, checked_add, checked_mul,
}

abbrev pub magic_v3 : Bytes
magic_v3 =
    b'<' ∷ b'h' ∷ b'a' ∷ b'p' ∷ b' ' ∷ b's' ∷ b'i' ∷ b'g' ∷ b'n' ∷ b' ' ∷ b'b' ∷ b'l' ∷ b'o' ∷ b'c'
    ∷ b'k' ∷ b'>' ∷ []

abbrev pub magic_v2 : Bytes
magic_v2 =
    b'H' ∷ b'A' ∷ b'P' ∷ b' ' ∷ b'S' ∷ b'i' ∷ b'g' ∷ b' ' ∷ b'B' ∷ b'l' ∷ b'o' ∷ b'c' ∷ b'k' ∷ b' '
    ∷ b'4' ∷ b'2' ∷ []

abbrev pub type_signer : ℕ
type_signer = 0x2000_0000

abbrev pub type_profile : ℕ
type_profile = 0x2000_0002

abbrev pub type_property : ℕ
type_property = 0x2000_0003

abbrev pub eocd_signature : Bytes
eocd_signature = b'P' ∷ b'K' ∷ 5 ∷ 6 ∷ []

abbrev pub eocd_min_size : ℕ
eocd_min_size = 22

abbrev pub max_zip_comment : ℕ
max_zip_comment = 65535

abbrev pub signing_trailer_size : ℕ
signing_trailer_size = 32

abbrev pub entry_size : ℕ
entry_size = 12

pub data FormatError : Type 0 where
  eocd_not_found invalid_central_directory invalid_signing_block_size : FormatError
  invalid_signing_block_table invalid_signing_block_value : FormatError

-- `Range<usize>`.
pub record Range : Type 0 where
  pub start : ℕ
  pub stop : ℕ

pub record SigningBlockEntry : Type 0 where
  pub block_type : ℕ
  pub range : Range

pub record SigningBlock : Type 0 where
  pub start : ℕ
  pub size : ℕ
  pub version : ℕ
  pub entries : List SigningBlockEntry

pub record HapLayout : Type 0 where
  pub eocd_offset : ℕ
  pub central_directory_offset : ℕ
  pub central_directory_size : ℕ
  pub signing_block : Option SigningBlock

-- `entries.iter().find(|entry| entry.block_type == block_type)`.
unfoldable pub find_entry : List SigningBlockEntry → ℕ → Option SigningBlockEntry
find_entry [] t = none
find_entry (e ∷ es) t = if e.block_type == t then some e else find_entry es t

unfoldable pub block_value : SigningBlock → Bytes → ℕ → Option Bytes
block_value block bytes t =
    and_then (find_entry block.entries t) (λ e. get_range e.range.start e.range.stop bytes)

-- `get` is an option; the comparison with `Some(EOCD_SIGNATURE)`.
abbrev pub is_bytes : Option Bytes → Bytes → Bool
is_bytes none ys = false
is_bytes (some xs) ys = bytes_eq xs ys

-- The body of `find_eocd`'s loop: the signature, and a comment that ends with the file.
unfoldable pub is_eocd_at : Bytes → ℕ → Bool
is_eocd_at bytes offset =
    is_bytes (get_range offset (offset + 4) bytes) eocd_signature
    && (offset + eocd_min_size + from_le (slice (offset + 20) (offset + 22) bytes) == length bytes)

-- `for offset in (first..=last).rev()`: the offset of the round with `k` rounds left is `first + k`.
unfoldable pub find_eocd_loop : Bytes → ℕ → ℕ → Option ℕ
find_eocd_loop bytes first zero = none
find_eocd_loop bytes first (suc k) =
    let rest = find_eocd_loop bytes first k in
    if is_eocd_at bytes (first + k) then some (first + k) else rest

-- `saturating_sub` is `-` on ℕ.
unfoldable pub find_eocd : Bytes → Option ℕ
find_eocd bytes =
    if ltb (length bytes) eocd_min_size
    then none
    else let last = length bytes - eocd_min_size in
      let first = length bytes - (eocd_min_size + max_zip_comment) in
      find_eocd_loop bytes first (last + 1 - first)

unfoldable pub read_u32 : Bytes → ℕ → Result FormatError ℕ
read_u32 bytes offset = do
  four ← ok_or (get_range offset (offset + 4) bytes) invalid_signing_block_size
  ok (from_le four)

unfoldable pub read_u64 : Bytes → ℕ → Result FormatError ℕ
read_u64 bytes offset = do
  eight ← ok_or (get_range offset (offset + 8) bytes) invalid_signing_block_size
  ok (from_le eight)

-- One round of the table loop.
unfoldable pub parse_entry : Bytes → ℕ → ℕ → ℕ → ℕ → Result FormatError SigningBlockEntry
parse_entry bytes start table_size values_end index = do
  let row = start + index * entry_size
  block_type ← read_u32 bytes row
  value_length ← read_u32 bytes (row + 4)
  relative_offset ← read_u32 bytes (row + 8)
  value_start ← ok_or (checked_add start relative_offset) invalid_signing_block_value
  value_end ← ok_or (checked_add value_start value_length) invalid_signing_block_value
  fail_if (ltb value_start (start + table_size) || ltb values_end value_end)
      invalid_signing_block_value
  ok (record { block_type = block_type; range = record { start = value_start; stop = value_end } })

-- `for index in 0..count`, with the rounds left and the index.
unfoldable pub parse_entries :
    Bytes → ℕ → ℕ → ℕ → ℕ → ℕ → Result FormatError (List SigningBlockEntry)
parse_entries bytes start table_size values_end zero index = ok []
parse_entries bytes start table_size values_end (suc rounds) index = do
  entry ← parse_entry bytes start table_size values_end index
  rest ← parse_entries bytes start table_size values_end rounds (index + 1)
  ok (entry ∷ rest)

-- `parse_signing_block` behind its test of the magic. `usize::try_from` of a u64 cannot fail, as
-- `usize` has 64 bits.
unfoldable pub parse_trailer : Bytes → ℕ → Result FormatError (Option SigningBlock)
parse_trailer bytes cd = do
  size ← read_u64 bytes (cd - 28)
  fail_if (ltb size signing_trailer_size || ltb cd size) invalid_signing_block_size
  let start = cd - size
  count ← read_u32 bytes (cd - 32)
  table_size ← ok_or (checked_mul count entry_size) invalid_signing_block_table
  let values_end = cd - signing_trailer_size
  fail_if (is_none (filter_option (λ stop. leb stop values_end) (checked_add start table_size)))
      invalid_signing_block_table
  entries ← parse_entries bytes start table_size values_end count 0
  version ← read_u32 bytes (cd - 4)
  ok (some (record { start = start; size = size; version = version; entries = entries }))

unfoldable pub parse_signing_block : Bytes → ℕ → Result FormatError (Option SigningBlock)
parse_signing_block bytes cd = if ltb cd signing_trailer_size then ok none else do
  magic ← ok_or (get_range (cd - 20) (cd - 4) bytes) invalid_signing_block_size
  if not (bytes_eq magic magic_v3) && not (bytes_eq magic magic_v2)
      then ok none
      else parse_trailer bytes cd

unfoldable pub parse_hap : Bytes → Result FormatError HapLayout
parse_hap bytes = do
  eocd ← ok_or (find_eocd bytes) eocd_not_found
  cd_size ← read_u32 bytes (eocd + 12)
  cd ← read_u32 bytes (eocd + 16)
  fail_if (is_none (filter_option (λ stop. stop == eocd) (checked_add cd cd_size)))
      invalid_central_directory
  signing_block ← parse_signing_block bytes cd
  ok (record {
    eocd_offset = eocd;
    central_directory_offset = cd;
    central_directory_size = cd_size;
    signing_block = signing_block;
  })
