-- ===== src/CodeSign/Segments.antt =====
-- The segments of the code-sign block: `encode_sign_info`, `encode_fsverity_info_segment`,
-- `encode_native_segment` and `encode_segment_header` of code_sign.rs.
use hap_resigner.Prelude.{
  ℕ, ◌-◌, ◌%◌, Bool, Option, none, some, List, [], ◌∷◌, ◌++◌, if◌then◌else◌, length, replicate,
  resize, Result, ok, ◌>>=◌, ok_or, and_then, is_some, Bytes, Text, to_le, checked_add, checked_mul,
  overwrite,
}
use hap_resigner.SignErrors.{CodeSignError}
use hap_resigner.CodeSign.Sizes.{put_u32}
use hap_resigner.CodeSign.Verity.{FsVerityOutput}

abbrev pub fsverity_info_magic : ℕ
fsverity_info_magic = 0x1E38_31AB

abbrev pub hap_info_magic : ℕ
hap_info_magic = 0xC1B5_CC66

abbrev pub native_info_magic : ℕ
native_info_magic = 0x0ED2_E720

-- `(4 - n % 4) % 4`.
abbrev pub padding : ℕ → ℕ
padding n = (4 - n % 4) % 4

abbrev pub flag : Bool → ℕ
flag b = if b then 1 else 0

-- The extension with the Merkle tree's place, root hash and size.
unfoldable pub encode_extension : Option (FsVerityOutput × ℕ) → Bytes
encode_extension none = []
encode_extension (some (fsverity, tree_offset)) =
    to_le 4 1
    ++ (to_le 4 80
        ++ (to_le 8 (length fsverity.tree)
            ++ (to_le 8 tree_offset ++ (fsverity.root_hash ++ replicate 32 0))))

unfoldable pub encode_sign_info :
    ℕ → Bytes → Option (FsVerityOutput × ℕ) → Result CodeSignError Bytes
encode_sign_info data_size cms merkle = do
  let signature_padding = padding (length cms)
  let extension_size = if is_some merkle then 88 else 0
  extension_offset ←
      ok_or (and_then (checked_add 60 (length cms)) (λ size. checked_add size signature_padding))
        CodeSignError.size_limit
  total_size ← ok_or (checked_add extension_offset extension_size) CodeSignError.size_limit
  sized ← put_u32 (to_le 4 0) (length cms)
  let header =
      ((sized ++ to_le 4 (flag (is_some merkle))) ++ to_le 8 data_size)
      ++ (replicate 32 0 ++ to_le 4 (flag (is_some merkle)))
  placed ← put_u32 header extension_offset
  ok (resize extension_offset 0 (placed ++ cms) ++ encode_extension merkle)

-- The writes into `[0_u8; 64]`.
unfoldable pub encode_fsverity_info_segment : Bytes
encode_fsverity_info_segment = overwrite 6 (12 ∷ []) (
    overwrite 5 (1 ∷ [])
      (overwrite 4 (1 ∷ []) (overwrite 0 (to_le 4 fsverity_info_magic) (replicate 64 0))))

-- The two `try_fold`s over lengths.
unfoldable pub sum_lengths : ℕ → List Bytes → Result CodeSignError ℕ
sum_lengths total [] = ok total
sum_lengths total (b ∷ bs) = do
  next ← ok_or (checked_add total (length b)) CodeSignError.size_limit
  sum_lengths next bs

abbrev pub names : List (Text × Bytes) → List Bytes
names [] = []
names ((name, sign_info) ∷ infos) = name ∷ names infos

abbrev pub sign_infos : List (Text × Bytes) → List Bytes
sign_infos [] = []
sign_infos ((name, sign_info) ∷ infos) = sign_info ∷ sign_infos infos

-- The loop that writes the positions, with its two running offsets.
unfoldable pub put_positions : Bytes → ℕ → ℕ → List (Text × Bytes) → Result CodeSignError Bytes
put_positions output name_offset sign_info_offset [] = ok output
put_positions output name_offset sign_info_offset ((name, sign_info) ∷ infos) = do
  out1 ← put_u32 output name_offset
  out2 ← put_u32 out1 (length name)
  out3 ← put_u32 out2 sign_info_offset
  out4 ← put_u32 out3 (length sign_info)
  next_name ← ok_or (checked_add name_offset (length name)) CodeSignError.size_limit
  next_info ← ok_or (checked_add sign_info_offset (length sign_info)) CodeSignError.size_limit
  put_positions out4 next_name next_info infos

-- `extend_from_slice` of each part.
unfoldable pub concat : List Bytes → Bytes
concat [] = []
concat (b ∷ bs) = b ++ concat bs

unfoldable pub encode_native_segment : List (Text × Bytes) → Result CodeSignError Bytes
encode_native_segment infos = do
  positions_size ← ok_or (checked_mul (length infos) 16) CodeSignError.size_limit
  names_size ← sum_lengths 0 (names infos)
  let names_padding = padding names_size
  sign_infos_size ← sum_lengths 0 (sign_infos infos)
  names_base ← ok_or (checked_add 12 positions_size) CodeSignError.size_limit
  sign_infos_base ←
      ok_or (and_then (checked_add names_base names_size) (λ size. checked_add size names_padding))
        CodeSignError.size_limit
  segment_size ← ok_or (checked_add sign_infos_base sign_infos_size) CodeSignError.size_limit
  sized ← put_u32 (to_le 4 native_info_magic) segment_size
  counted ← put_u32 sized (length infos)
  positioned ← put_positions counted names_base sign_infos_base infos
  ok (resize sign_infos_base 0 (positioned ++ concat (names infos)) ++ concat (sign_infos infos))

unfoldable pub encode_segment_header : Bytes → ℕ → ℕ → ℕ → Result CodeSignError Bytes
encode_segment_header output segment_type offset size = do
  placed ← put_u32 (output ++ to_le 4 segment_type) offset
  put_u32 placed size
