-- ===== src/Sign/Tree.antt =====
-- The fs-verity tree in the file that `sign_hap` returns.
use hap_resigner.Prelude.{ℕ, ◌+◌, ◌*◌, ◌%◌, ◌≡◌, List, ◌∷◌, ◌++◌, length, slice, ok, Bytes}
use hap_resigner.Format.{type_property}
use hap_resigner.External.{Libraries, SigningIdentity}
use hap_resigner.Block.{BlockValue}
use hap_resigner.Block.Encoded.{Encoded}
use hap_resigner.CodeSign.Archive.{align_zip_for_code_sign}
use hap_resigner.CodeSign.Tree.{HasTree}

module _ (lib : Libraries) where
  open lib use {SigningKey}

  -- The property block comes first, and it is made for where its value comes to stand.
  record TreeFirst (input profile : Bytes) (identity : SigningIdentity SigningKey) (start : ℕ)
      (blocks : List BlockValue) : Type 0 where
    property : Bytes
    others : List BlockValue
    split : blocks ≡ record { block_type = type_property; value = property } ∷ others
    has_tree : HasTree lib input profile identity (start + 12 * (length others + 2) + 12) property

  -- The returned file: the property block stands in it where it says, with the tree of the data of the
  -- aligned archive on a page of the file.
  pub record HasAlignedTree (input profile : Bytes) (identity : SigningIdentity SigningKey)
      (out : Bytes) : Type 0 where
    pub aligned : Bytes
    pub rewritten : align_zip_for_code_sign lib input ≡ ok aligned
    pub before : Bytes
    pub property : Bytes
    pub behind : Bytes
    pub shape : out ≡ before ++ (property ++ behind)
    pub has_tree : HasTree lib aligned profile identity (length before + 12) property
    pub on_page : has_tree.tree_offset % 4096 ≡ 0
    pub tree_there :
        slice has_tree.tree_offset (has_tree.tree_offset + length has_tree.tree) out ≡ has_tree.tree
