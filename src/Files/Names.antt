-- ===== src/Files/Names.antt =====
-- `std::path` on the last component of a path, and `str::strip_suffix`.
use hap_resigner.Prelude.{
  ◌-◌, Option, none, some, [], ◌∷◌, ◌++◌, if◌then◌else◌, ◌==◌, bytes_eq, ends_with, take, length,
  Text, codes,
}
use hap_resigner.Files.{PathBuf}

-- The component around its last dot: before it and behind it.
unfoldable pub split_last_dot : Text → Option (Text × Text)
split_last_dot [] = none
split_last_dot (c ∷ cs) = around (split_last_dot cs)
  where
    around : Option (Text × Text) → Option (Text × Text)
    around (some (before, after)) = some (c ∷ before, after)
    around none = if c == 46 then some ([], cs) else none

-- A component that starts with its only dot has no extension.
abbrev pub extension_of : Option (Text × Text) → Option Text
extension_of none = none
extension_of (some ([], after)) = none
extension_of (some (c ∷ before, after)) = some after

abbrev pub stem_of : Text → Option (Text × Text) → Text
stem_of name none = name
stem_of name (some ([], after)) = name
stem_of name (some (c ∷ before, after)) = c ∷ before

-- `Path::extension` and `Path::file_stem`.
unfoldable pub extension : PathBuf → Option Text
extension [] = none
extension (name ∷ parent) =
    if bytes_eq name (codes "..") then none else extension_of (split_last_dot name)

unfoldable pub file_stem : PathBuf → Option Text
file_stem [] = none
file_stem (name ∷ parent) =
    if bytes_eq name (codes "..") then none else some (stem_of name (split_last_dot name))

abbrev pub set_stem : PathBuf → Text → Option Text → PathBuf
set_stem path extension none = path
set_stem [] extension (some stem) = []
set_stem (name ∷ parent) extension (some stem) = (stem ++ codes "." ++ extension) ∷ parent

-- `Path::with_extension`, for an extension that is not empty.
unfoldable pub with_extension : PathBuf → Text → PathBuf
with_extension path extension = set_stem path extension (file_stem path)

-- `name.strip_suffix(suffix)`.
unfoldable pub strip_suffix : Text → Text → Option Text
strip_suffix name suffix =
    if ends_with name suffix then some (take (length name - length suffix) name) else none

-- `Path::file_name`, of a path whose last component is a name.
abbrev pub file_name : PathBuf → Option Text
file_name [] = none
file_name (name ∷ parent) = some name

-- `path.display()`.
unfoldable pub display : PathBuf → Text
display [] = []
display (name ∷ parent) = display parent ++ codes "/" ++ name
