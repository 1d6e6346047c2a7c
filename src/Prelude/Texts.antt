-- ===== src/Prelude/Texts.antt =====
-- Tests and orders of strings, which are compared as their UTF-8 bytes, and `Vec::resize`.
use Prim.Native.Nat.{ℕ, ◌-◌, compare, Ordering}
use mathlib.Core.Bool.{Bool, true, false, ◌&&◌}
use mathlib.Core.List.{List, [], ◌∷◌, ◌++◌}
use hap_resigner.Prelude.Tests.{leb, bytes_eq}
use hap_resigner.Prelude.Lists.{length, take, drop, replicate}

-- `name.starts_with(prefix)`.
unfoldable pub starts_with : List ℕ → List ℕ → Bool
unfolding bytes_eq
starts_with name prefix = bytes_eq (take (length prefix) name) prefix

-- `name.ends_with(suffix)`.
unfoldable pub ends_with : List ℕ → List ℕ → Bool
unfolding bytes_eq
ends_with name suffix =
    leb (length suffix) (length name) && bytes_eq (drop (length name - length suffix) name) suffix

-- `left.cmp(right) != Greater`, byte by byte.
unfoldable pub text_le : List ℕ → List ℕ → Bool
text_le [] ys = true
text_le (x ∷ xs) [] = false
text_le (x ∷ xs) (y ∷ ys) =
    let rest = text_le xs ys in
    elim (compare x y) [ Ordering.lt ↦ true | Ordering.eq ↦ rest | Ordering.gt ↦ false ]

-- `vec.resize(n, x)`.
unfoldable pub resize : ℕ → ℕ → List ℕ → List ℕ
resize n x xs = take n xs ++ replicate (n - length xs) x
