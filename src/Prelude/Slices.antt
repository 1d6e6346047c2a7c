-- ===== src/Prelude/Slices.antt =====
-- Slices of a byte string that is put together from parts.
use Prim.Native.Nat.{ℕ, zero, suc, ◌+◌, ◌-◌, ◌≤◌}
use mathlib.Core.Path.{◌≡◌, refl, ap, sym, ◌∙◌}
use mathlib.Core.List.{List, [], ◌∷◌, ◌++◌}
use native.Mathlib.Omega.{arith}
use hap_resigner.Prelude.Lists.{
  length, take, drop, slice, length-append, length-take, length-drop, take-append-drop,
}

module _ {ℓ} {A : Type ℓ} where
  take-append_left : (n : ℕ) (xs ys : List A) → n ≤ length xs → take n (xs ++ ys) ≡ take n xs
  take-append_left zero xs ys h = refl
  take-append_left (suc n) [] ys h = absurd (omega arith)
  take-append_left (suc n) (x ∷ xs) ys h = ap (◌∷◌ x) (take-append_left n xs ys (omega arith))

  drop-append_left : (n : ℕ) (xs ys : List A) → n ≤ length xs → drop n (xs ++ ys) ≡ drop n xs ++ ys
  drop-append_left zero xs ys h = refl
  drop-append_left (suc n) [] ys h = absurd (omega arith)
  drop-append_left (suc n) (x ∷ xs) ys h = drop-append_left n xs ys (omega arith)

  drop-append_right : (m n : ℕ) (xs ys : List A) → m ≡ length xs + n → drop m (xs ++ ys) ≡ drop n ys
  drop-append_right m n [] ys h = let e : m ≡ n = omega arith in ap (λ k. drop k ys) e
  drop-append_right zero n (x ∷ xs) ys h = absurd (omega arith)
  drop-append_right (suc m) n (x ∷ xs) ys h = drop-append_right m n xs ys (omega arith)

  pub slice-append_left :
      (a b : ℕ) (xs ys : List A) → a ≤ b → b ≤ length xs → slice a b (xs ++ ys) ≡ slice a b xs
  slice-append_left a b xs ys h k =
      ap (take (b - a)) (drop-append_left a xs ys (omega arith))
      ∙ take-append_left (b - a) (drop a xs) ys (omega (arith, length-drop a xs))

  pub slice-append_right :
      (a b a' b' : ℕ) (xs ys : List A)
      → a ≡ length xs + a'
      → b ≡ length xs + b'
      → slice a b (xs ++ ys) ≡ slice a' b' ys
  slice-append_right a b a' b' xs ys h k =
      let e : b - a ≡ b' - a' = omega arith in
      ap (take (b - a)) (drop-append_right a a' xs ys h) ∙ ap (λ n. take n (drop a' ys)) e

  -- Overwriting the bytes from `o` to `p` leaves the slices before and behind them.
  pub slice-patch_before :
      (a b o p : ℕ) (xs mid : List A)
      → a ≤ b
      → b ≤ o
      → o ≤ length xs
      → slice a b (take o xs ++ (mid ++ drop p xs)) ≡ slice a b xs
  slice-patch_before a b o p xs mid h k fits =
      let m : length (take o xs) ≡ o = omega (arith, length-take o xs) in
      slice-append_left a b (take o xs) (mid ++ drop p xs) h (omega arith)
      ∙ sym (slice-append_left a b (take o xs) (drop o xs) h (omega arith))
      ∙ ap (slice a b) (take-append-drop o xs)

  pub slice-patch_behind :
      (a b o p : ℕ) (xs mid : List A)
      → p ≤ a
      → a ≤ b
      → p ≡ o + length mid
      → p ≤ length xs
      → slice a b (take o xs ++ (mid ++ drop p xs)) ≡ slice a b xs
  slice-patch_behind a b o p xs mid h k e fits =
      let m : length (take o xs) ≡ o = omega (arith, length-take o xs) in
      let q : length (take p xs) ≡ p = omega (arith, length-take p xs) in
      slice-append_right a b (a - o) (b - o) (take o xs) (mid ++ drop p xs) (omega arith)
        (omega arith)
      ∙ slice-append_right (a - o) (b - o) (a - p) (b - p) mid (drop p xs) (omega arith)
          (omega arith)
      ∙ sym (
          slice-append_right a b (a - p) (b - p) (take p xs) (drop p xs) (omega arith)
            (omega arith))
      ∙ ap (slice a b) (take-append-drop p xs)

  pub length-patch :
      (o p : ℕ) (xs mid : List A)
      → p ≡ o + length mid
      → p ≤ length xs
      → length (take o xs ++ (mid ++ drop p xs)) ≡ length xs
  length-patch o p xs mid e fits = omega (
    arith,
    length-append (take o xs) (mid ++ drop p xs),
    length-append mid (drop p xs),
    length-take o xs,
    length-drop p xs,
  )
