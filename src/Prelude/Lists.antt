-- ===== src/Prelude/Lists.antt =====
-- Lists measured by native numbers, under the library's names, and slices of byte strings.
use Prim.Native.Nat.{ℕ, zero, suc, ◌+◌, ◌-◌, ◌≤◌, min}
use mathlib.Core.Path.{◌≡◌, refl, ap, ◌∙◌}
use mathlib.Core.Bool.{◌&&◌}
use mathlib.Core.List.{List, [], ◌∷◌, ◌++◌}
use mathlib.Core.Option.{Option, none, some}
use native.Mathlib.Omega.{arith}
use hap_resigner.Prelude.Tests.{leb, if◌then◌else◌, le→leb}

module _ {ℓ} {A : Type ℓ} where
  abbrev pub length : List A → ℕ
  length [] = 0
  length (x ∷ xs) = suc (length xs)

  abbrev pub take : ℕ → List A → List A
  take zero xs = []
  take (suc n) [] = []
  take (suc n) (x ∷ xs) = x ∷ take n xs

  abbrev pub drop : ℕ → List A → List A
  drop zero xs = xs
  drop (suc n) [] = []
  drop (suc n) (x ∷ xs) = drop n xs

  abbrev pub replicate : ℕ → A → List A
  replicate zero a = []
  replicate (suc n) a = a ∷ replicate n a

  abbrev pub All {κ} : (A → Type κ) → List A → Type κ
  All P [] = Unit {κ}
  All P (x ∷ xs) = P x × All P xs

module _ {ℓ} {A : Type ℓ} where
  pub length-append : (xs ys : List A) → length (xs ++ ys) ≡ length xs + length ys
  length-append [] ys = omega arith
  length-append (x ∷ xs) ys = omega (arith, length-append xs ys)

  pub length-take : (n : ℕ) (xs : List A) → length (take n xs) ≡ min n (length xs)
  length-take zero xs = omega arith
  length-take (suc n) [] = omega arith
  length-take (suc n) (x ∷ xs) = omega (arith, length-take n xs)

  pub length-drop : (n : ℕ) (xs : List A) → length (drop n xs) ≡ length xs - n
  length-drop zero xs = omega arith
  length-drop (suc n) [] = omega arith
  length-drop (suc n) (x ∷ xs) = omega (arith, length-drop n xs)

  pub length-replicate : (n : ℕ) (a : A) → length (replicate n a) ≡ n
  length-replicate zero a = refl
  length-replicate (suc n) a = ap suc (length-replicate n a)

  pub take-append-drop : (n : ℕ) (xs : List A) → take n xs ++ drop n xs ≡ xs
  take-append-drop zero xs = refl
  take-append-drop (suc n) [] = refl
  take-append-drop (suc n) (x ∷ xs) = ap (◌∷◌ x) (take-append-drop n xs)

  -- The length is a variable with an equation, so that it can be any sum.
  pub drop-append : (n : ℕ) (xs ys : List A) → n ≡ length xs → drop n (xs ++ ys) ≡ ys
  drop-append zero [] ys h = refl
  drop-append zero (x ∷ xs) ys h = absurd (omega arith)
  drop-append (suc n) [] ys h = absurd (omega arith)
  drop-append (suc n) (x ∷ xs) ys h = drop-append n xs ys (omega arith)

  pub take-append : (n : ℕ) (xs ys : List A) → n ≡ length xs → take n (xs ++ ys) ≡ xs
  take-append zero [] ys h = refl
  take-append zero (x ∷ xs) ys h = absurd (omega arith)
  take-append (suc n) [] ys h = absurd (omega arith)
  take-append (suc n) (x ∷ xs) ys h = ap (◌∷◌ x) (take-append n xs ys (omega arith))

  -- `data[a..b]` where `a ≤ b ≤ data.len()`.
  abbrev pub slice : ℕ → ℕ → List A → List A
  slice a b xs = take (b - a) (drop a xs)

  -- `data.get(a..b)`.
  unfoldable pub get_range : ℕ → ℕ → List A → Option (List A)
  get_range a b xs = if leb a b && leb b (length xs) then some (slice a b xs) else none

  pub slice_middle :
      (a b : ℕ) (front mid back : List A)
      → a ≡ length front
      → b ≡ length front + length mid
      → slice a b (front ++ (mid ++ back)) ≡ mid
  slice_middle a b front mid back p q =
      rw (drop-append a front (mid ++ back) p) (take-append (b - a) mid back (omega arith))

  pub get_range_middle :
      (a b : ℕ) (front mid back : List A)
      → a ≡ length front
      → b ≡ length front + length mid
      → get_range a b (front ++ (mid ++ back)) ≡ some mid
  unfolding get_range
  get_range_middle a b front mid back p q =
      let size : length (front ++ (mid ++ back)) ≡ length front + (length mid + length back) =
        length-append front (mid ++ back) ∙ ap (λ k. length front + k) (length-append mid back) in
      rw (le→leb a b (omega arith), le→leb b (length (front ++ (mid ++ back))) (omega arith))
        (ap some (slice_middle a b front mid back p q))

  pub get_range-fits :
      (a b : ℕ) (xs : List A) → a ≤ b → b ≤ length xs → get_range a b xs ≡ some (slice a b xs)
  unfolding get_range
  get_range-fits a b xs h k = rw (le→leb a b h, le→leb b (length xs) k)

  pub get_range-eq-some :
      (a b : ℕ) (xs ys : List A)
      → get_range a b xs ≡ some ys
      → (a ≤ b) × (b ≤ length xs) × (slice a b xs ≡ ys)
  unfolding get_range
  get_range-eq-some a b xs ys h = ground arith

  pub length-slice : (a b : ℕ) (xs : List A) → b ≤ length xs → length (slice a b xs) ≡ b - a
  length-slice a b xs h = omega (arith, length-take (b - a) (drop a xs), length-drop a xs)
