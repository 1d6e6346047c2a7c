-- ===== src/Prelude/Chunks.antt =====
-- `slice.chunks(n)`, `usize::div_ceil`, writes into a buffer, and their laws.
use Prim.Native.Nat.{ℕ, zero, suc, ◌+◌, ◌*◌, ◌/◌, ◌%◌, ◌≤◌, ◌<◌}
use mathlib.Core.Path.{◌≡◌, refl, ap, sym, ◌∙◌}
use mathlib.Core.List.{List, [], ◌∷◌, ◌++◌, append_assoc}
use native.Mathlib.Omega.{arith}
use native.Mathlib.Decide.{dec_le}
use hap_resigner.Prelude.Tests.{◌==◌, if◌then◌else◌}
use hap_resigner.Prelude.Lists.{
  length, take, drop, length-append, length-take, length-drop, take-append-drop, take-append,
  drop-append, All,
}

-- `a.div_ceil(n)`.
abbrev pub div_ceil : ℕ → ℕ → ℕ
div_ceil a n = a / n + (if a % n == 0 then 0 else 1)

no_multiple : (k n : ℕ) → k * n < n → k ≡ 0
no_multiple zero n h = refl
no_multiple (suc k) n h = absurd (omega arith)

module _ {ℓ} {A : Type ℓ} where
  abbrev pub flatten : List (List A) → List A
  flatten [] = []
  flatten (xs ∷ xss) = xs ++ flatten xss

  -- The fuel is the length of the list: each round takes an element at least.
  unfoldable pub chunks_loop : ℕ → ℕ → List A → List (List A)
  chunks_loop zero n xs = []
  chunks_loop (suc fuel) n [] = []
  chunks_loop (suc fuel) n (x ∷ xs) = take n (x ∷ xs) ∷ chunks_loop fuel n (drop n (x ∷ xs))

  unfoldable pub chunks : ℕ → List A → List (List A)
  unfolding chunks_loop
  chunks n xs = chunks_loop (length xs) n xs

  -- `buffer[offset..offset + bytes.len()].copy_from_slice(bytes)`.
  unfoldable pub overwrite : ℕ → List A → List A → List A
  overwrite offset bytes buffer =
      take offset buffer ++ (bytes ++ drop (offset + length bytes) buffer)

  pub overwrite-append :
      (o : ℕ) (front old new back : List A)
      → o ≡ length front
      → length new ≡ length old
      → overwrite o new (front ++ (old ++ back)) ≡ front ++ (new ++ back)
  unfolding overwrite
  overwrite-append o front old new back h e =
      let before = take-append o front (old ++ back) h in
      let behind : drop (o + length new) (front ++ (old ++ back)) ≡ back =
        ap (drop (o + length new)) (sym (append_assoc front old back))
        ∙ drop-append (o + length new) (front ++ old) back
            (omega (arith, length-append front old)) in
      rw (before, behind)

  flatten-chunks_loop :
      (fuel n : ℕ) (xs : List A) → 0 < n → length xs ≤ fuel → flatten (chunks_loop fuel n xs) ≡ xs
  unfolding chunks_loop
  flatten-chunks_loop zero n [] h k = refl
  flatten-chunks_loop zero n (x ∷ xs) h k = absurd (omega arith)
  flatten-chunks_loop (suc fuel) n [] h k = refl
  flatten-chunks_loop (suc fuel) n (x ∷ xs) h k =
      let rest =
        flatten-chunks_loop fuel n (drop n (x ∷ xs)) h (omega (arith, length-drop n (x ∷ xs))) in
      ap (λ t. take n (x ∷ xs) ++ t) rest ∙ take-append-drop n (x ∷ xs)

  -- The chunks, one behind the other, are the list.
  pub flatten-chunks : (n : ℕ) (xs : List A) → 0 < n → flatten (chunks n xs) ≡ xs
  unfolding chunks
  flatten-chunks n xs h = flatten-chunks_loop (length xs) n xs h (omega arith)

  chunks_loop_count :
      (fuel n : ℕ) (xs : List A)
      → 0 < n
      → length xs ≤ fuel
      → (length (chunks_loop fuel n xs) * n < length xs + n)
        × (length xs ≤ length (chunks_loop fuel n xs) * n)
  unfolding chunks_loop
  chunks_loop_count zero n [] h k = omega arith
  chunks_loop_count zero n (x ∷ xs) h k = absurd (omega arith)
  chunks_loop_count (suc fuel) n [] h k = omega arith
  chunks_loop_count (suc fuel) n (x ∷ xs) h k =
      let size = length-drop n (x ∷ xs) in
      let (lo, hi) = chunks_loop_count fuel n (drop n (x ∷ xs)) h (omega arith) in
      elim (dec_le n (length (x ∷ xs))) [
        | yes full ↦ omega arith
        | no short ↦
            let none_left =
              no_multiple (length (chunks_loop fuel n (drop n (x ∷ xs)))) n (omega arith) in
            omega (arith, ap (λ k. k * n) none_left)
      ]

  -- The number of chunks, by the two bounds that fix it.
  pub chunks_count :
      (n : ℕ) (xs : List A)
      → 0 < n
      → (length (chunks n xs) * n < length xs + n) × (length xs ≤ length (chunks n xs) * n)
  unfolding chunks
  chunks_count n xs h = chunks_loop_count (length xs) n xs h (omega arith)

  chunks_loop_sizes : (fuel n : ℕ) (xs : List A) → All (λ c. length c ≤ n) (chunks_loop fuel n xs)
  unfolding chunks_loop
  chunks_loop_sizes zero n xs = tt
  chunks_loop_sizes (suc fuel) n [] = tt
  chunks_loop_sizes (suc fuel) n (x ∷ xs) =
      (omega (arith, length-take n (x ∷ xs)), chunks_loop_sizes fuel n (drop n (x ∷ xs)))

  pub chunks_sizes : (n : ℕ) (xs : List A) → All (λ c. length c ≤ n) (chunks n xs)
  unfolding chunks
  chunks_sizes n xs = chunks_loop_sizes (length xs) n xs
