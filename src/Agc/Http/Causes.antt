-- ===== src/Agc/Http/Causes.antt =====
-- The causes that the text of a transport error lists.
use hap_resigner.Prelude.{
  ℕ, zero, suc, ◌-◌, ◌≤◌, ◌≡◌, ◌≢◌, false, Option, List, [], ◌∷◌, ◌++◌, if◌then◌else◌, ◌==◌,
  bytes_eq_iff, length, length-append, All, Text, Bool-cases, inl, inr, arith,
}
use hap_resigner.Strings.{in_range}
use hap_resigner.Agc.Http.{
  HttpLibrary, TransportError, take_chars, is_last, cause_message, push_cause, cause_loop,
  causes_of, or_unavailable,
}

-- The characters of a text.
abbrev pub count_chars : Text → ℕ
count_chars [] = 0
count_chars (c ∷ cs) = if in_range 128 191 c then count_chars cs else suc (count_chars cs)

-- No text is the one before it.
abbrev pub IsStepwiseDistinct : List Text → Type 0
IsStepwiseDistinct [] = Unit {0}
IsStepwiseDistinct (x ∷ []) = Unit {0}
IsStepwiseDistinct (x ∷ (y ∷ zs)) = (x ≢ y) × IsStepwiseDistinct (y ∷ zs)

abbrev pub IsShort : Text → Type 0
IsShort t = count_chars t ≤ 256

pub record AreCauses (causes : List Text) : Type 0 where
  pub few : length causes ≤ 6
  pub short : All IsShort causes
  pub distinct : IsStepwiseDistinct causes

suc-zero : (n : ℕ) → (suc n == 0) ≡ false
suc-zero n = ground arith

suc-one : (n : ℕ) → suc n - 1 ≡ n
suc-one n = omega arith

count_chars-take_chars : (n : ℕ) (t : Text) → count_chars (take_chars n t) ≤ n
unfolding take_chars
count_chars-take_chars n [] = omega arith
count_chars-take_chars zero (c ∷ cs) = elim (Bool-cases (in_range 128 191 c)) [
  | inl e ↦ rw e (rw e (count_chars-take_chars zero cs))
  | inr e ↦ rw e (omega arith)
]
count_chars-take_chars (suc n) (c ∷ cs) = elim (Bool-cases (in_range 128 191 c)) [
  | inl e ↦ rw e (rw e (count_chars-take_chars (suc n) cs))
  | inr e ↦ rw (e, suc-zero n, suc-one n) (rw e (omega (arith, count_chars-take_chars n cs)))
]

All-snoc : (P : Text → Type 0) (xs : List Text) (x : Text) → All P xs → P x → All P (xs ++ (x ∷ []))
All-snoc P [] x h p = (p, tt)
All-snoc P (y ∷ ys) x (h, hs) p = (h, All-snoc P ys x hs p)

push-distinct :
    (message : Text) (xs : List Text)
    → is_last message xs ≡ false
    → IsStepwiseDistinct xs
    → IsStepwiseDistinct (xs ++ (message ∷ []))
unfolding is_last
push-distinct message [] e h = tt
push-distinct message (x ∷ []) e h = (λ k. cc (e, (bytes_eq_iff x message).1 k), tt)
push-distinct message (x ∷ (y ∷ zs)) e (n, h) = (n, push-distinct message (y ∷ zs) e h)

push-AreCauses :
    (message : Text) (causes : List Text)
    → IsShort message
    → length causes ≤ 5
    → AreCauses causes
    → AreCauses (push_cause causes message)
push-AreCauses message causes s n a = elim (Bool-cases (is_last message causes)) [
  | inl e ↦ rw e a
  | inr e ↦ rw e (record {
    few = omega (arith, n, length-append causes (message ∷ []));
    short = All-snoc IsShort causes message a.short s;
    distinct = push-distinct message causes e a.distinct;
  })
]

below : (k : ℕ) → k ≤ 6 → (k == 6) ≡ false → k ≤ 5
below k h e = ground arith

module _ (lib : HttpLibrary) where
  cause_loop-AreCauses :
      (url : Option lib.Url) (sources causes : List Text)
      → length causes ≤ 5
      → AreCauses causes
      → AreCauses (cause_loop lib url sources causes)
  unfolding cause_loop cause_message
  cause_loop-AreCauses url [] causes n a = a
  cause_loop-AreCauses url (cause ∷ sources) causes n a =
      let next =
        push-AreCauses (cause_message lib url cause) causes (count_chars-take_chars 256 _) n a in
      elim (Bool-cases (length (push_cause causes (cause_message lib url cause)) == 6)) [
        | inl e ↦ rw e next
        | inr e ↦ rw e (
            cause_loop-AreCauses url sources (push_cause causes (cause_message lib url cause))
              (below _ next.few e) next)
      ]

listed :
    (causes : List Text)
    → AreCauses causes
    → (1 ≤ length (or_unavailable causes)) × AreCauses (or_unavailable causes)
listed [] a = (omega arith, record { few = omega arith; short = (omega arith, tt); distinct = tt })
listed (c ∷ cs) a = (omega arith, a)

-- Whatever chain of sources an error has, its text lists at least one and at most six causes of at most
-- 256 characters each, and no cause is the one before it.
pub causes_of-AreCauses :
    (lib : HttpLibrary) (error : TransportError lib)
    → (1 ≤ length (causes_of lib error)) × AreCauses (causes_of lib error)
unfolding causes_of
causes_of-AreCauses lib error = listed (cause_loop lib error.url error.sources []) (
    cause_loop-AreCauses lib error.url error.sources [] (omega arith)
      (record { few = omega arith; short = tt; distinct = tt }))
