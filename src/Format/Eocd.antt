-- ===== src/Format/Eocd.antt =====
-- `find_eocd` of format.rs against a description of the record that it is to find.
use hap_resigner.Prelude.{
  ℕ, zero, suc, ◌+◌, ◌-◌, ◌≤◌, ◌<◌, ◌≡◌, refl, ap, ◌↔◌, inl, inr, Bool, true, false, ◌&&◌, Option,
  none, some, arith, ltb, Bool-cases, ==_iff, bytes_eq_iff, length, slice, get_range-fits,
  get_range-eq-some, Bytes, from_le,
}
use native.Mathlib.Decide.{dec_lt}
use hap_resigner.Format.{eocd_signature, is_bytes, is_eocd_at, find_eocd_loop, find_eocd}

-- An EOCD record stands at `o`: its signature, and a comment that ends with the file.
pub record IsEocdAt (bytes : Bytes) (o : ℕ) : Type 0 where
  pub fits : o + 22 ≤ length bytes
  pub signature : slice o (o + 4) bytes ≡ eocd_signature
  pub comment : o + 22 + from_le (slice (o + 20) (o + 22) bytes) ≡ length bytes

-- No EOCD record stands behind `o`, and `o` is near enough to the end for a ZIP comment.
pub record IsLastEocd (bytes : Bytes) (o : ℕ) : Type 0 where
  pub here : IsEocdAt bytes o
  pub near : length bytes ≤ o + 22 + 65535
  pub none_later : (j : ℕ) → o < j → ¬ (IsEocdAt bytes j)

is_bytes-eq-true : (o : Option Bytes) (ys : Bytes) → is_bytes o ys ≡ true → o ≡ some ys
is_bytes-eq-true none ys h = cc
is_bytes-eq-true (some xs) ys h = ap some ((bytes_eq_iff xs ys).0 h)

&&-eq-true : (a b : Bool) → (a && b) ≡ true → (a ≡ true) × (b ≡ true)
&&-eq-true true b h = (refl, h)
&&-eq-true false b h = cc

pub is_eocd_at_sound : (bytes : Bytes) (o : ℕ) → is_eocd_at bytes o ≡ true → IsEocdAt bytes o
unfolding is_eocd_at
is_eocd_at_sound bytes o h =
    let (signed, ends) = &&-eq-true _ _ h in
    let (_, _, signature) =
      get_range-eq-some o (o + 4) bytes eocd_signature (is_bytes-eq-true _ _ signed) in
    let comment =
      (==_iff (o + 22 + from_le (slice (o + 20) (o + 22) bytes)) (length bytes)).0 ends in
    record { fits = omega arith; signature = signature; comment = comment }

pub is_eocd_at_complete : (bytes : Bytes) (o : ℕ) → IsEocdAt bytes o → is_eocd_at bytes o ≡ true
unfolding is_eocd_at
is_eocd_at_complete bytes o h =
    rw (get_range-fits o (o + 4) bytes (omega arith) (omega (arith, h.fits)))
      (rw ((bytes_eq_iff _ _).1 h.signature) ((==_iff _ _).1 h.comment))

-- The loop finds the last offset of its range that passes the test.
find_eocd_loop_sound :
    (bytes : Bytes) (first k o : ℕ)
    → find_eocd_loop bytes first k ≡ some o
    → (is_eocd_at bytes o ≡ true)
      × ((j : ℕ) → o < j → j < first + k → is_eocd_at bytes j ≡ false)
      × (first ≤ o)
      × (o < first + k)
unfolding find_eocd_loop
find_eocd_loop_sound bytes first zero o h = cc
find_eocd_loop_sound bytes first (suc k) o h = elim (Bool-cases (is_eocd_at bytes (first + k))) [
  | inl found ↦
      let e : first + k ≡ o = ground arith in
      (rw (← e) found, λ j p q. absurd (omega arith), omega arith, omega arith)
  | inr missed ↦
      let (hit, rest, lo, hi) = find_eocd_loop_sound bytes first k o (ground arith) in
      (hit, λ j p q. later rest j p q missed, lo, omega arith)
]
  where
    later :
        ((j : ℕ) → o < j → j < first + k → is_eocd_at bytes j ≡ false)
        → (j : ℕ) → o < j
        → j < first + suc k
        → is_eocd_at bytes (first + k) ≡ false
        → is_eocd_at bytes j ≡ false
    later rest j p q missed = elim (dec_lt j (first + k)) [
      | yes below ↦ rest j p below
      | no above ↦ let e : j ≡ first + k = omega arith in rw e missed
    ]

find_eocd_loop_complete :
    (bytes : Bytes) (first k o : ℕ)
    → is_eocd_at bytes o ≡ true
    → ((j : ℕ) → o < j → j < first + k → is_eocd_at bytes j ≡ false)
    → first ≤ o
    → o < first + k
    → find_eocd_loop bytes first k ≡ some o
unfolding find_eocd_loop
find_eocd_loop_complete bytes first zero o hit rest lo hi = absurd (omega arith)
find_eocd_loop_complete bytes first (suc k) o hit rest lo hi = elim (dec_lt o (first + k)) [
  | yes below ↦
      rw (rest (first + k) below (omega arith))
        (find_eocd_loop_complete bytes first k o hit (λ j p q. rest j p (omega arith)) lo below)
  | no above ↦ let e : first + k ≡ o = omega arith in rw (e, hit)
]

not-IsEocdAt : (bytes : Bytes) (j : ℕ) → ¬ (IsEocdAt bytes j) → is_eocd_at bytes j ≡ false
not-IsEocdAt bytes j h = elim (Bool-cases (is_eocd_at bytes j)) [
  | inl hit ↦ absurd (h (is_eocd_at_sound bytes j hit))
  | inr missed ↦ missed
]

find_eocd_sound : (bytes : Bytes) (o : ℕ) → find_eocd bytes ≡ some o → IsLastEocd bytes o
unfolding find_eocd
find_eocd_sound bytes o h = elim (Bool-cases (ltb (length bytes) 22)) [
  | inl small ↦ absurd (ground arith)
  | inr large ↦
      let first = length bytes - (22 + 65535) in
      let (hit, rest, lo, hi) =
        find_eocd_loop_sound bytes first (length bytes - 22 + 1 - first) o (rw large at h) in
      record {
        here = is_eocd_at_sound bytes o hit;
        near = omega arith;
        none_later =
            λ j p e. let f = e.fits in cc (is_eocd_at_complete bytes j e, rest j p (ground arith));
      }
]

find_eocd_complete : (bytes : Bytes) (o : ℕ) → IsLastEocd bytes o → find_eocd bytes ≡ some o
unfolding find_eocd
find_eocd_complete bytes o h =
    let f = h.here.fits in
    let n = h.near in
    let large : ltb (length bytes) 22 ≡ false = ground arith in
    rw large (
      find_eocd_loop_complete bytes _ _ o (is_eocd_at_complete bytes o h.here)
        (λ j p q. not-IsEocdAt bytes j (h.none_later j p)) (omega arith) (omega arith))

-- `find_eocd` returns `o` exactly when an EOCD record, with its signature and a comment that ends
-- with the file, stands at `o`, no such record stands behind `o`, and `o` is within the largest
-- record's size of the end.
pub find_eocd_iff : (bytes : Bytes) (o : ℕ) → (find_eocd bytes ≡ some o) ↔ IsLastEocd bytes o
find_eocd_iff bytes o = (find_eocd_sound bytes o, find_eocd_complete bytes o)
