-- ===== src/Agc/Http/Redacted.antt =====
-- What the redaction leaves of a text.
use hap_resigner.Prelude.{
  bytes_eq, ℕ, zero, suc, ◌≤◌, ◌≡◌, refl, sym, ap, subst, ◌∙◌, Bool, true, false, ◌||◌, Option,
  none, some, [], ◌∷◌, ◌++◌, if◌then◌else◌, leb, starts_with, length, length-append, append-nil,
  length-drop, drop, take-append, drop-append, Text, codes, arith,
}
use mathlib.Core.Option
use hap_resigner.Agc.Http.{
  HttpLibrary, find_word, least, find_url_start, is_url_delimiter, plain_length, url_end,
  has_details, safe_origin, safe_parsed, safe_url, behind_url, with_url, redact_from,
  redact_embedded_urls,
}

abbrev pub starts_url : Text → Bool
starts_url text = starts_with text (codes "https://") || starts_with text (codes "http://")

-- No address starts in a text, in front of another.
abbrev pub IsPlain : Text → Text → Type 0
IsPlain [] behind = Unit {0}
IsPlain (c ∷ cs) behind = (starts_url (c ∷ (cs ++ behind)) ≡ false) × IsPlain cs behind

-- No delimiter stands in a text, in front of another that is empty or starts with one.
abbrev pub IsWord : Text → Text → Type 0
IsWord [] [] = Unit {0}
IsWord [] (c ∷ cs) = is_url_delimiter (c ∷ cs) ≡ true
IsWord (c ∷ cs) behind = (is_url_delimiter (c ∷ (cs ++ behind)) ≡ false) × IsWord cs behind

-- A text is an address in front of another.
pub data IsUrl : Text → Text → Type 0 where
  address :
      {c : ℕ} {cs behind : Text}
      → starts_url (c ∷ (cs ++ behind)) ≡ true
      → IsWord cs behind
      → IsUrl (c ∷ cs) behind

leb-suc : (m n : ℕ) → leb (suc m) (suc n) ≡ leb m n
leb-suc m n = ground arith

leb-zero_suc : (n : ℕ) → leb 0 (suc n) ≡ true
leb-zero_suc n = ground arith

leb-suc_zero : (m : ℕ) → leb (suc m) 0 ≡ false
leb-suc_zero m = ground arith

least-by_start :
    (a b : Bool) (m n : Option ℕ)
    → least (if a then some 0 else Option.map suc m) (if b then some 0 else Option.map suc n)
      ≡ (if a || b then some 0 else Option.map suc (least m n))
least-by_start true true m n = refl
least-by_start true false m none = refl
least-by_start true false m (some n) = rw (leb-zero_suc n) refl
least-by_start false true none n = refl
least-by_start false true (some m) n = rw (leb-suc_zero m) refl
least-by_start false false none n = refl
least-by_start false false (some m) none = refl
least-by_start false false (some m) (some n) = rw (leb-suc m n) (by_order (leb m n))
  where
    by_order : (c : Bool) → some (if c then suc m else suc n) ≡ some (suc (if c then m else n))
    by_order true = refl
    by_order false = refl

find_url_start-cons :
    (c : ℕ) (cs : Text)
    → find_url_start (c ∷ cs)
      ≡ (if starts_url (c ∷ cs) then some 0 else Option.map suc (find_url_start cs))
unfolding find_url_start find_word
find_url_start-cons c cs =
    least-by_start (starts_with (c ∷ cs) (codes "https://"))
      (starts_with (c ∷ cs) (codes "http://")) (find_word (codes "https://") cs)
      (find_word (codes "http://") cs)

find_url_start-nil : find_url_start [] ≡ none
unfolding find_url_start find_word starts_with bytes_eq
find_url_start-nil = refl

find_url_start-plain : (t : Text) → IsPlain t [] → find_url_start t ≡ none
find_url_start-plain [] h = find_url_start-nil
find_url_start-plain (c ∷ cs) (h, k) = rw (
  find_url_start-cons c cs,
  subst (λ t. starts_url (c ∷ t) ≡ false) (append-nil cs) h,
  find_url_start-plain cs k,
)

find_url_start-before :
    (before url : Text)
    → IsPlain before url
    → find_url_start url ≡ some 0
    → find_url_start (before ++ url) ≡ some (length before)
find_url_start-before [] url p h = h
find_url_start-before (c ∷ cs) url (p, ps) h =
    rw (find_url_start-cons c (cs ++ url), p, find_url_start-before cs url ps h)

plain_length-word : (cs behind : Text) → IsWord cs behind → plain_length (cs ++ behind) ≡ length cs
unfolding plain_length
plain_length-word [] [] h = refl
plain_length-word [] (c ∷ cs) h = rw h
plain_length-word (c ∷ cs) behind (h, k) = rw h (ap suc (plain_length-word cs behind k))

-- An address is what stands between its start and its end.
url_end-address : (url behind : Text) → IsUrl url behind → url_end (url ++ behind) ≡ length url
url_end-address [] behind e = elim e [ ]
url_end-address (c ∷ cs) behind (address h w) = ap suc (plain_length-word cs behind w)

starts-address : (url behind : Text) → IsUrl url behind → find_url_start (url ++ behind) ≡ some 0
starts-address [] behind e = elim e [ ]
starts-address (c ∷ cs) behind (address h w) = rw (find_url_start-cons c (cs ++ behind), h)

-- More fuel than bytes changes nothing.
module _ (lib : HttpLibrary) where
  behind_url-shorter :
      (c : ℕ) (cs : Text) (at : Option ℕ) → length (behind_url lib (c ∷ cs) at) ≤ length cs
  behind_url-shorter c cs none = omega arith
  behind_url-shorter c cs (some start) =
      shorter (drop start (c ∷ cs)) (omega (arith, length-drop start (c ∷ cs)))
    where
      shorter :
          (candidate : Text)
          → length candidate ≤ suc (length cs)
          → length (drop (url_end candidate) candidate) ≤ length cs
      shorter [] h = omega arith
      shorter (d ∷ ds) h = omega (arith, h, length-drop (plain_length ds) ds)

  with_nothing : (m : ℕ) → redact_from lib m [] ≡ []
  unfolding redact_from
  with_nothing zero = refl
  with_nothing (suc m) = rw find_url_start-nil

  redact_from-enough :
      (m n : ℕ) (t : Text) → length t ≤ m → length t ≤ n → redact_from lib m t ≡ redact_from lib n t
  unfolding redact_from
  redact_from-enough m n [] h k = with_nothing m ∙ sym (with_nothing n)
  redact_from-enough zero n (c ∷ cs) h k = absurd (omega arith)
  redact_from-enough (suc m) zero (c ∷ cs) h k = absurd (omega arith)
  redact_from-enough (suc m) (suc n) (c ∷ cs) h k =
      ap (with_url lib (c ∷ cs) (find_url_start (c ∷ cs))) (
        redact_from-enough m n (behind_url lib (c ∷ cs) (find_url_start (c ∷ cs)))
          (omega (arith, h, behind_url-shorter c cs (find_url_start (c ∷ cs))))
          (omega (arith, k, behind_url-shorter c cs (find_url_start (c ∷ cs)))))

  redact-plain : (t : Text) → IsPlain t [] → redact_embedded_urls lib t ≡ t
  unfolding redact_embedded_urls redact_from
  redact-plain [] p = refl
  redact-plain (c ∷ cs) p = rw (find_url_start-plain (c ∷ cs) p)

  redact-url :
      (before url behind : Text)
      → IsPlain before (url ++ behind)
      → IsUrl url behind
      → redact_embedded_urls lib (before ++ (url ++ behind))
        ≡ before ++ (safe_url lib url ++ redact_embedded_urls lib behind)
  unfolding redact_embedded_urls redact_from
  redact-url before url behind p u = round (length (before ++ (url ++ behind))) (
      omega (arith, length-append before (url ++ behind), length-append url behind, nonempty url u))
    where
      nonempty : (t : Text) → IsUrl t behind → 1 ≤ length t
      nonempty [] e = elim e [ ]
      nonempty (c ∷ cs) e = omega arith

      cut : drop (length before) (before ++ (url ++ behind)) ≡ url ++ behind
      cut = drop-append (length before) before (url ++ behind) refl

      round :
          (n : ℕ)
          → suc (length behind) ≤ n
          → redact_from lib n (before ++ (url ++ behind))
            ≡ before ++ (safe_url lib url ++ redact_from lib (length behind) behind)
      round zero h = absurd (omega arith)
      round (suc n) h = rw (
        find_url_start-before before (url ++ behind) p (starts-address url behind u),
        cut,
        url_end-address url behind u,
        take-append (length before) before (url ++ behind) refl,
        take-append (length url) url behind refl,
        drop-append (length url) url behind refl,
        redact_from-enough n (length behind) behind (omega arith) (omega arith),
      )

  -- Neither of two addresses can be read, or both have the same origin, and something behind it or both
  -- nothing.
  pub data SameOrigin : Option lib.Url → Option lib.Url → Type 0 where
    unreadable : SameOrigin none none
    readable :
        {u v : lib.Url}
        → lib.scheme u ≡ lib.scheme v
        → lib.host_str u ≡ lib.host_str v
        → lib.port u ≡ lib.port v
        → has_details lib u ≡ has_details lib v
        → SameOrigin (some u) (some v)

  -- Two texts that are the same but for addresses with the same origin, as above.
  pub data DifferInDetails : Text → Text → Type 0 where
    same : {l r : Text} → l ≡ r → DifferInDetails l r
    hidden :
        {l r : Text}
        → (before left right behind other : Text) → l ≡ before ++ (left ++ behind)
        → r ≡ before ++ (right ++ other)
        → IsPlain before (left ++ behind)
        → IsPlain before (right ++ other)
        → IsUrl left behind
        → IsUrl right other
        → SameOrigin (lib.parse left) (lib.parse right)
        → DifferInDetails behind other
        → DifferInDetails l r

  safe_parsed-same : (u v : Option lib.Url) → SameOrigin u v → safe_parsed lib u ≡ safe_parsed lib v
  unfolding safe_origin
  safe_parsed-same none none unreadable = refl
  safe_parsed-same none (some v) o = elim o [ ]
  safe_parsed-same (some u) none o = elim o [ ]
  safe_parsed-same (some u) (some v) (readable s h p d) = rw (d, same_origin) refl
    where
      same_origin : safe_origin lib u ≡ safe_origin lib v
      same_origin = rw (s, h, p) refl

-- Two texts have the same redaction when they are the same but for some of their addresses, of which each
-- pair either cannot be read, or has the same scheme, host and port, and both or neither has a path
-- other than `/`, a query or a fragment: which path, query and fragment it is does not show.
pub redact_embedded_urls-DifferInDetails :
    (lib : HttpLibrary) (left right : Text)
    → DifferInDetails lib left right
    → redact_embedded_urls lib left ≡ redact_embedded_urls lib right
unfolding safe_url
redact_embedded_urls-DifferInDetails lib l r (same e) = ap (redact_embedded_urls lib) e
redact_embedded_urls-DifferInDetails lib l r
      (hidden before left right behind other e f p q u v o d) =
    rw
      (
        e,
        f,
        redact-url lib before left behind p u,
        redact-url lib before right other q v,
        safe_parsed-same lib (lib.parse left) (lib.parse right) o,
        redact_embedded_urls-DifferInDetails lib behind other d,
      )
      refl
