-- ===== src/Strings.antt =====
-- The methods of `str` that the AGC client and the device connection call, on UTF-8 bytes.
use hap_resigner.Prelude.{
  ℕ, zero, suc, ◌+◌, ◌-◌, ◌*◌, Bool, true, false, not, ◌&&◌, ◌||◌, Option, none, some, List, [],
  ◌∷◌, ◌++◌, if◌then◌else◌, leb, ltb, ◌==◌, bytes_eq, starts_with, length, Text, utf8_char,
}

abbrev pub in_range : ℕ → ℕ → ℕ → Bool
in_range low high byte = leb low byte && leb byte high

-- `is_ascii_alphanumeric` and `is_ascii_digit` of a byte.
unfoldable pub is_alphanumeric : ℕ → Bool
is_alphanumeric byte = in_range 48 57 byte || in_range 65 90 byte || in_range 97 122 byte

unfoldable pub is_digit : ℕ → Bool
is_digit byte = in_range 48 57 byte

unfoldable pub lower : ℕ → ℕ
lower byte = if in_range 65 90 byte then byte + 32 else byte

unfoldable pub to_ascii_lowercase : Text → Text
to_ascii_lowercase [] = []
to_ascii_lowercase (c ∷ cs) = lower c ∷ to_ascii_lowercase cs

unfoldable pub eq_ignore_ascii_case : Text → Text → Bool
eq_ignore_ascii_case left right = bytes_eq (to_ascii_lowercase left) (to_ascii_lowercase right)

-- `text.contains(word)`.
unfoldable pub contains : Text → Text → Bool
contains [] word = starts_with [] word
contains (c ∷ cs) word = starts_with (c ∷ cs) word || contains cs word

unfoldable pub contains_any : Text → List Text → Bool
contains_any text [] = false
contains_any text (word ∷ words) = contains text word || contains_any text words

-- `words.contains(&word)`.
unfoldable pub is_one_of : Text → List Text → Bool
is_one_of word [] = false
is_one_of word (w ∷ ws) = bytes_eq word w || is_one_of word ws

unfoldable pub all_bytes : (ℕ → Bool) → Text → Bool
all_bytes p [] = true
all_bytes p (c ∷ cs) = p c && all_bytes p cs

-- `text.replace(from, to)`, with the bytes of the last match that are still to be passed over.
unfoldable pub replace_from : ℕ → Text → Text → Text → Text
replace_from skip from to [] = []
replace_from (suc skip) from to (c ∷ cs) = replace_from skip from to cs
replace_from zero from to (c ∷ cs) =
    let behind = replace_from (length from - 1) from to cs in
    let on = replace_from 0 from to cs in if starts_with (c ∷ cs) from then to ++ behind else c ∷ on

-- An empty text stands before each character and at the end: the head bytes of characters are those
-- below 128 and from 192.
unfoldable pub replace_empty : Text → Text → Text
replace_empty to [] = to
replace_empty to (c ∷ cs) =
    let rest = replace_empty to cs in if in_range 128 191 c then c ∷ rest else to ++ (c ∷ rest)

unfoldable pub replace : Text → Text → Text → Text
replace text [] to = replace_empty to text
replace text (c ∷ cs) to = replace_from 0 (c ∷ cs) to text

-- The characters with the property White_Space.
abbrev pub white_space : List ℕ
white_space =
    9
    ∷ (10
        ∷ (11
            ∷ (12
                ∷ (13
                    ∷ (32
                        ∷ (133
                            ∷ (160
                                ∷ (5760
                                    ∷ (8192
                                        ∷ (8193
                                            ∷ (8194
                                                ∷ (8195
                                                    ∷ (8196
                                                        ∷ (8197
                                                            ∷ (8198
                                                            ∷ (8199
                                                            ∷ (8200
                                                            ∷ (8201
                                                            ∷ (8202
                                                            ∷ (8232
                                                            ∷ (8233
                                                            ∷ (8239
                                                            ∷ (8287
                                                            ∷ (12288 ∷ ([])))))))))))))))))))))))))

-- The length of a white-space character at the front, or 0. Its head byte never stands inside another
-- character.
unfoldable pub space_at : Text → List ℕ → ℕ
space_at text [] = 0
space_at text (c ∷ cs) =
    let rest = space_at text cs in
    if starts_with text (utf8_char c) then length (utf8_char c) else rest

abbrev pub unspaced : ℕ → Text → Text → Text
unspaced zero text behind = text
unspaced (suc n) text behind = behind

-- `trim_start`, with the bytes of a white space that are still to be passed over.
unfoldable pub trim_start_from : ℕ → Text → Text
trim_start_from skip [] = []
trim_start_from (suc skip) (c ∷ cs) = trim_start_from skip cs
trim_start_from zero (c ∷ cs) =
    let n = space_at (c ∷ cs) white_space in unspaced n (c ∷ cs) (trim_start_from (n - 1) cs)

abbrev pub is_blank : Text → Bool
is_blank [] = true
is_blank (c ∷ cs) = false

unfoldable pub trim_end : Text → Text
trim_end [] = []
trim_end (c ∷ cs) =
    let rest = trim_end cs in if is_blank (trim_start_from 0 (c ∷ cs)) then [] else c ∷ rest

unfoldable pub trim : Text → Text
trim text = trim_end (trim_start_from 0 text)

-- The pieces between the separators: `split` by a test of the characters. `at` is the length of a
-- separator at the front, or 0, and `piece` what stands before.
unfoldable pub split_from : (Text → ℕ) → ℕ → Text → Text → List Text
split_from at skip piece [] = piece ∷ []
split_from at (suc skip) piece (c ∷ cs) = split_from at skip piece cs
split_from at zero piece (c ∷ cs) =
    pieces (at (c ∷ cs)) (split_from at 0 (piece ++ (c ∷ [])) cs)
      (split_from at (at (c ∷ cs) - 1) [] cs)
  where
    pieces : ℕ → List Text → List Text → List Text
    pieces zero on behind = on
    pieces (suc n) on behind = piece ∷ behind

unfoldable pub split : (Text → ℕ) → Text → List Text
split at text = split_from at 0 [] text

unfoldable pub drop_empty : List Text → List Text
drop_empty [] = []
drop_empty (p ∷ ps) = let rest = drop_empty ps in if is_blank p then rest else p ∷ rest

-- `text.split_whitespace()`.
unfoldable pub split_whitespace : Text → List Text
split_whitespace text = drop_empty (split (λ t. space_at t white_space) text)

-- `split(|c| !c.is_ascii_alphanumeric())`: each byte of another character is one empty piece more, and
-- no word is empty.
abbrev pub other_at : Text → ℕ
other_at [] = 0
other_at (c ∷ cs) = if is_alphanumeric c then 0 else 1

unfoldable pub split_words : Text → List Text
split_words text = drop_empty (split other_at text)

unfoldable pub any_in : List Text → List Text → Bool
any_in [] expected = false
any_in (word ∷ words) expected = is_one_of word expected || any_in words expected

abbrev pub contains_any_ascii_word : Text → List Text → Bool
contains_any_ascii_word text expected = any_in (split_words text) expected

-- `lines`: the pieces between line feeds, without a carriage return at their ends and without an empty
-- last one.
abbrev pub feed_at : Text → ℕ
feed_at [] = 0
feed_at (c ∷ cs) = if c == 10 then 1 else 0

unfoldable pub strip_return : Text → Text
strip_return [] = []
strip_return (c ∷ cs) =
    let rest = strip_return cs in if c == 13 && is_blank cs then [] else c ∷ rest

unfoldable pub line_pieces : List Text → List Text
line_pieces [] = []
line_pieces (p ∷ []) = if is_blank p then [] else p ∷ []
line_pieces (p ∷ (q ∷ ps)) = strip_return p ∷ line_pieces (q ∷ ps)

unfoldable pub lines : Text → List Text
lines text = line_pieces (split feed_at text)

-- `text.parse().ok()` of an unsigned integer below the limit: an optional plus sign and at least one
-- digit.
unfoldable pub digits_value : ℕ → Text → ℕ
digits_value value [] = value
digits_value value (c ∷ cs) = digits_value (value * 10 + (c - 48)) cs

abbrev pub digits_of : Text → Text
digits_of [] = []
digits_of (c ∷ cs) = if c == 43 then cs else c ∷ cs

unfoldable pub parse_number : ℕ → Text → Option ℕ
parse_number limit text =
    if is_blank (digits_of text)
      || not (all_bytes is_digit (digits_of text))
      || not (ltb (digits_value 0 (digits_of text)) limit)
    then none
    else some (digits_value 0 (digits_of text))
