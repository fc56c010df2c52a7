-- ===== src/Prelude/Text.antt =====
-- `str::trim` and tests on the characters of a text.
use Prim.Native.Nat.{ℕ}
use Prim.Native.Char.{Char, code}
use Prim.Native.String.{String, [], ◌∷◌}
use mathlib.Core.Bool.{Bool, true, false, ◌||◌, ◌&&◌}
use mathlib.Core.Path.{◌≡◌, refl}
use mathlib.Core.Option.{Option, none, some}
use mathlib.Core.List.{List}
use lam.Prelude.Tests.{leb, if◌then◌else◌, is_some}
use lam.Prelude.Classes.{nat_beq, ◌==◌, string_eq}

abbrev between : ℕ → ℕ → ℕ → Bool
between lo hi c = leb lo c && leb c hi

-- `char::is_whitespace`: the characters with the Unicode property White_Space
unfoldable pub is_whitespace : ℕ → Bool
is_whitespace c =
    between 9 13 c
    || nat_beq c 32
    || nat_beq c 0x85
    || nat_beq c 0xa0
    || nat_beq c 0x1680
    || between 0x2000 0x200a c
    || between 0x2028 0x2029 c
    || nat_beq c 0x202f
    || nat_beq c 0x205f
    || nat_beq c 0x3000

unfoldable pub is_ascii_digit : ℕ → Bool
is_ascii_digit c = between b'0' b'9' c

unfoldable pub is_ascii_alphabetic : ℕ → Bool
is_ascii_alphabetic c = between b'a' b'z' c || between b'A' b'Z' c

unfoldable pub is_ascii_alphanumeric : ℕ → Bool
unfolding is_ascii_digit is_ascii_alphabetic
is_ascii_alphanumeric c = is_ascii_alphabetic c || is_ascii_digit c

unfoldable pub is_empty : String → Bool
is_empty [] = true
is_empty (c ∷ s) = false

unfoldable pub trim_start : String → String
unfolding is_whitespace
trim_start [] = []
trim_start (c ∷ s) = let rest = trim_start s in if is_whitespace (code c) then rest else c ∷ s

unfoldable pub trim_end : String → String
unfolding is_whitespace is_empty
trim_end [] = []
trim_end (c ∷ s) =
    let rest = trim_end s in if is_whitespace (code c) && is_empty rest then [] else c ∷ rest

unfoldable pub trim : String → String
unfolding trim_start trim_end
trim s = trim_end (trim_start s)

-- `chars().all(p)`
unfoldable pub all_chars : (ℕ → Bool) → String → Bool
all_chars p [] = true
all_chars p (c ∷ s) = p (code c) && all_chars p s

trim_example : trim " a b\n" ≡ "a b"
unfolding trim
trim_example = refl

-- the character that stands in the second text where `c` stands in the first, or `c`
translate : String → String → Char → Char
translate (u ∷ us) (l ∷ ls) c =
    let rest = translate us ls c in if nat_beq (code u) (code c) then l else rest
translate _ _ c = c

-- `to_ascii_lowercase`
unfoldable pub lower_char : Char → Char
unfolding translate
lower_char c = translate "ABCDEFGHIJKLMNOPQRSTUVWXYZ" "abcdefghijklmnopqrstuvwxyz" c

unfoldable pub to_ascii_lowercase : String → String
unfolding lower_char
to_ascii_lowercase [] = []
to_ascii_lowercase (c ∷ s) = lower_char c ∷ to_ascii_lowercase s

to_ascii_lowercase_example : to_ascii_lowercase "X-Api" ≡ "x-api"
unfolding to_ascii_lowercase
to_ascii_lowercase_example = refl

-- a letter or an underscore, then letters, digits and underscores
unfoldable pub env_name : String → Bool
unfolding is_ascii_alphabetic is_ascii_alphanumeric all_chars
env_name [] = false
env_name (c ∷ s) =
    (nat_beq (code c) b'_' || is_ascii_alphabetic (code c))
    && all_chars (λ d. nat_beq d b'_' || is_ascii_alphanumeric d) s

-- `char::is_control`: the characters of the Unicode category Cc
unfoldable pub is_control : ℕ → Bool
is_control c = leb c 31 || between 127 159 c

-- `chars().any(p)`
unfoldable pub any_char : (ℕ → Bool) → String → Bool
any_char p [] = false
any_char p (c ∷ s) = p (code c) || any_char p s

-- `trim_start_matches(c)` and `trim_end_matches(c)`
unfoldable pub trim_start_matches : ℕ → String → String
trim_start_matches d [] = []
trim_start_matches d (c ∷ s) =
    let rest = trim_start_matches d s in if nat_beq (code c) d then rest else c ∷ s

unfoldable pub trim_end_matches : ℕ → String → String
unfolding is_empty
trim_end_matches d [] = []
trim_end_matches d (c ∷ s) =
    let rest = trim_end_matches d s in if nat_beq (code c) d && is_empty rest then [] else c ∷ rest

-- `strip_prefix(p)`
unfoldable pub strip_prefix : String → String → Option String
strip_prefix [] s = some s
strip_prefix (d ∷ p) [] = none
strip_prefix (d ∷ p) (c ∷ s) =
    let rest = strip_prefix p s in if nat_beq (code d) (code c) then rest else none

-- `starts_with(p)`
unfoldable pub has_prefix : String → String → Bool
unfolding strip_prefix
has_prefix p s = is_some (strip_prefix p s)

-- `contains(p)`
unfoldable pub contains : String → String → Bool
unfolding has_prefix
contains p [] = has_prefix p []
contains p (c ∷ s) = has_prefix p (c ∷ s) || contains p s

-- `ends_with(p)`
unfoldable pub has_suffix : String → String → Bool
has_suffix p [] = p == []
has_suffix p (c ∷ s) = p == (c ∷ s) || has_suffix p s

-- `split(c)`: the first piece, and the pieces after it
unfoldable pub split_at : ℕ → String → String × List String
split_at d [] = ([], List.[])
split_at d (c ∷ s) =
    let (piece, rest) = split_at d s in
    if nat_beq (code c) d then ([], List.◌∷◌ piece rest) else (c ∷ piece, rest)

unfoldable pub split : ℕ → String → List String
unfolding split_at
split d s = List.◌∷◌ (split_at d s).0 (split_at d s).1

split_example : split b'/' "/a//b" ≡ List.◌∷◌ "" (List.◌∷◌ "a" (List.◌∷◌ "" (List.◌∷◌ "b" List.[])))
unfolding split
split_example = refl

-- a letter or a digit, then letters, digits, underscores, dashes and dots
unfoldable pub valid_id_text : String → Bool
unfolding is_ascii_alphanumeric all_chars
valid_id_text [] = false
valid_id_text (c ∷ s) =
    is_ascii_alphanumeric (code c)
    && all_chars
        (λ d. is_ascii_alphanumeric d || nat_beq d b'_' || nat_beq d b'-' || nat_beq d b'.') s
