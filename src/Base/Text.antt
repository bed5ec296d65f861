-- ===== src/Base/Text.antt =====
-- What the code uses of `str`: trimming, ASCII case, prefixes and suffixes.
use Prim.Native.Char.{Char, code}
use Prim.Native.Nat.{ℕ, zero, suc, ◌+◌, ◌-◌, ◌/◌, ◌%◌, ◌≤◌}
use Prim.Native.String.{String, [], ◌∷◌, ◌++◌}
use Prim.Native.String.append
use mathlib.Core.Path.{◌≡◌}
use native.Mathlib.Omega.{arith}
use mathlib.Core.Bool.{Bool, true, false, ◌&&◌, ◌||◌}
use pingora_mesh.Base.Tests.{leb, nat_beq, if◌then◌else◌}
use pingora_mesh.Base.Equality.{◌==◌, string_eq}

-- `char::is_whitespace`: the property White_Space.
unfoldable pub is_whitespace : ℕ → Bool
is_whitespace c =
    (leb 9 c && leb c 13)
    || nat_beq c 0x20
    || nat_beq c 0x85
    || nat_beq c 0xa0
    || nat_beq c 0x1680
    || (leb 0x2000 c && leb c 0x200a)
    || nat_beq c 0x2028
    || nat_beq c 0x2029
    || nat_beq c 0x202f
    || nat_beq c 0x205f
    || nat_beq c 0x3000

-- Without the leading characters that pass the test.
unfoldable pub trim_start_matches : (ℕ → Bool) → String → String
trim_start_matches p [] = []
trim_start_matches p (c ∷ s) = if p (code c) then trim_start_matches p s else c ∷ s

-- Without the trailing characters that pass the test.
unfoldable pub trim_end_matches : (ℕ → Bool) → String → String
trim_end_matches p [] = []
trim_end_matches p (c ∷ s) =
    let rest = trim_end_matches p s in if p (code c) && rest == "" then [] else c ∷ rest

unfoldable pub trim : String → String
unfolding trim_start_matches trim_end_matches is_whitespace
trim s = trim_end_matches is_whitespace (trim_start_matches is_whitespace s)

-- The character of `to` that stands where `from` has `c`.
unfoldable pub translate : String → String → Char → Char
translate [] to c = c
translate (f ∷ from) [] c = c
translate (f ∷ from) (t ∷ to) c = if nat_beq (code f) (code c) then t else translate from to c

unfoldable pub map_chars : (Char → Char) → String → String
map_chars f [] = []
map_chars f (c ∷ s) = f c ∷ map_chars f s

abbrev pub upper_letters : String
upper_letters = "ABCDEFGHIJKLMNOPQRSTUVWXYZ"

abbrev pub lower_letters : String
lower_letters = "abcdefghijklmnopqrstuvwxyz"

unfoldable pub to_ascii_lowercase : String → String
unfolding map_chars translate
to_ascii_lowercase s = map_chars (translate upper_letters lower_letters) s

unfoldable pub to_ascii_uppercase : String → String
unfolding map_chars translate
to_ascii_uppercase s = map_chars (translate lower_letters upper_letters) s

unfoldable pub eq_ignore_ascii_case : String → String → Bool
unfolding to_ascii_lowercase
eq_ignore_ascii_case s t = to_ascii_lowercase s == to_ascii_lowercase t

unfoldable pub ends_with : String → String → Bool
ends_with [] suffix = suffix == ""
ends_with (c ∷ s) suffix = (c ∷ s) == suffix || ends_with s suffix

-- `format!` of texts in a row.
infixr 65 ◌<>◌
abbrev pub ◌<>◌ : String → String → String
s <> t = s ++ t

abbrev pub digit_of : String → ℕ → String
digit_of [] n = ""
digit_of (c ∷ s) zero = c ∷ []
digit_of (c ∷ s) (suc n) = digit_of s n

unfoldable pub decimal_from : ℕ → ℕ → String → String
decimal_from zero n acc = acc
decimal_from (suc fuel) n acc =
    let longer = digit_of "0123456789" (n % 10) ++ acc in
    elim (nat_beq (n / 10) 0) [ true ↦ longer | false ↦ decimal_from fuel (n / 10) longer ]

-- `Display` of an unsigned integer. A number has at most as many digits as its value and one more.
unfoldable pub decimal : ℕ → String
unfolding decimal_from
decimal n = decimal_from (suc n) n ""

unfoldable pub starts_with : String → String → Bool
starts_with s [] = true
starts_with [] (p ∷ prefix) = false
starts_with (c ∷ s) (p ∷ prefix) = nat_beq (code c) (code p) && starts_with s prefix

-- The bytes of a character in UTF-8.
abbrev pub utf8_width : ℕ → ℕ
utf8_width c = if leb c 0x7f then 1 else if leb c 0x7ff then 2 else if leb c 0xffff then 3 else 4

-- `str::len`
unfoldable pub byte_length : String → ℕ
byte_length [] = 0
byte_length (c ∷ s) = utf8_width (code c) + byte_length s

-- `str::contains`
unfoldable pub contains_text : String → String → Bool
unfolding starts_with
contains_text [] needle = needle == ""
contains_text (c ∷ s) needle = starts_with (c ∷ s) needle || contains_text s needle

abbrev pub char_count : String → ℕ
char_count [] = 0
char_count (c ∷ s) = 1 + char_count s

-- `str::replace`: every occurrence from the left; the count says how many characters of one are left
-- to pass over.
unfoldable pub replace_from : ℕ → (from to : String) → String → String
unfolding starts_with
replace_from n from to [] = []
replace_from zero from to (c ∷ s) = elim (starts_with (c ∷ s) from) [
  | true ↦ to ++ replace_from (char_count from - 1) from to s
  | false ↦ c ∷ replace_from zero from to s
]
replace_from (suc n) from to (c ∷ s) = replace_from n from to s

unfoldable pub replace_text : (from to : String) → String → String
unfolding replace_from
replace_text from to s = replace_from zero from to s

-- `chars().take(n)`
unfoldable pub take_chars : ℕ → String → String
take_chars zero s = []
take_chars (suc n) [] = []
take_chars (suc n) (c ∷ s) = c ∷ take_chars n s

pub char_count-take_chars : (n : ℕ) (s : String) → char_count (take_chars n s) ≤ n
unfolding take_chars
char_count-take_chars zero s = ground arith
char_count-take_chars (suc n) [] = ground arith
char_count-take_chars (suc n) (c ∷ s) = ground (arith, char_count-take_chars n s)

pub char_count-append : (s t : String) → char_count (s ++ t) ≡ char_count s + char_count t
char_count-append [] t = rw (append.nil t) (ground arith)
char_count-append (c ∷ s) t = rw (append.cons c s t) (ground (arith, char_count-append s t))
