-- ===== src/Text.antt =====
-- Rust's `str` and `String` as the list of their code points, with the functions of the standard
-- library that the server calls on them.
pub mod Laws
pub mod Order
pub mod Number
pub mod Decimal
use Prim.Native.Char.{code}
use systemd_monitoring_mcp.Base.{
  ℕ, ◌+◌, ◌-◌, ◌*◌, Ordering, compare, String, Bool, true, false, not, ◌&&◌, ◌||◌, List, [], ◌∷◌,
  map, ltb, leb, ◌==◌, if◌then◌else◌, then_with, Option, none, some, option_map,
}

abbrev pub Text : Type 0
Text = List ℕ

-- A literal.
abbrev pub text : String → Text
text String.[] = []
text (String.◌∷◌ c s) = code c ∷ text s

-- `==` on strings
unfoldable pub text_eq : Text → Text → Bool
text_eq [] [] = true
text_eq [] (d ∷ t) = false
text_eq (c ∷ s) [] = false
text_eq (c ∷ s) (d ∷ t) = c == d && text_eq s t

-- `str::cmp`: UTF-8 is ordered as its code points are.
unfoldable pub text_compare : Text → Text → Ordering
text_compare [] [] = Ordering.eq
text_compare [] (d ∷ t) = Ordering.lt
text_compare (c ∷ s) [] = Ordering.gt
text_compare (c ∷ s) (d ∷ t) = then_with (compare c d) (text_compare s t)

abbrev pub is_empty : Text → Bool
is_empty [] = true
is_empty (c ∷ s) = false

-- `str::len`: the bytes of the UTF-8 encoding
abbrev char_len : ℕ → ℕ
char_len c = if ltb c 0x80 then 1 else if ltb c 0x800 then 2 else if ltb c 0x10000 then 3 else 4

unfoldable pub byte_len : Text → ℕ
byte_len [] = 0
byte_len (c ∷ s) = char_len c + byte_len s

-- `char::is_whitespace`: the Unicode property White_Space
unfoldable pub is_whitespace : ℕ → Bool
is_whitespace c =
    (leb 0x09 c && leb c 0x0d)
    || c == 0x20
    || c == 0x85
    || c == 0xa0
    || c == 0x1680
    || (leb 0x2000 c && leb c 0x200a)
    || c == 0x2028
    || c == 0x2029
    || c == 0x202f
    || c == 0x205f
    || c == 0x3000

-- `char::is_control`: the Unicode category Cc
unfoldable pub is_control : ℕ → Bool
is_control c = leb c 0x1f || (leb 0x7f c && leb c 0x9f)

abbrev pub is_ascii_digit : ℕ → Bool
is_ascii_digit c = leb b'0' c && leb c b'9'

abbrev pub is_ascii_uppercase : ℕ → Bool
is_ascii_uppercase c = leb b'A' c && leb c b'Z'

unfoldable pub is_ascii_alphanumeric : ℕ → Bool
is_ascii_alphanumeric c = is_ascii_digit c || is_ascii_uppercase c || (leb b'a' c && leb c b'z')

unfoldable pub lower_char : ℕ → ℕ
lower_char c = if is_ascii_uppercase c then c + 32 else c

unfoldable pub to_ascii_lowercase : Text → Text
unfolding lower_char
to_ascii_lowercase [] = []
to_ascii_lowercase (c ∷ s) = lower_char c ∷ to_ascii_lowercase s

unfoldable pub eq_ignore_ascii_case : Text → Text → Bool
unfolding text_eq to_ascii_lowercase
eq_ignore_ascii_case s t = text_eq (to_ascii_lowercase s) (to_ascii_lowercase t)

unfoldable pub trim_start : Text → Text
unfolding is_whitespace
trim_start [] = []
trim_start (c ∷ s) = if is_whitespace c then trim_start s else c ∷ s

unfoldable pub trim_end : Text → Text
unfolding is_whitespace
trim_end [] = []
trim_end (c ∷ s) =
    let rest = trim_end s in if is_whitespace c && is_empty rest then [] else c ∷ rest

unfoldable pub trim : Text → Text
unfolding trim_start trim_end
trim s = trim_end (trim_start s)

unfoldable pub starts_with : Text → Text → Bool
starts_with s [] = true
starts_with [] (d ∷ t) = false
starts_with (c ∷ s) (d ∷ t) = c == d && starts_with s t

-- `str::contains` of a text
unfoldable pub contains : Text → Text → Bool
unfolding starts_with
contains [] t = starts_with [] t
contains (c ∷ s) t = starts_with (c ∷ s) t || contains s t

unfoldable pub ends_with : Text → Text → Bool
unfolding text_eq
ends_with [] t = text_eq [] t
ends_with (c ∷ s) t = text_eq (c ∷ s) t || ends_with s t

-- `[..].contains(&s)`, and a `match` with one arm for several literals
unfoldable pub one_of : Text → List Text → Bool
unfolding text_eq
one_of s [] = false
one_of s (t ∷ ts) = text_eq s t || one_of s ts

-- `str::strip_suffix`
unfoldable pub strip_suffix : Text → Text → Option Text
unfolding text_eq
strip_suffix [] t = if text_eq [] t then some [] else none
strip_suffix (c ∷ s) t =
    if text_eq (c ∷ s) t then some [] else option_map (◌∷◌ c) (strip_suffix s t)
