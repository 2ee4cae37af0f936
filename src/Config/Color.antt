-- ===== src/Config/Color.antt =====
-- crates/eg/src/config.rs: the colour of a cursor.
pub mod Hex
pub mod Digits
use okayeg.Prelude.{
  ℕ, ◌+◌, ◌-◌, ◌*◌, ◌/◌, ◌%◌, Bool, ◌&&◌, Option, none, some, List, [], ◌∷◌, ◌++◌, Str, lit, leb,
  ltb, nat_eq, length, take, drop, all, Result, ok, err, ◌>>=◌, ok_or, if◌then◌else◌,
}
use okayeg.Utf8.{as_bytes}

pub data ColorParseError : Type 0 where
  wrong_length non_ascii not_hex : ColorParseError

-- `char::to_digit(16)`
abbrev pub hex_digit : ℕ → Option ℕ
hex_digit c =
    if leb 48 c && leb c 57
    then some (c - 48)
    else if leb 97 c && leb c 102
    then some (c - 87)
    else if leb 65 c && leb c 70
    then some (c - 55)
    else none

abbrev pub with_digit : (ℕ → Option ℕ) → ℕ → Option ℕ → Option ℕ
with_digit go acc none = none
with_digit go acc (some d) = if ltb (acc * 16 + d) 256 then go (acc * 16 + d) else none

-- The digits of a `u8` behind those that make `acc`.
abbrev pub digits_from : Str → ℕ → Option ℕ
digits_from [] acc = some acc
digits_from (c ∷ s) acc = with_digit (digits_from s) acc (hex_digit c)

abbrev pub digits : Str → Option ℕ
digits [] = none
digits (c ∷ s) = digits_from (c ∷ s) 0

-- `u8::from_str_radix(s, 16)`, which takes a plus sign in front of the digits
abbrev pub from_str_radix_16 : Str → Option ℕ
from_str_radix_16 [] = none
from_str_radix_16 (c ∷ s) = if nat_eq c b'+' then digits s else digits (c ∷ s)

abbrev pub hex_char : ℕ → ℕ
hex_char d = if ltb d 10 then 48 + d else 87 + d

-- `{:02x}` of a `u8`
abbrev pub hex_byte : ℕ → Str
hex_byte n = hex_char (n / 16) ∷ hex_char (n % 16) ∷ []

-- `strip_prefix('#')`, or the text itself
abbrev pub strip_hash : Str → Str
strip_hash [] = []
strip_hash (c ∷ s) = if nat_eq c b'#' then s else c ∷ s

abbrev pub channel : Str → ℕ → Result ColorParseError ℕ
channel s i = ok_or (from_str_radix_16 (take 2 (drop i s))) not_hex

abbrev pub six_digits : Str → Result ColorParseError Str
six_digits s = do
  r ← channel s 0
  g ← channel s 2
  b ← channel s 4
  ok (b'#' ∷ (hex_byte r ++ hex_byte g ++ hex_byte b))

abbrev pub normalize_stripped : Str → Result ColorParseError Str
normalize_stripped s =
    if nat_eq (length (as_bytes s)) 6
    then if all (λ c. ltb c 128) s then six_digits s else err non_ascii
    else err wrong_length

unfoldable pub normalize_color : Str → Result ColorParseError Str
unfolding as_bytes all
normalize_color text = normalize_stripped (strip_hash text)

-- The validator of `first_valid`.
abbrev pub valid_color : Str → Option Str
valid_color text = elim (normalize_color text) [ ok c ↦ some c | err e ↦ none ]
