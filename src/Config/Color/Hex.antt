-- ===== src/Config/Color/Hex.antt =====
-- crates/eg/src/config.rs: a colour is normalized to `#` and six lower case digits.
use okayeg.Prelude.{
  ℕ, ◌+◌, ◌*◌, ◌/◌, ◌%◌, ◌<◌, ◌≡◌, refl, sym, ◌∙◌, inl, inr, subst, Bool, true, false, ◌&&◌, some,
  [], ◌∷◌, ◌++◌, Str, leb, ltb, nat_eq, length, all, ok, arith, ok_injective, take, drop, ◌||◌,
  >>=-ok, Option-cases, Bool-cases,
}
use okayeg.Utf8.{as_bytes, encode_char}
use okayeg.Config.Color.{
  hex_digit, digits, digits_from, from_str_radix_16, hex_char, hex_byte, strip_hash, channel,
  six_digits, normalize_color,
}

hex_digit-hex_char : (d : ℕ) → d < 16 → hex_digit (hex_char d) ≡ some d
hex_digit-hex_char d h = ground (arith, h)

hex_char_no_plus : (d : ℕ) → nat_eq (hex_char d) b'+' ≡ false
hex_char_no_plus d = ground arith

from_str_radix_16-hex_byte : (n : ℕ) → n < 256 → from_str_radix_16 (hex_byte n) ≡ some n
from_str_radix_16-hex_byte n h = ground (
  arith,
  h,
  hex_digit-hex_char (n / 16) (omega (arith, h)),
  hex_digit-hex_char (n % 16) (omega arith),
  hex_char_no_plus (n / 16),
)

digits_from-bound : (s : Str) (acc n : ℕ) → acc < 256 → digits_from s acc ≡ some n → n < 256
digits_from-bound [] acc n k h = ground (arith, k, h)
digits_from-bound (c ∷ s) acc n k h = elim (Option-cases (hex_digit c)) [
  | inl bad ↦ ground (arith, bad, h)
  | inr (d, e) ↦ ground (arith, e, h, digits_from-bound s (acc * 16 + d) n)
]

digits-bound : (s : Str) (n : ℕ) → digits s ≡ some n → n < 256
digits-bound [] n h = ground (arith, h)
digits-bound (c ∷ s) n h = digits_from-bound (c ∷ s) 0 n (omega arith) h

from_str_radix_16-bound : (s : Str) (n : ℕ) → from_str_radix_16 s ≡ some n → n < 256
from_str_radix_16-bound [] n h = ground (arith, h)
from_str_radix_16-bound (c ∷ s) n h = elim (Bool-cases (nat_eq c b'+')) [
  | inl plus ↦ digits-bound s n (ground (arith, plus, h))
  | inr digit ↦ digits-bound (c ∷ s) n (ground (arith, digit, h))
]

-- The text of a colour of three bytes.
abbrev pub color_text : ℕ → ℕ → ℕ → Str
color_text r g b = b'#' ∷ (hex_byte r ++ hex_byte g ++ hex_byte b)

-- A text that is normal: a hash and six lower case digits.
abbrev pub lower_digit : ℕ → Bool
lower_digit c = (leb 48 c && leb c 57) || (leb 97 c && leb c 102)

pub record IsColor (c : Str) : Type 0 where
  pub digits : Str
  pub hashed : c ≡ b'#' ∷ digits
  pub six : length digits ≡ 6
  pub lower : all lower_digit digits ≡ true

lower_digit-hex_char : (d : ℕ) → d < 16 → lower_digit (hex_char d) ≡ true
lower_digit-hex_char d h = ground (arith, h)

color_text-IsColor : (r g b : ℕ) → r < 256 → g < 256 → b < 256 → IsColor (color_text r g b)
unfolding all
color_text-IsColor r g b p q s = record {
  digits = hex_byte r ++ hex_byte g ++ hex_byte b;
  hashed = refl;
  six = refl;
  lower = ground (
    arith,
    lower_digit-hex_char (r / 16) (omega (arith, p)),
    lower_digit-hex_char (r % 16) (omega arith),
    lower_digit-hex_char (g / 16) (omega (arith, q)),
    lower_digit-hex_char (g % 16) (omega arith),
    lower_digit-hex_char (b / 16) (omega (arith, s)),
    lower_digit-hex_char (b % 16) (omega arith),
  );
}

hex_char_ascii : (d : ℕ) → d < 16 → ltb (hex_char d) 128 ≡ true
hex_char_ascii d h = ground (arith, h)

-- A text of bytes below 128 is as long in bytes as it has characters.
pub length-as_bytes : (s : Str) → all (λ c. ltb c 128) s ≡ true → length (as_bytes s) ≡ length s
unfolding as_bytes encode_char all
length-as_bytes [] h = refl
length-as_bytes (c ∷ s) h = ground (arith, h, length-as_bytes s)

-- Of six ASCII characters behind a hash, or without one.
pub normalize_ascii :
    (s : Str)
    → length s ≡ 6
    → all (λ c. ltb c 128) s ≡ true
    → normalize_color (b'#' ∷ s) ≡ six_digits s
unfolding normalize_color
normalize_ascii s six ascii = ground (arith, six, ascii, length-as_bytes s ascii)

six_digits-hex :
    (r g b : ℕ)
    → r < 256
    → g < 256
    → b < 256
    → six_digits (hex_byte r ++ hex_byte g ++ hex_byte b) ≡ ok (color_text r g b)
six_digits-hex r g b p q s = ground (
  arith,
  from_str_radix_16-hex_byte r p,
  from_str_radix_16-hex_byte g q,
  from_str_radix_16-hex_byte b s,
)

bytes_ascii :
    (r g b : ℕ)
    → r < 256
    → g < 256
    → b < 256
    → all (λ c. ltb c 128) (hex_byte r ++ hex_byte g ++ hex_byte b) ≡ true
unfolding all
bytes_ascii r g b p q s = ground (
  arith,
  hex_char_ascii (r / 16) (omega (arith, p)),
  hex_char_ascii (r % 16) (omega arith),
  hex_char_ascii (g / 16) (omega (arith, q)),
  hex_char_ascii (g % 16) (omega arith),
  hex_char_ascii (b / 16) (omega (arith, s)),
  hex_char_ascii (b % 16) (omega arith),
)

normalize-color_text :
    (r g b : ℕ)
    → r < 256
    → g < 256
    → b < 256
    → normalize_color (color_text r g b) ≡ ok (color_text r g b)
normalize-color_text r g b p q s =
    normalize_ascii (hex_byte r ++ hex_byte g ++ hex_byte b) refl (bytes_ascii r g b p q s)
    ∙ six_digits-hex r g b p q s

channel-inv : (s : Str) (i n : ℕ) → channel s i ≡ ok n → n < 256
channel-inv s i n h = elim (Option-cases (from_str_radix_16 (take 2 (drop i s)))) [
  | inl bad ↦ ground (arith, bad, h)
  | inr (m, e) ↦ ground (arith, e, h, from_str_radix_16-bound (take 2 (drop i s)) m e)
]

six_digits-inv :
    (s c : Str)
    → six_digits s ≡ ok c
    → (r : ℕ) × (g : ℕ) × (b : ℕ) × (r < 256) × (g < 256) × (b < 256) × (c ≡ color_text r g b)
six_digits-inv s c h =
    let (r, p, h1) = >>=-ok (channel s 0) _ h in
    let (g, q, h2) = >>=-ok (channel s 2) _ h1 in
    let (b, t, h3) = >>=-ok (channel s 4) _ h2 in
    (r, g, b, channel-inv s 0 r p, channel-inv s 2 g q, channel-inv s 4 b t, sym (ok_injective h3))

normalize-inv : (s c : Str) → normalize_color s ≡ ok c → six_digits (strip_hash s) ≡ ok c
unfolding normalize_color
normalize-inv s c h = ground (arith, h)

-- A colour that is accepted becomes a hash and six lower case digits, and this is a colour that
-- stays as it is.
pub normalize_color-IsColor :
    (s c : Str) → normalize_color s ≡ ok c → IsColor c × (normalize_color c ≡ ok c)
normalize_color-IsColor s c h =
    let (r, g, b, p, q, t, e) = six_digits-inv (strip_hash s) c (normalize-inv s c h) in
    (
      subst IsColor (sym e) (color_text-IsColor r g b p q t),
      subst (λ (x : Str). normalize_color x ≡ ok x) (sym e) (normalize-color_text r g b p q t),
    )
