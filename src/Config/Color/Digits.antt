-- ===== src/Config/Color/Digits.antt =====
-- crates/eg/src/config.rs: six hexadecimal digits are a colour.
use okayeg.Prelude.{
  ℕ, ◌+◌, ◌-◌, ◌*◌, ◌/◌, ◌%◌, ◌<◌, ◌≡◌, refl, ap, ◌∙◌, inl, inr, Bool, true, ◌&&◌, some, List, [],
  ◌∷◌, ◌++◌, Str, leb, ltb, length, map, all, Result, ok, if◌then◌else◌, arith, take, drop, ◌||◌,
  Bool-cases,
}
use okayeg.Config.Color.{
  ColorParseError, hex_digit, from_str_radix_16, hex_char, hex_byte, strip_hash, six_digits,
  normalize_color, normalize_stripped,
}
use okayeg.Config.Color.Hex.{lower_digit, normalize_ascii}

abbrev pub is_hex : ℕ → Bool
is_hex c = lower_digit c || (leb 65 c && leb c 70)

abbrev pub to_lower : ℕ → ℕ
to_lower c = if leb 65 c && leb c 70 then c + 32 else c

hex_digit-is_hex :
    (c : ℕ)
    → is_hex c ≡ true
    → (d : ℕ) × (d < 16) × (hex_digit c ≡ some d) × (hex_char d ≡ to_lower c)
hex_digit-is_hex c h = elim (Bool-cases (leb c 57)) [
  | inl decimal ↦
      (c - 48, ground (arith, h, decimal), ground (arith, h, decimal), ground (arith, h, decimal))
  | inr letter ↦ elim (Bool-cases (leb c 70)) [
    | inl upper ↦ (
      c - 55,
      ground (arith, h, letter, upper),
      ground (arith, h, letter, upper),
      ground (arith, h, letter, upper),
    )
    | inr low ↦ (
      c - 87,
      ground (arith, h, letter, low),
      ground (arith, h, letter, low),
      ground (arith, h, letter, low),
    )
  ]
]

byte_of :
    (a b : ℕ)
    → is_hex a ≡ true
    → is_hex b ≡ true
    → (n : ℕ) × (from_str_radix_16 (a ∷ b ∷ []) ≡ some n)
      × (hex_byte n ≡ to_lower a ∷ to_lower b ∷ [])
byte_of a b h k =
    let (d, small, digit, char) = hex_digit-is_hex a h in
    let (e, small1, digit1, char1) = hex_digit-is_hex b k in
    let high : (d * 16 + e) / 16 ≡ d = omega (arith, small1) in
    let low : (d * 16 + e) % 16 ≡ e = omega (arith, small1) in
    (
      d * 16 + e,
      ground (arith, small, small1, digit, digit1, h),
      ground (arith, high, low, char, char1),
    )

hex_ascii : (s : Str) → all is_hex s ≡ true → all (λ c. ltb c 128) s ≡ true
unfolding all
hex_ascii [] h = refl
hex_ascii (c ∷ s) h = ground (arith, h, hex_ascii s)

six_digits-of :
    (s : Str) (r g b : ℕ)
    → from_str_radix_16 (take 2 s) ≡ some r
    → from_str_radix_16 (take 2 (drop 2 s)) ≡ some g
    → from_str_radix_16 (take 2 (drop 4 s)) ≡ some b
    → six_digits s ≡ ok (b'#' ∷ (hex_byte r ++ hex_byte g ++ hex_byte b))
six_digits-of s r g b p q t = ground (arith, p, q, t)

joined :
    (r g b : ℕ) (x y z : Str)
    → hex_byte r ≡ x
    → hex_byte g ≡ y
    → hex_byte b ≡ z
    → ◌≡◌ {A = Result ColorParseError Str}
        (ok (b'#' ∷ (hex_byte r ++ hex_byte g ++ hex_byte b)))
        (ok (b'#' ∷ (x ++ y ++ z)))
joined r g b x y z p q t = cc

all-cons :
    (p : ℕ → Bool) (x : ℕ) (xs : List ℕ) → all p (x ∷ xs) ≡ true → (p x ≡ true) × (all p xs ≡ true)
unfolding all
all-cons p x xs h = (ground (arith, h), ground (arith, h))

bare : (a : ℕ) (s : Str) → is_hex a ≡ true → strip_hash (a ∷ s) ≡ a ∷ s
bare a s h = ground (arith, h)

six_digits-is_hex :
    (s : Str) → length s ≡ 6 → all is_hex s ≡ true → six_digits s ≡ ok (b'#' ∷ map to_lower s)
unfolding all
six_digits-is_hex [] k h = ground (arith, k)
six_digits-is_hex (a ∷ []) k h = ground (arith, k)
six_digits-is_hex (a ∷ b ∷ []) k h = ground (arith, k)
six_digits-is_hex (a ∷ b ∷ c ∷ []) k h = ground (arith, k)
six_digits-is_hex (a ∷ b ∷ c ∷ d ∷ []) k h = ground (arith, k)
six_digits-is_hex (a ∷ b ∷ c ∷ d ∷ e ∷ []) k h = ground (arith, k)
six_digits-is_hex (a ∷ b ∷ c ∷ d ∷ e ∷ f ∷ []) k h =
    let (ha, h1) = all-cons is_hex a (b ∷ c ∷ d ∷ e ∷ f ∷ []) h in
    let (hb, h2) = all-cons is_hex b (c ∷ d ∷ e ∷ f ∷ []) h1 in
    let (hc, h3) = all-cons is_hex c (d ∷ e ∷ f ∷ []) h2 in
    let (hd, h4) = all-cons is_hex d (e ∷ f ∷ []) h3 in
    let (he, h5) = all-cons is_hex e (f ∷ []) h4 in
    let (hf, h6) = all-cons is_hex f [] h5 in
    let (r, red, red_text) = byte_of a b ha hb in
    let (g, green, green_text) = byte_of c d hc hd in
    let (u, blue, blue_text) = byte_of e f he hf in
    six_digits-of (a ∷ b ∷ c ∷ d ∷ e ∷ f ∷ []) r g u red green blue
    ∙ joined r g u (to_lower a ∷ to_lower b ∷ []) (to_lower c ∷ to_lower d ∷ [])
        (to_lower e ∷ to_lower f ∷ []) red_text green_text blue_text
six_digits-is_hex (a ∷ b ∷ c ∷ d ∷ e ∷ f ∷ g ∷ s) k h = ground (arith, k)

-- Six hexadecimal digits in either case, behind a hash or without one, are the colour of the same
-- digits in lower case.
pub normalize_color-is_hex :
    (s : Str)
    → length s ≡ 6
    → all is_hex s ≡ true
    → (normalize_color (b'#' ∷ s) ≡ ok (b'#' ∷ map to_lower s))
      × (normalize_color s ≡ ok (b'#' ∷ map to_lower s))
unfolding normalize_color all
normalize_color-is_hex [] k h = ground (arith, k)
normalize_color-is_hex (a ∷ s) k h =
    let hashed = normalize_ascii (a ∷ s) k (hex_ascii (a ∷ s) h) ∙ six_digits-is_hex (a ∷ s) k h in
    (hashed, ap normalize_stripped (bare a s (all-cons is_hex a s h).0) ∙ hashed)
