-- ===== src/Utf8/RoundTrip.antt =====
-- Rust's UTF-8: the bytes of a text decode to the text.
use okayeg.Prelude.{
  ℕ, zero, suc, ◌+◌, ◌-◌, ◌*◌, ◌/◌, ◌%◌, ◌≤◌, ◌<◌, ◌≡◌, refl, true, none, some, [], ◌∷◌, ◌++◌, Str,
  Bytes, All, length, arith, ap, ◌∙◌, length-append,
}
use native.Mathlib.Decide.{dec_lt}
use okayeg.Utf8.{
  second_of_3, second_of_4, is_tail, is_scalar, encode_char, as_bytes, head, Head, decode_within,
  from_utf8, lossy_within, from_utf8_lossy,
}

-- The head of bytes, as one function of the bytes.
abbrev head_of : Bytes → Head
head_of [] = (none, [])
head_of (b ∷ r) = head b r

head-1 : (c : ℕ) (r : Bytes) → c < 0x80 → head_of (encode_char c ++ r) ≡ (some c, r)
unfolding head encode_char
head-1 c r h = ground arith

value_2 : (c : ℕ) → c < 0x800 → (0xc0 + c / 64 - 0xc0) * 64 + (0x80 + c % 64 - 0x80) ≡ c
value_2 c h = omega arith

head-2 : (c : ℕ) (r : Bytes) → 0x80 ≤ c → c < 0x800 → head_of (encode_char c ++ r) ≡ (some c, r)
unfolding head encode_char
head-2 c r l h = ground (arith, value_2 c h)

value_3 :
    (c : ℕ)
    → c < 0x10000
    → (0xe0 + c / 4096 - 0xe0) * 4096 + (0x80 + c / 64 % 64 - 0x80) * 64 + (0x80 + c % 64 - 0x80)
      ≡ c
value_3 c h = omega arith

first_3 : (c : ℕ) → 0x800 ≤ c → c < 0x10000 → (0xe0 ≤ 0xe0 + c / 4096) × (0xe0 + c / 4096 < 0xf0)
first_3 c l h = (omega arith, omega arith)

-- The second byte of three is in the range that the first allows.
second_3 :
    (c : ℕ)
    → 0x800 ≤ c
    → c < 0x10000
    → is_scalar c ≡ true
    → second_of_3 (0xe0 + c / 4096) (0x80 + c / 64 % 64) ≡ true
unfolding is_scalar
second_3 c l h s = ground arith

tail_in_range : (n : ℕ) → is_tail (0x80 + n % 64) ≡ true
tail_in_range n = ground arith

head-3 :
    (c : ℕ) (r : Bytes)
    → 0x800 ≤ c
    → c < 0x10000
    → is_scalar c ≡ true
    → head_of (encode_char c ++ r) ≡ (some c, r)
unfolding head encode_char
head-3 c r l h s = ground (arith, value_3 c h, first_3 c l h, second_3 c l h s, tail_in_range c)

value_4 :
    (c : ℕ)
    → c < 0x110000
    → (0xf0 + c / 262144 - 0xf0) * 262144
        + (0x80 + c / 4096 % 64 - 0x80) * 4096
        + (0x80 + c / 64 % 64 - 0x80) * 64
        + (0x80 + c % 64 - 0x80)
      ≡ c
value_4 c h = omega arith

second_4 :
    (c : ℕ)
    → 0x10000 ≤ c
    → c < 0x110000
    → second_of_4 (0xf0 + c / 262144) (0x80 + c / 4096 % 64) ≡ true
second_4 c l h = ground arith

first_4 : (c : ℕ) → c < 0x110000 → (0xf0 ≤ 0xf0 + c / 262144) × (0xf0 + c / 262144 < 0xf5)
first_4 c h = (omega arith, omega arith)

head-4 :
    (c : ℕ) (r : Bytes) → 0x10000 ≤ c → c < 0x110000 → head_of (encode_char c ++ r) ≡ (some c, r)
unfolding head encode_char
head-4 c r l h =
    ground
      (arith, value_4 c h, first_4 c h, second_4 c l h, tail_in_range c, tail_in_range (c / 64))

is_scalar-lt : (c : ℕ) → is_scalar c ≡ true → c < 0x110000
unfolding is_scalar
is_scalar-lt c s = ground arith

pub head-encode_char :
    (c : ℕ) (r : Bytes) → is_scalar c ≡ true → head_of (encode_char c ++ r) ≡ (some c, r)
head-encode_char c r s = elim (dec_lt c 0x80) [
  | yes h ↦ head-1 c r h
  | no h ↦ elim (dec_lt c 0x800) [
    | yes k ↦ head-2 c r (omega arith) k
    | no k ↦ elim (dec_lt c 0x10000) [
      | yes j ↦ head-3 c r (omega arith) j s
      | no j ↦ head-4 c r (omega arith) (is_scalar-lt c s)
    ]
  ]
]

pub length-encode_char : (c : ℕ) → 1 ≤ length (encode_char c)
unfolding encode_char
length-encode_char c = ground arith

-- One round of a decoding, at bytes whose head is known.
decode_within-head :
    (fuel c : ℕ) (bytes r : Bytes) (s : Str)
    → head_of bytes ≡ (some c, r)
    → decode_within fuel r ≡ some s
    → decode_within (suc fuel) bytes ≡ some (c ∷ s)
unfolding decode_within
decode_within-head fuel c [] r s h k = cc
decode_within-head fuel c (b ∷ bs) r s h k = ground arith

lossy_within-head :
    (fuel c : ℕ) (bytes r : Bytes)
    → head_of bytes ≡ (some c, r)
    → lossy_within (suc fuel) bytes ≡ c ∷ lossy_within fuel r
unfolding lossy_within
lossy_within-head fuel c [] r h = cc
lossy_within-head fuel c (b ∷ bs) r h = ground arith

abbrev pub AllScalar : Str → Type 0
AllScalar = All (λ c. is_scalar c ≡ true)

decode_within-as_bytes :
    (fuel : ℕ) (s : Str)
    → AllScalar s
    → length (as_bytes s) ≤ fuel
    → decode_within fuel (as_bytes s) ≡ some s
unfolding as_bytes
decode_within-as_bytes fuel [] h enough = unfold decode_within in refl
decode_within-as_bytes zero (c ∷ s) (v, h) enough =
    absurd (omega (arith, length-append (encode_char c) (as_bytes s), length-encode_char c))
decode_within-as_bytes (suc fuel) (c ∷ s) (v, h) enough =
    decode_within-head fuel c (encode_char c ++ as_bytes s) (as_bytes s) s
      (head-encode_char c (as_bytes s) v)
      (decode_within-as_bytes fuel s h
        (omega (arith, length-append (encode_char c) (as_bytes s), length-encode_char c)))

lossy_within-as_bytes :
    (fuel : ℕ) (s : Str)
    → AllScalar s
    → length (as_bytes s) ≤ fuel
    → lossy_within fuel (as_bytes s) ≡ s
unfolding as_bytes
lossy_within-as_bytes fuel [] h enough = unfold lossy_within in refl
lossy_within-as_bytes zero (c ∷ s) (v, h) enough =
    absurd (omega (arith, length-append (encode_char c) (as_bytes s), length-encode_char c))
lossy_within-as_bytes (suc fuel) (c ∷ s) (v, h) enough =
    lossy_within-head fuel c (encode_char c ++ as_bytes s) (as_bytes s)
      (head-encode_char c (as_bytes s) v)
    ∙ ap (λ l. c ∷ l)
        (lossy_within-as_bytes fuel s h
          (omega (arith, length-append (encode_char c) (as_bytes s), length-encode_char c)))

pub from_utf8-as_bytes : (s : Str) → AllScalar s → from_utf8 (as_bytes s) ≡ some s
unfolding from_utf8
from_utf8-as_bytes s h = decode_within-as_bytes (length (as_bytes s)) s h (omega arith)

pub from_utf8_lossy-as_bytes : (s : Str) → AllScalar s → from_utf8_lossy (as_bytes s) ≡ s
unfolding from_utf8_lossy
from_utf8_lossy-as_bytes s h = lossy_within-as_bytes (length (as_bytes s)) s h (omega arith)
