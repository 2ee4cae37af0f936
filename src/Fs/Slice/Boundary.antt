-- ===== src/Fs/Slice/Boundary.antt =====
-- crates/okayeg/src/fs.rs: where the characters of a text lie among its bytes.
use okayeg.Prelude.{
  ℕ, zero, suc, ◌+◌, ◌-◌, ◌≤◌, ◌<◌, ◌≡◌, refl, ap, ◌∙◌, inl, inr, Bool, true, ◌&&◌, [], ◌∷◌, Str,
  leb, length, length-append, Bool-cases, arith, if◌then◌else◌,
}
use okayeg.Utf8.{encode_char, as_bytes}

abbrev pub width : ℕ → ℕ
width c = length (encode_char c)

-- `str::is_char_boundary`
unfoldable pub is_char_boundary : Str → ℕ → Bool
is_char_boundary [] i = leb i 0
is_char_boundary (c ∷ s) i =
    let rest = is_char_boundary s (i - width c) in if leb i 0 then true else leb (width c) i && rest

width_small : (c : ℕ) → width c ≤ 4
unfolding encode_char
width_small c = ground arith

length-as_bytes-cons : (c : ℕ) (s : Str) → length (as_bytes (c ∷ s)) ≡ width c + length (as_bytes s)
unfolding as_bytes
length-as_bytes-cons c s = length-append (encode_char c) (as_bytes s)

pub boundary_zero : (s : Str) → is_char_boundary s 0 ≡ true
unfolding is_char_boundary
boundary_zero [] = refl
boundary_zero (c ∷ s) = refl

boundary_step :
    (c : ℕ) (s : Str) (i : ℕ)
    → width c ≤ i
    → is_char_boundary s (i - width c) ≡ true
    → is_char_boundary (c ∷ s) i ≡ true
unfolding is_char_boundary
boundary_step c s i h k = ground (arith, h, k)

-- There is a boundary at most three bytes before any position of a text.
pub boundary_before :
    (s : Str) (i : ℕ)
    → i ≤ length (as_bytes s)
    → (k : ℕ) × (k ≤ 3) × (k ≤ i) × (is_char_boundary s (i - k) ≡ true)
boundary_before [] i h =
    (0, omega arith, omega arith, unfold as_bytes is_char_boundary in ground (arith, h))
boundary_before (c ∷ s) i h = elim (Bool-cases (leb (width c) i)) [
  | inl far ↦
      let w = width c in
      let wide : w ≤ i = ground (arith, far) in
      let (k, small, inside, at) =
        boundary_before s (i - w) (omega (arith, h, length-as_bytes-cons c s)) in
      let same : i - k - w ≡ i - w - k = omega arith in
      (
        k,
        small,
        omega (arith, inside),
        boundary_step c s (i - k) (omega (arith, inside, wide)) (ap (is_char_boundary s) same ∙ at),
      )
  | inr near ↦
      let gone : i - i ≡ 0 = omega arith in
      (
        i,
        ground (arith, near, width_small c),
        omega arith,
        ap (is_char_boundary (c ∷ s)) gone ∙ boundary_zero (c ∷ s),
      )
]

-- And one at most three bytes behind it.
pub boundary_after :
    (s : Str) (i : ℕ)
    → i ≤ length (as_bytes s)
    → (k : ℕ) × (k ≤ 3) × (i + k ≤ length (as_bytes s)) × (is_char_boundary s (i + k) ≡ true)
boundary_after [] i h =
    let none_left : length (as_bytes []) ≡ 0 = unfold as_bytes in refl in
    (0, omega arith, omega (arith, h), unfold is_char_boundary in ground (arith, h, none_left))
boundary_after (c ∷ s) zero h = (0, omega arith, omega (arith, h), boundary_zero (c ∷ s))
boundary_after (c ∷ s) (suc j) h = elim (Bool-cases (leb (width c) (suc j))) [
  | inl far ↦
      let i = suc j in
      let w = width c in
      let wide : w ≤ suc j = ground (arith, far) in
      let len = length-as_bytes-cons c s in
      let (k, small, inside, at) = boundary_after s (suc j - w) (omega (arith, h, len)) in
      let same : suc j + k - w ≡ suc j - w + k = omega (arith, wide) in
      (
        k,
        small,
        omega (arith, inside, len, wide),
        boundary_step c s (suc j + k) (omega (arith, wide)) (ap (is_char_boundary s) same ∙ at),
      )
  | inr near ↦
      let w = width c in
      let narrow : suc j < w = ground (arith, near) in
      let whole : suc j + (w - suc j) ≡ w = omega (arith, narrow) in
      let start : w - w ≡ 0 = omega arith in
      (
        w - suc j,
        omega (arith, width_small c),
        omega (arith, narrow, length-as_bytes-cons c s),
        ap (is_char_boundary (c ∷ s)) whole
            ∙ boundary_step c s w (omega arith) (ap (is_char_boundary s) start ∙ boundary_zero s),
      )
]
