-- ===== src/Tests/Slicing.antt =====
-- A text library whose slices meet the laws, and the theorem on reads there.
use okayeg.Prelude.{
  ℕ, zero, suc, ◌-◌, ◌≤◌, ◌≡◌, refl, sym, ap, ◌∙◌, true, Option, none, some, List, [], ◌∷◌, ◌++◌,
  append-nil, Str, Bytes, leb, is_some, length, take, drop, Option-cases, Bool-cases, inl, inr,
  arith, some_injective, if◌then◌else◌,
}
use okayeg.Prelude.Options.{and_then}
use okayeg.Utf8.{as_bytes, encode_char}
use okayeg.Fs.Slice.{read_bytes, concat_bytes}
use okayeg.Fs.Slice.Boundary.{width, is_char_boundary}
use okayeg.Fs.Slice.Exact.{IsSlicing, read_bytes_lem}

-- The text behind its first bytes, if these are whole characters.
unfoldable skip : Str → ℕ → Option Str
skip [] i = if leb i 0 then some [] else none
skip (c ∷ s) i =
    let rest = skip s (i - width c) in
    if leb i 0 then some (c ∷ s) else if leb (width c) i then rest else none

-- The text of the first bytes, if these are whole characters.
unfoldable front : Str → ℕ → Option Str
front [] i = if leb i 0 then some [] else none
front (c ∷ s) i =
    let rest = front s (i - width c) in
    if leb i 0 then some [] else if leb (width c) i then and_then rest (λ r. some (c ∷ r)) else none

abbrev slice : Str → ℕ → ℕ → Option (List Str)
slice s a b = and_then (skip s a) (λ rest. and_then (front rest (b - a)) (λ p. some (p ∷ [])))

drop_from : (xs ys : Bytes) (i : ℕ) → length xs ≤ i → drop i (xs ++ ys) ≡ drop (i - length xs) ys
drop_from [] ys i h = ap (λ (k : ℕ). drop k ys) (omega arith)
drop_from (x ∷ xs) ys zero h = ground (arith, h)
drop_from (x ∷ xs) ys (suc i) h =
    let same : suc i - suc (length xs) ≡ i - length xs = omega arith in
    drop_from xs ys i (omega (arith, h)) ∙ ap (λ (k : ℕ). drop k ys) (sym same)

take_from :
    (xs ys : Bytes) (i : ℕ) → length xs ≤ i → take i (xs ++ ys) ≡ xs ++ take (i - length xs) ys
take_from [] ys i h = ap (λ (k : ℕ). take k ys) (omega arith)
take_from (x ∷ xs) ys zero h = ground (arith, h)
take_from (x ∷ xs) ys (suc i) h =
    let same : suc i - suc (length xs) ≡ i - length xs = omega arith in
    ap (λ (l : Bytes). x ∷ l)
      (take_from xs ys i (omega (arith, h)) ∙ ap (λ (k : ℕ). xs ++ take k ys) (sym same))

as_bytes-skip : (s r : Str) (i : ℕ) → skip s i ≡ some r → as_bytes r ≡ drop i (as_bytes s)
unfolding skip as_bytes
as_bytes-skip [] r zero h = ap as_bytes (sym (some_injective h))
as_bytes-skip [] r (suc i) h = ground (arith, h)
as_bytes-skip (c ∷ s) r zero h = ap as_bytes (sym (some_injective h))
as_bytes-skip (c ∷ s) r (suc i) h = elim (Bool-cases (leb (width c) (suc i))) [
  | inl far ↦
      as_bytes-skip s r (suc i - width c) (ground (arith, far, h))
      ∙ sym (drop_from (encode_char c) (as_bytes s) (suc i) (ground (arith, far)))
  | inr near ↦ ground (arith, near, h)
]

as_bytes-front : (s p : Str) (i : ℕ) → front s i ≡ some p → as_bytes p ≡ take i (as_bytes s)
unfolding front as_bytes
as_bytes-front [] p zero h = ap as_bytes (sym (some_injective h))
as_bytes-front [] p (suc i) h = ground (arith, h)
as_bytes-front (c ∷ s) p zero h = ap as_bytes (sym (some_injective h))
as_bytes-front (c ∷ s) p (suc i) h = elim (Bool-cases (leb (width c) (suc i))) [
  | inl far ↦ elim (Option-cases (front s (suc i - width c))) [
    | inl none_left ↦ ground (arith, far, none_left, h)
    | inr (r, e) ↦
        let whole : c ∷ r ≡ p = some_injective (ground (arith, far, e, h)) in
        ap as_bytes (sym whole)
        ∙ ap (λ (l : Bytes). encode_char c ++ l) (as_bytes-front s r (suc i - width c) e)
        ∙ sym (take_from (encode_char c) (as_bytes s) (suc i) (ground (arith, far)))
  ]
  | inr near ↦ ground (arith, near, h)
]

skip_total :
    (s : Str) (i j : ℕ)
    → i ≤ j
    → is_char_boundary s i ≡ true
    → is_char_boundary s j ≡ true
    → (r : Str) × (skip s i ≡ some r) × (is_char_boundary r (j - i) ≡ true)
unfolding skip is_char_boundary
skip_total [] i j h p q = ([], ground (arith, p), ground (arith, q))
skip_total (c ∷ s) zero j h p q = (c ∷ s, refl, ap (is_char_boundary (c ∷ s)) (omega arith) ∙ q)
skip_total (c ∷ s) (suc i) j h p q =
    let (r, e, k) =
      skip_total s (suc i - width c) (j - width c) (omega (arith, h)) (ground (arith, p))
        (ground (arith, q, h)) in
    let wide : width c ≤ suc i = ground (arith, p) in
    let same : j - suc i ≡ j - width c - (suc i - width c) = omega (arith, h, wide) in
    (r, ground (arith, p, e), ap (is_char_boundary r) same ∙ k)

front_total : (s : Str) (i : ℕ) → is_char_boundary s i ≡ true → (p : Str) × (front s i ≡ some p)
unfolding front is_char_boundary
front_total [] i h = ([], ground (arith, h))
front_total (c ∷ s) zero h = ([], refl)
front_total (c ∷ s) (suc i) h =
    let (p, e) = front_total s (suc i - width c) (ground (arith, h)) in
    (c ∷ p, ground (arith, e, h))

slice_lem :
    (s : Str) (a b : ℕ) (pieces : List Str)
    → slice s a b ≡ some pieces
    → concat_bytes pieces ≡ take (b - a) (drop a (as_bytes s))
slice_lem s a b pieces h = elim (Option-cases (skip s a)) [
  | inl refused ↦ ground (arith, refused, h)
  | inr (r, e) ↦ elim (Option-cases (front r (b - a))) [
    | inl refused ↦ ground (arith, e, refused, h)
    | inr (p, k) ↦
        let only : p ∷ [] ≡ pieces = some_injective (ground (arith, e, k, h)) in
        ap concat_bytes (sym only)
        ∙ append-nil (as_bytes p)
        ∙ as_bytes-front r p (b - a) k
        ∙ ap (take (b - a)) (as_bytes-skip s r a e)
  ]
]

slice_total :
    (s : Str) (a b : ℕ)
    → a ≤ b
    → is_char_boundary s a ≡ true
    → is_char_boundary s b ≡ true
    → is_some (slice s a b) ≡ true
slice_total s a b h p q =
    let (r, e, k) = skip_total s a b h p q in
    let (t, f) = front_total r (b - a) k in ground (arith, e, f)

slice-IsSlicing : IsSlicing slice
slice-IsSlicing = record {
  slice_delta_lem = λ s a b pieces p q h. slice_lem s a b pieces h;
  slice_delta_total = slice_total;
}

-- A range that begins and ends inside characters of two and of three bytes.
read_bytes_lem_example :
    read_bytes slice (0x61 ∷ 0xe9 ∷ 0x20ac ∷ []) 2 3
    ≡ some (take 3 (drop 2 (as_bytes (0x61 ∷ 0xe9 ∷ 0x20ac ∷ []))))
read_bytes_lem_example =
    read_bytes_lem slice slice-IsSlicing (0x61 ∷ 0xe9 ∷ 0x20ac ∷ []) 2 3
      (unfold as_bytes in omega arith)
