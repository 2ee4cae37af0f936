-- ===== src/Fs/Slice/Exact.antt =====
-- crates/okayeg/src/fs.rs: `read_bytes` reads exactly the range.
use okayeg.Prelude.{
  ℕ, zero, suc, ◌+◌, ◌-◌, ◌≤◌, ◌<◌, ◌≡◌, refl, sym, ap, ◌∙◌, inl, inr, min, Bool, true, false, ◌&&◌,
  ◌||◌, Option, some, List, [], ◌∷◌, Str, Bytes, leb, nat_eq, is_some, length, take, drop,
  drop-drop, length-take, Bool-cases, Option-cases, arith,
}
use okayeg.Prelude.Vec.{length-drop, take-min, drop_all}
use okayeg.Utf8.{as_bytes}
use okayeg.Fs.Slice.{usize_max, saturating_add, concat_bytes, widenings, trimmed, widen, read_bytes}
use okayeg.Fs.Slice.Boundary.{is_char_boundary, boundary_before, boundary_after}

-- `LoroText::slice_delta` at byte positions: what it gives is the text of the range, and it gives
-- something for every range of whole characters.
pub record IsSlicing (slice_delta : Str → ℕ → ℕ → Option (List Str)) : Type 0 where
  pub slice_delta_lem :
      (s : Str) (a b : ℕ) (pieces : List Str)
      → a ≤ b
      → b ≤ length (as_bytes s)
      → slice_delta s a b ≡ some pieces
      → concat_bytes pieces ≡ take (b - a) (drop a (as_bytes s))
  pub slice_delta_total :
      (s : Str) (a b : ℕ)
      → a ≤ b
      → is_char_boundary s a ≡ true
      → is_char_boundary s b ≡ true
      → is_some (slice_delta s a b) ≡ true

take-take : (m n : ℕ) (xs : Bytes) → m ≤ n → take m (take n xs) ≡ take m xs
take-take zero n xs h = refl
take-take (suc m) zero xs h = ground (arith, h)
take-take (suc m) (suc n) [] h = refl
take-take (suc m) (suc n) (x ∷ xs) h =
    ap (λ (l : Bytes). x ∷ l) (take-take m n xs (omega (arith, h)))

take-drop-take :
    (m k n : ℕ) (xs : Bytes) → k + m ≤ n → take m (drop k (take n xs)) ≡ take m (drop k xs)
take-drop-take m zero n xs h = take-take m n xs (omega (arith, h))
take-drop-take m (suc k) zero xs h = ground (arith, h)
take-drop-take m (suc k) (suc n) [] h = refl
take-drop-take m (suc k) (suc n) (x ∷ xs) h = take-drop-take m k n xs (omega (arith, h))

-- Whether a list of widenings has these two.
has_widening : ℕ → ℕ → List (ℕ × ℕ) → Bool
has_widening i j [] = false
has_widening i j ((a, b) ∷ rest) = (nat_eq i a && nat_eq j b) || has_widening i j rest

widenings_complete : (i j : ℕ) → i ≤ 3 → j ≤ 3 → has_widening i j widenings ≡ true
unfolding has_widening
widenings_complete i j h k = ground (arith, h, k)

module _ (slice_delta : Str → ℕ → ℕ → Option (List Str)) (laws : IsSlicing slice_delta) (s : Str)
    (offset end : ℕ) (inside : offset ≤ end) (bound : end ≤ length (as_bytes s)) where
  trimmed_lem :
      (start stop : ℕ) (pieces : List Str)
      → start ≤ offset
      → end ≤ stop
      → stop ≤ length (as_bytes s)
      → slice_delta s start stop ≡ some pieces
      → trimmed slice_delta offset end start pieces
        ≡ some (take (end - offset) (drop offset (as_bytes s)))
  trimmed_lem start stop pieces p q r h =
      let bytes = as_bytes s in
      let from = offset - start in
      let size = end - offset in
      let given = laws.slice_delta_lem s start stop pieces (omega (arith, inside, p, q)) r h in
      let len : length (concat_bytes pieces) ≡ stop - start =
        ap length given
        ∙ length-take (stop - start) (drop start bytes)
        ∙ omega (arith, length-drop start bytes, r) in
      let fits : from + size ≤ stop - start = omega (arith, inside, p, q) in
      let cut : from + size - from ≡ size = omega arith in
      let whole : start + from ≡ offset = omega (arith, p) in
      let range : take (from + size - from) (drop from (concat_bytes pieces))
          ≡ take size (drop offset bytes) =
        ap (λ (n : ℕ). take n (drop from (concat_bytes pieces))) cut
        ∙ ap (λ (l : Bytes). take size (drop from l)) given
        ∙ take-drop-take size from (stop - start) (drop start bytes) fits
        ∙ ap (take size) (sym (drop-drop start from bytes) ∙ ap (λ (n : ℕ). drop n bytes) whole) in
      ground (arith, len, fits, range)

  widen_lem :
      (i j : ℕ) (list : List (ℕ × ℕ))
      → has_widening i j list ≡ true
      → is_some (slice_delta s (offset - i) (min (length (as_bytes s)) (end + j))) ≡ true
      → widen slice_delta s offset end list ≡ some (take (end - offset) (drop offset (as_bytes s)))
  unfolding widen has_widening
  widen_lem i j [] h k = ground (arith, h)
  widen_lem i j ((a, b) ∷ rest) h k =
      elim (Option-cases (slice_delta s (offset - a) (min (length (as_bytes s)) (end + b)))) [
        | inl refused ↦ ground (arith, h, k, refused, widen_lem i j rest)
        | inr (pieces, given) ↦
            let found =
              trimmed_lem (offset - a) (min (length (as_bytes s)) (end + b)) pieces (omega arith)
                (omega (arith, bound)) (omega arith) given in
            ground (arith, given, found)
      ]

-- What is read of a text, of at most as many bytes as a machine word counts, is exactly the range of
-- its bytes, cut at the end, wherever the range begins and ends among its characters: the bytes that
-- `slice_delta` gives are those of the range, if it accepts every range of whole characters.
pub read_bytes_lem :
    (slice_delta : Str → ℕ → ℕ → Option (List Str)) (laws : IsSlicing slice_delta) (s : Str)
    (offset size : ℕ)
    → length (as_bytes s) ≤ usize_max
    → read_bytes slice_delta s offset size ≡ some (take size (drop offset (as_bytes s)))
unfolding read_bytes
read_bytes_lem slice_delta laws s offset zero h =
    let nothing : leb (length (as_bytes s)) offset || nat_eq 0 0 ≡ true = ground arith in
    ground (arith, nothing)
read_bytes_lem slice_delta laws s offset (suc n) h =
    elim (Bool-cases (leb (length (as_bytes s)) offset)) [
      | inl behind ↦
          let nothing : drop offset (as_bytes s) ≡ [] =
            drop_all offset (as_bytes s) (ground (arith, behind)) in
          ground (arith, behind, ap (take (suc n)) nothing)
      | inr before ↦
          let bytes = as_bytes s in
          let size = suc n in
          let end = min (length bytes) (saturating_add offset size) in
          let starts : offset < length bytes = ground (arith, before) in
          let (i, small, inside, at) = boundary_before s offset (omega (arith, starts)) in
          let (j, small1, inside1, at1) = boundary_after s end (omega arith) in
          let start : min (length bytes) (end + j) ≡ end + j = omega (arith, inside1) in
          let given =
            laws.slice_delta_total s (offset - i) (end + j) (omega (arith, starts, h)) at at1 in
          let accepted = ap (λ (b : ℕ). is_some (slice_delta s (offset - i) b)) start ∙ given in
          let cut : end - offset ≡ min size (length (drop offset bytes)) =
            ground (arith, starts, h, length-drop offset bytes) in
          let read =
            widen_lem slice_delta laws s offset end (omega (arith, starts, h)) (omega arith) i j
              widenings (widenings_complete i j small small1) accepted in
          let exact : take (end - offset) (drop offset bytes) ≡ take size (drop offset bytes) =
            ap (λ (k : ℕ). take k (drop offset bytes)) cut ∙ take-min size (drop offset bytes) in
          ground (arith, before, read, exact)
    ]
