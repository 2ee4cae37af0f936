-- ===== src/Presence/Wire/Bound.antt =====
-- crates/okayeg/src/presence/wire.rs: how deep the values nest that are read.
use okayeg.Prelude.{
  ℕ, zero, suc, ◌≤◌, ◌≡◌, refl, ap, subst, Option, none, some, Bytes, max, arith, some_injective,
  none_is_not_some,
}
use okayeg.Prelude.Options.{◌>>=◌}
use okayeg.Presence.Wire.{
  Value, Values, Pairs, null, boolean, double, integer, string, list, map, binary, nil, cons, empty,
  pair, Postcard, Tag, null_tag, bool_tag, double_tag, i32_tag, string_tag, list_tag, map_tag,
  container_tag, binary_tag, tag_of, mapped, Reader, visit_seq, visit_map, list_with, map_with,
  visit_variant, visit_tagged, deserialize,
}

-- How deep a value nests; a leaf counts 1.
unfoldable mutual
  pub depth : Value → ℕ
  depth null = 1
  depth (boolean v) = 1
  depth (double v) = 1
  depth (integer v) = 1
  depth (string v) = 1
  depth (list vs) = suc (depth_values vs)
  depth (map ps) = suc (depth_pairs ps)
  depth (binary v) = 1

  pub depth_values : Values → ℕ
  depth_values nil = 0
  depth_values (cons v vs) = max (depth v) (depth_values vs)

  pub depth_pairs : Pairs → ℕ
  depth_pairs empty = 0
  depth_pairs (pair k v ps) = max (depth v) (depth_pairs ps)

-- A chain that goes on had a first result.
pub >>=-some :
    {A B : Type 0} (o : Option A) (f : A → Option B) (y : B)
    → (o >>= f) ≡ some y
    → (x : A) × (o ≡ some x) × (f x ≡ some y)
>>=-some none f y h = elim (none_is_not_some h) [ ]
>>=-some (some x) f y h = (x, refl, h)

mapped-inv :
    {A : Type 0} (f : A → Value) (o : Option (A × Bytes)) (v : Value) (r : Bytes)
    → mapped f o ≡ some (v, r)
    → (x : A) × (o ≡ some (x, r)) × (f x ≡ v)
mapped-inv f none v r h = elim (none_is_not_some h) [ ]
mapped-inv f (some (x, b)) v r h = (
  x,
  ap (λ (y : Value × Bytes). some (x, y.1)) (some_injective h),
  ap (λ (y : Value × Bytes). y.0) (some_injective h),
)

module _ (P : Postcard) where
  -- A reader of values that nest so deep at most.
  abbrev IsBounded : ℕ → Reader → Type 0
  IsBounded d next = (b : Bytes) (v : Value) (r : Bytes) → next b ≡ some (v, r) → depth v ≤ d

  module _ (next : Reader) (d : ℕ) (bounded : IsBounded d next) where
    seq_depth :
        (n : ℕ) (b : Bytes) (vs : Values) (r : Bytes)
        → visit_seq P next n b ≡ some (vs, r)
        → depth_values vs ≤ d
    unfolding visit_seq depth
    seq_depth zero b vs r h =
        let e : nil ≡ vs = ap (λ (y : Values × Bytes). y.0) (some_injective h) in
        subst (λ (w : Values). depth_values w ≤ d) e (omega arith)
    seq_depth (suc n) b vs r h =
        let (x, read, h1) = >>=-some (next b) _ (vs, r) h in
        let (xs, reads, h2) = >>=-some (visit_seq P next n x.1) _ (vs, r) h1 in
        let e : cons x.0 xs.0 ≡ vs = ap (λ (y : Values × Bytes). y.0) (some_injective h2) in
        let first = bounded b x.0 x.1 read in
        let rest = seq_depth n x.1 xs.0 xs.1 reads in
        subst (λ (w : Values). depth_values w ≤ d) e (omega (arith, first, rest))

    map_depth :
        (n : ℕ) (b : Bytes) (ps : Pairs) (r : Bytes)
        → visit_map P next n b ≡ some (ps, r)
        → depth_pairs ps ≤ d
    unfolding visit_map depth
    map_depth zero b ps r h =
        let e : empty ≡ ps = ap (λ (y : Pairs × Bytes). y.0) (some_injective h) in
        subst (λ (w : Pairs). depth_pairs w ≤ d) e (omega arith)
    map_depth (suc n) b ps r h =
        let (k, key, h0) = >>=-some (P.text.decode b) _ (ps, r) h in
        let (x, read, h1) = >>=-some (next k.1) _ (ps, r) h0 in
        let (xs, reads, h2) = >>=-some (visit_map P next n x.1) _ (ps, r) h1 in
        let e : pair k.0 x.0 xs.0 ≡ ps = ap (λ (y : Pairs × Bytes). y.0) (some_injective h2) in
        let first = bounded k.1 x.0 x.1 read in
        let rest = map_depth n x.1 xs.0 xs.1 reads in
        subst (λ (w : Pairs). depth_pairs w ≤ d) e (omega (arith, first, rest))

    list_depth :
        (o : Option (ℕ × Bytes)) (vs : Values) (r : Bytes)
        → list_with P next o ≡ some (vs, r)
        → depth_values vs ≤ d
    list_depth none vs r h = elim (none_is_not_some h) [ ]
    list_depth (some (n, b)) vs r h = seq_depth n b vs r h

    pairs_depth :
        (o : Option (ℕ × Bytes)) (ps : Pairs) (r : Bytes)
        → map_with P next o ≡ some (ps, r)
        → depth_pairs ps ≤ d
    pairs_depth none ps r h = elim (none_is_not_some h) [ ]
    pairs_depth (some (n, b)) ps r h = map_depth n b ps r h

    at_value : (w v : Value) → w ≡ v → depth w ≤ suc d → depth v ≤ suc d
    at_value w v e = subst (λ (x : Value). depth x ≤ suc d) e

    -- What is read behind a tag nests one level deeper at most.
    variant_depth :
        (t : Option Tag) (b : Bytes) (v : Value) (r : Bytes)
        → visit_variant P next t b ≡ some (v, r)
        → depth v ≤ suc d
    unfolding visit_variant depth
    variant_depth none b v r h = elim (none_is_not_some h) [ ]
    variant_depth (some null_tag) b v r h =
        at_value null v (ap (λ (y : Value × Bytes). y.0) (some_injective h)) (omega arith)
    variant_depth (some bool_tag) b v r h =
        let (x, o, e) = mapped-inv boolean _ v r h in at_value (boolean x) v e (omega arith)
    variant_depth (some double_tag) b v r h =
        let (x, o, e) = mapped-inv double _ v r h in at_value (double x) v e (omega arith)
    variant_depth (some i32_tag) b v r h =
        let (x, o, e) = mapped-inv integer _ v r h in at_value (integer x) v e (omega arith)
    variant_depth (some string_tag) b v r h =
        let (x, o, e) = mapped-inv string _ v r h in at_value (string x) v e (omega arith)
    variant_depth (some list_tag) b v r h =
        let (vs, o, e) = mapped-inv list _ v r h in
        let inner = list_depth (P.len.decode b) vs r o in
        at_value (list vs) v e (omega (arith, inner))
    variant_depth (some map_tag) b v r h =
        let (ps, o, e) = mapped-inv map _ v r h in
        let inner = pairs_depth (P.len.decode b) ps r o in
        at_value (map ps) v e (omega (arith, inner))
    variant_depth (some container_tag) b v r h = elim (none_is_not_some h) [ ]
    variant_depth (some binary_tag) b v r h =
        let (x, o, e) = mapped-inv binary _ v r h in at_value (binary x) v e (omega arith)

    tagged_depth :
        (o : Option (ℕ × Bytes)) (v : Value) (r : Bytes)
        → visit_tagged P next o ≡ some (v, r)
        → depth v ≤ suc d
    tagged_depth none v r h = elim (none_is_not_some h) [ ]
    tagged_depth (some (n, b)) v r h = variant_depth (tag_of n) b v r h

  -- A value that is read nests no deeper than the reader's depth.
  pub deserialize-depth : (d : ℕ) → IsBounded d (deserialize P d)
  unfolding deserialize
  deserialize-depth zero b v r h = elim (none_is_not_some h) [ ]
  deserialize-depth (suc d) b v r h =
      tagged_depth (deserialize P d) d (deserialize-depth d) (P.variant.decode b) v r h
