-- ===== src/Presence/Wire/Back.antt =====
-- crates/okayeg/src/presence/wire.rs: what is serialized is read back.
use okayeg.Prelude.{
  ℕ, zero, suc, ◌≤◌, ◌≡◌, refl, ◌∙◌, ap, sym, Option, none, some, Bytes, arith, Str, ◌++◌,
  append_assoc, some_injective, none_is_not_some,
}
use okayeg.Prelude.Options.{◌>>=◌}
use okayeg.Presence.Wire.{
  Value, Values, Pairs, null, boolean, double, integer, string, list, map, binary, nil, cons, empty,
  pair, count, count_pairs, Postcard, IsPostcard, tag_of, mapped, joined, visit_seq, visit_map,
  list_with, map_with, visit_variant, visit_tagged, serialize, serialize_values, serialize_pairs,
  deserialize,
}
use okayeg.Presence.Wire.Bound.{depth, depth_values, depth_pairs}

joined-inv :
    (o y : Option Bytes) (c : Bytes)
    → joined o y ≡ some c
    → (a b : Bytes) × (o ≡ some a) × (y ≡ some b) × (a ++ b ≡ c)
joined-inv none y c h = elim (none_is_not_some h) [ ]
joined-inv (some a) none c h = elim (none_is_not_some h) [ ]
joined-inv (some a) (some b) c h = (a, b, refl, refl, some_injective h)

-- Where the first part reads back, it is read off the whole.
pub first_back :
    {A : Type 0} (decode : Bytes → Option (A × Bytes)) (x : A) (o y : Option Bytes) (c rest : Bytes)
    → ((a r : Bytes) → o ≡ some a → decode (a ++ r) ≡ some (x, r))
    → joined o y ≡ some c
    → (b : Bytes) × (y ≡ some b) × (decode (c ++ rest) ≡ some (x, b ++ rest))
first_back decode x o y c rest reads h =
    let (a, b, first, second, e) = joined-inv o y c h in
    (
      b,
      second,
      ap (λ (l : Bytes). decode (l ++ rest)) (sym e)
          ∙ ap decode (append_assoc a b rest)
          ∙ reads a (b ++ rest) first,
    )

depth_positive : (v : Value) → 1 ≤ depth v
unfolding depth
depth_positive null = omega arith
depth_positive (boolean v) = omega arith
depth_positive (double v) = omega arith
depth_positive (integer v) = omega arith
depth_positive (string v) = omega arith
depth_positive (list vs) = omega arith
depth_positive (map ps) = omega arith
depth_positive (binary v) = omega arith

module _ (P : Postcard) (laws : IsPostcard P) where
  -- A value with its tag in front is read by what the tag stands for.
  tagged :
      (d n : ℕ) (y : Option Bytes) (c rest : Bytes)
      → joined (P.variant.encode n) y ≡ some c
      → (b : Bytes) × (y ≡ some b)
        × (deserialize P (suc d) (c ++ rest)
            ≡ visit_variant P (deserialize P d) (tag_of n) (b ++ rest))
  unfolding deserialize
  tagged d n y c rest h =
      let (b, second, e) =
        first_back P.variant.decode n (P.variant.encode n) y c rest (laws.variant n) h in
      (b, second, ap (visit_tagged P (deserialize P d)) e)

  null_back :
      (d : ℕ) (c rest : Bytes)
      → P.variant.encode 0 ≡ some c
      → deserialize P (suc d) (c ++ rest) ≡ some (null, rest)
  unfolding deserialize visit_variant
  null_back d c rest e = ap (visit_tagged P (deserialize P d)) (laws.variant 0 c rest e)

  mutual
    unfolding serialize depth visit_variant visit_seq visit_map

    value_back :
        (d : ℕ) (v : Value) (c rest : Bytes)
        → depth v ≤ d
        → serialize P v ≡ some c
        → deserialize P d (c ++ rest) ≡ some (v, rest)
    value_back zero v c rest h e = let p = depth_positive v in absurd (omega (arith, p, h))
    value_back (suc d) null c rest h e = null_back d c rest e
    value_back (suc d) (boolean v) c rest h e =
        let (b, o, r) = tagged d 1 _ c rest e in r ∙ ap (mapped boolean) (laws.boolean v b rest o)
    value_back (suc d) (double v) c rest h e =
        let (b, o, r) = tagged d 2 _ c rest e in r ∙ ap (mapped double) (laws.f64 v b rest o)
    value_back (suc d) (integer v) c rest h e =
        let (b, o, r) = tagged d 3 _ c rest e in r ∙ ap (mapped integer) (laws.i64 v b rest o)
    value_back (suc d) (string v) c rest h e =
        let (b, o, r) = tagged d 4 _ c rest e in r ∙ ap (mapped string) (laws.text v b rest o)
    value_back (suc d) (list vs) c rest h e =
        let (b, o, r) = tagged d 5 _ c rest e in
        let (b1, o1, r1) = first_back P.len.decode (count vs) _ _ b rest (laws.len (count vs)) o in
        r
        ∙ ap (λ (k : Option (ℕ × Bytes)). mapped list (list_with P (deserialize P d) k)) r1
        ∙ ap (mapped list) (values_back d vs b1 rest (omega (arith, h)) o1)
    value_back (suc d) (map ps) c rest h e =
        let (b, o, r) = tagged d 6 _ c rest e in
        let (b1, o1, r1) =
          first_back P.len.decode (count_pairs ps) _ _ b rest (laws.len (count_pairs ps)) o in
        r
        ∙ ap (λ (k : Option (ℕ × Bytes)). mapped map (map_with P (deserialize P d) k)) r1
        ∙ ap (mapped map) (pairs_back d ps b1 rest (omega (arith, h)) o1)
    value_back (suc d) (binary v) c rest h e =
        let (b, o, r) = tagged d 8 _ c rest e in r ∙ ap (mapped binary) (laws.bytes v b rest o)

    values_back :
        (d : ℕ) (vs : Values) (c rest : Bytes)
        → depth_values vs ≤ d
        → serialize_values P vs ≡ some c
        → visit_seq P (deserialize P d) (count vs) (c ++ rest) ≡ some (vs, rest)
    values_back d nil c rest h e =
        ap (λ (l : Bytes). some (nil, l ++ rest)) (sym (some_injective e))
    values_back d (cons v vs) c rest h e =
        let next = deserialize P d in
        let (b, o, r) =
          first_back next v (serialize P v) _ c rest
            (λ a q s. value_back d v a q (omega (arith, h)) s) e in
        ap
          (λ (k : Option (Value × Bytes)).
            k >>= λ x. visit_seq P next (count vs) x.1 >>= λ xs. some (cons x.0 xs.0, xs.1))
          r
        ∙ ap (λ (k : Option (Values × Bytes)). k >>= λ xs. some (cons v xs.0, xs.1))
            (values_back d vs b rest (omega (arith, h)) o)

    pairs_back :
        (d : ℕ) (ps : Pairs) (c rest : Bytes)
        → depth_pairs ps ≤ d
        → serialize_pairs P ps ≡ some c
        → visit_map P (deserialize P d) (count_pairs ps) (c ++ rest) ≡ some (ps, rest)
    pairs_back d empty c rest h e =
        ap (λ (l : Bytes). some (empty, l ++ rest)) (sym (some_injective e))
    pairs_back d (pair key v ps) c rest h e =
        let next = deserialize P d in
        let (b, o, r) =
          first_back P.text.decode key (P.text.encode key) _ c rest (laws.text key) e in
        let (b1, o1, r1) =
          first_back next v (serialize P v) _ b rest
            (λ a q s. value_back d v a q (omega (arith, h)) s) o in
        ap
          (λ (l : Option (Str × Bytes)). l >>= λ k. next k.1 >>= λ x.
            visit_map P next (count_pairs ps) x.1 >>= λ xs. some (pair k.0 x.0 xs.0, xs.1))
          r
        ∙ ap
            (λ (k : Option (Value × Bytes)). k >>= λ x.
              visit_map P next (count_pairs ps) x.1 >>= λ xs. some (pair key x.0 xs.0, xs.1))
            r1
        ∙ ap (λ (k : Option (Pairs × Bytes)). k >>= λ xs. some (pair key v xs.0, xs.1))
            (pairs_back d ps b1 rest (omega (arith, h)) o1)

  -- A value that nests no deeper than the reader's depth is read back as it was serialized,
  -- whatever follows it.
  pub deserialize-serialize :
      (d : ℕ) (v : Value) (c rest : Bytes)
      → depth v ≤ d
      → serialize P v ≡ some c
      → deserialize P d (c ++ rest) ≡ some (v, rest)
  deserialize-serialize = value_back
