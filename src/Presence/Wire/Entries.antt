-- ===== src/Presence/Wire/Entries.antt =====
-- crates/okayeg/src/presence/wire.rs: the entries that were read are read back after some are left
-- out.
use okayeg.Prelude.{
  ℕ, zero, suc, ◌≤◌, ◌≡◌, refl, ◌∙◌, ap, sym, subst, Bool, true, false, Option, none, some, List,
  [], ◌∷◌, ◌++◌, Str, Bytes, All, keep, length, append-nil, some_injective, none_is_not_some,
  if◌then◌else◌,
}
use okayeg.Prelude.Options.{◌>>=◌}
use okayeg.Presence.Wire.{
  I64, Value, Entry, Postcard, IsPostcard, max_depth, deserialize, serialize_option,
  serialize_entry, serialize_entries, to_allocvec, present, optional, deserialize_entry,
  deserialize_entries, counted, from_bytes,
}
use okayeg.Presence.Wire.Bound.{depth, >>=-some, deserialize-depth}
use okayeg.Presence.Wire.Back.{first_back, deserialize-serialize}

-- A value that nests no deeper than the bound.
abbrev pub IsShallow : Option Value → Type 0
IsShallow none = Unit
IsShallow (some v) = depth v ≤ max_depth

abbrev pub AllShallow : List Entry → Type 0
AllShallow = All (λ (e : Entry). IsShallow e.value)

if-AllShallow :
    (e : Entry) (es : List Entry) (b : Bool)
    → IsShallow e.value
    → AllShallow es
    → AllShallow (if b then e ∷ es else es)
if-AllShallow e es true h k = (h, k)
if-AllShallow e es false h k = k

keep-AllShallow : (p : Entry → Bool) (es : List Entry) → AllShallow es → AllShallow (keep p es)
unfolding keep
keep-AllShallow p [] h = tt
keep-AllShallow p (e ∷ es) (h, k) = if-AllShallow e (keep p es) (p e) h (keep-AllShallow p es k)

module _ (P : Postcard) where
  present-IsShallow :
      (o : Option (Value × Bytes)) (v : Option Value) (r : Bytes)
      → ((w : Value) (q : Bytes) → o ≡ some (w, q) → depth w ≤ max_depth)
      → present P o ≡ some (v, r)
      → IsShallow v
  present-IsShallow none v r bounded h = elim (none_is_not_some h) [ ]
  present-IsShallow (some (w, q)) v r bounded h =
      subst IsShallow (ap (λ (y : Option Value × Bytes). y.0) (some_injective h)) (bounded w q refl)

  optional-IsShallow :
      (o : Option (Bool × Bytes)) (v : Option Value) (r : Bytes)
      → optional P o ≡ some (v, r)
      → IsShallow v
  optional-IsShallow none v r h = elim (none_is_not_some h) [ ]
  optional-IsShallow (some (false, b)) v r h =
      subst IsShallow (ap (λ (y : Option Value × Bytes). y.0) (some_injective h)) tt
  optional-IsShallow (some (true, b)) v r h =
      present-IsShallow (deserialize P max_depth b) v r (deserialize-depth P max_depth b) h

  entry-IsShallow :
      (b : Bytes) (e : Entry) (r : Bytes) → deserialize_entry P b ≡ some (e, r) → IsShallow e.value
  unfolding deserialize_entry
  entry-IsShallow b e r h =
      let (k, key, h1) = >>=-some (P.text.decode b) _ (e, r) h in
      let (v, value, h2) = >>=-some (optional P (P.option.decode k.1)) _ (e, r) h1 in
      let (t, time, h3) = >>=-some (P.i64.decode v.1) _ (e, r) h2 in
      subst (λ (x : Entry × Bytes). IsShallow x.0.value) (some_injective h3)
        (optional-IsShallow (P.option.decode k.1) v.0 v.1 value)

  entries-AllShallow :
      (n : ℕ) (b : Bytes) (es : List Entry) (r : Bytes)
      → deserialize_entries P n b ≡ some (es, r)
      → AllShallow es
  unfolding deserialize_entries
  entries-AllShallow zero b es r h =
      subst AllShallow (ap (λ (y : List Entry × Bytes). y.0) (some_injective h)) tt
  entries-AllShallow (suc n) b es r h =
      let (x, read, h1) = >>=-some (deserialize_entry P b) _ (es, r) h in
      let (xs, reads, h2) = >>=-some (deserialize_entries P n x.1) _ (es, r) h1 in
      subst AllShallow (ap (λ (y : List Entry × Bytes). y.0) (some_injective h2))
        (entry-IsShallow b x.0 x.1 read, entries-AllShallow n x.1 xs.0 xs.1 reads)

  counted-AllShallow :
      (o : Option (ℕ × Bytes)) (es : List Entry) → counted P o ≡ some es → AllShallow es
  counted-AllShallow none es h = elim (none_is_not_some h) [ ]
  counted-AllShallow (some (n, b)) es h =
      let (xs, reads, h1) = >>=-some (deserialize_entries P n b) _ es h in
      subst AllShallow (some_injective h1) (entries-AllShallow n b xs.0 xs.1 reads)

  pub from_bytes-AllShallow :
      (b : Bytes) (es : List Entry) → from_bytes P b ≡ some es → AllShallow es
  unfolding from_bytes
  from_bytes-AllShallow b es h = counted-AllShallow (P.len.decode b) es h

  module _ (laws : IsPostcard P) where
    option_back :
        (v : Option Value) (c rest : Bytes)
        → IsShallow v
        → serialize_option P v ≡ some c
        → optional P (P.option.decode (c ++ rest)) ≡ some (v, rest)
    option_back none c rest s h = ap (optional P) (laws.option false c rest h)
    option_back (some v) c rest s h =
        let (b, o, r) = first_back P.option.decode true _ _ c rest (laws.option true) h in
        ap (optional P) r ∙ ap (present P) (deserialize-serialize P laws max_depth v b rest s o)

    entry_back :
        (e : Entry) (c rest : Bytes)
        → IsShallow e.value
        → serialize_entry P e ≡ some c
        → deserialize_entry P (c ++ rest) ≡ some (e, rest)
    unfolding serialize_entry deserialize_entry
    entry_back e c rest s h =
        let (b, o, r) = first_back P.text.decode e.key _ _ c rest (laws.text e.key) h in
        let (b1, o1, r1) =
          first_back (λ l. optional P (P.option.decode l)) e.value _ _ b rest
            (λ a q k. option_back e.value a q s k) o in
        ap
          (λ (l : Option (Str × Bytes)). l >>= λ k. optional P (P.option.decode k.1) >>= λ v.
            P.i64.decode v.1 >>= λ t.
            some (record { key = k.0; value = v.0; timestamp = t.0 }, t.1))
          r
        ∙ ap
            (λ (l : Option (Option Value × Bytes)). l >>= λ v. P.i64.decode v.1 >>= λ t.
              some (record { key = e.key; value = v.0; timestamp = t.0 }, t.1))
            r1
        ∙ ap
            (λ (l : Option (I64 × Bytes)).
              l >>= λ t. some (record { key = e.key; value = e.value; timestamp = t.0 }, t.1))
            (laws.i64 e.timestamp b1 rest o1)

    entries_back :
        (es : List Entry) (c rest : Bytes)
        → AllShallow es
        → serialize_entries P es ≡ some c
        → deserialize_entries P (length es) (c ++ rest) ≡ some (es, rest)
    unfolding serialize_entries deserialize_entries
    entries_back [] c rest s h = ap (λ (l : Bytes). some ([], l ++ rest)) (sym (some_injective h))
    entries_back (e ∷ es) c rest (s, k) h =
        let (b, o, r) =
          first_back (deserialize_entry P) e _ _ c rest (λ a q i. entry_back e a q s i) h in
        ap
          (λ (l : Option (Entry × Bytes)).
            l >>= λ x. deserialize_entries P (length es) x.1 >>= λ xs. some (x.0 ∷ xs.0, xs.1))
          r
        ∙ ap (λ (l : Option (List Entry × Bytes)). l >>= λ xs. some (e ∷ xs.0, xs.1))
            (entries_back es b rest k o)

    -- Entries whose values nest no deeper than the bound are read back.
    pub from_bytes-to_allocvec :
        (es : List Entry) (c : Bytes)
        → AllShallow es
        → to_allocvec P es ≡ some c
        → from_bytes P c ≡ some es
    unfolding from_bytes to_allocvec
    from_bytes-to_allocvec es c s h =
        let (b, o, r) = first_back P.len.decode (length es) _ _ c [] (laws.len (length es)) h in
        ap (λ (l : Bytes). counted P (P.len.decode l)) (sym (append-nil c))
        ∙ ap (counted P) r
        ∙ ap (λ (l : Option (List Entry × Bytes)). l >>= λ rs. some rs.0) (entries_back es b [] s o)

    -- What is kept of entries that were read is read back.
    pub from_bytes-kept :
        (p : Entry → Bool) (bytes c : Bytes) (es : List Entry)
        → from_bytes P bytes ≡ some es
        → to_allocvec P (keep p es) ≡ some c
        → from_bytes P c ≡ some (keep p es)
    from_bytes-kept p bytes c es read h =
        from_bytes-to_allocvec (keep p es) c
          (keep-AllShallow p es (from_bytes-AllShallow bytes es read)) h
