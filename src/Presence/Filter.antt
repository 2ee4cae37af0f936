-- ===== src/Presence/Filter.antt =====
-- crates/okayeg/src/presence.rs: exactly the entries that a peer may write pass the filter.
use okayeg.Prelude.{
  ◌≡◌, ◌↔◌, ◌⊎◌, inl, inr, refl, sym, ap, ◌∙◌, Bool, true, false, ◌||◌, Option, none, some,
  some_injective, ok_injective, none_is_not_some, err_is_not_ok, ◌≢◌, List, [], ◌∷◌, ◌++◌, Str,
  Str_eq, str_beq, str_beq_iff, Bytes, ok, nat_eq, nat_eq_iff, length, keep, keep-all, keep-keep,
  arith, if◌then◌else◌, Bool-cases,
}
use okayeg.Presence.Wire.{IsPostcard, Entry, to_allocvec, from_bytes}
use okayeg.Presence.Wire.Entries.{from_bytes-kept}
use okayeg.Presence.{
  Ephemeral, strip_prefix, starts_with_slash, owns_key, Outcome, sane_bytes, stored, apply_sane,
  apply_kept, apply_entries, apply_from,
}

strip_prefix-append : (owner r : Str) → strip_prefix owner (owner ++ r) ≡ some r
unfolding strip_prefix
strip_prefix-append [] r = refl
strip_prefix-append (a ∷ owner) r = ground (arith, strip_prefix-append owner r)

strip_prefix-inv : (owner key r : Str) → strip_prefix owner key ≡ some r → owner ++ r ≡ key
unfolding strip_prefix
strip_prefix-inv [] key r h = ground arith
strip_prefix-inv (a ∷ owner) [] r h = cc
strip_prefix-inv (a ∷ owner) (b ∷ key) r h = ground (arith, strip_prefix-inv owner key r)

under :
    (owner key : Str) (o : Option Str)
    → strip_prefix owner key ≡ o
    → starts_with_slash o ≡ true
    → (r : Str) × (key ≡ owner ++ (b'/' ∷ r))
under owner key none h i = cc
under owner key (some []) h i = cc
under owner key (some (c ∷ r)) h i = (
  r,
  sym (strip_prefix-inv owner key (c ∷ r) h) ∙ ap (λ k. owner ++ (k ∷ r)) ((nat_eq_iff c b'/').0 i),
)

or_right : (x y : Bool) → (x || y) ≡ true → x ≡ false → y ≡ true
or_right x y h i = ground arith

or_true : (x : Bool) → (x || true) ≡ true
or_true true = refl
or_true false = refl

owns_key-of :
    (owner key : Str)
    → (key ≡ owner) ⊎ ((r : Str) × (key ≡ owner ++ (b'/' ∷ r)))
    → owns_key owner key ≡ true
unfolding owns_key
owns_key-of owner key (inl h) =
    ap (λ b. b || starts_with_slash (strip_prefix owner key)) ((str_beq_iff key owner).1 h)
owns_key-of owner key (inr (r, h)) =
    ap (λ (k : Str). str_beq key owner || starts_with_slash (strip_prefix owner k)) h
    ∙ ap (λ (o : Option Str). str_beq key owner || starts_with_slash o)
        (strip_prefix-append owner (b'/' ∷ r))
    ∙ or_true (str_beq key owner)

owns_key-inv :
    (owner key : Str)
    → owns_key owner key ≡ true
    → (key ≡ owner) ⊎ ((r : Str) × (key ≡ owner ++ (b'/' ∷ r)))
unfolding owns_key
owns_key-inv owner key h = elim (Bool-cases (str_beq key owner)) [
  | inl same ↦ inl ((str_beq_iff key owner).0 same)
  | inr differ ↦ inr (
      under owner key (strip_prefix owner key) refl
        (or_right (str_beq key owner) (starts_with_slash (strip_prefix owner key)) h differ))
]

-- An owner may write the key of its own name and the keys under it, and no other.
pub owns_key_iff :
    (owner key : Str)
    → (owns_key owner key ≡ true) ↔ ((key ≡ owner) ⊎ ((r : Str) × (key ≡ owner ++ (b'/' ∷ r))))
owns_key_iff owner key = (owns_key-inv owner key, owns_key-of owner key)

module _ (P : Ephemeral) (laws : IsPostcard P.postcard) where
  open P use {Store}

  abbrev pub kept_entries : (Str → Bool) → List (Entry) → List (Entry)
  kept_entries allowed entries = keep (λ e. allowed e.key) entries

  by_length :
      (bytes sane : Bytes) (allowed : Str → Bool) (entries : List (Entry)) (b : Bool)
      → from_bytes P.postcard bytes ≡ some entries
      → nat_eq (length (kept_entries allowed entries)) (length entries) ≡ b
      → (if b then some bytes else to_allocvec P.postcard (kept_entries allowed entries))
        ≡ some sane
      → from_bytes P.postcard sane ≡ some (kept_entries allowed entries)
  by_length bytes sane allowed entries true h e i =
      ap (from_bytes P.postcard) (sym (some_injective i))
      ∙ h
      ∙ ap some (
          sym (
            keep-all (λ (x : Entry). allowed x.key) entries
              ((nat_eq_iff (length (kept_entries allowed entries)) (length entries)).0 e)))
  by_length bytes sane allowed entries false h e i =
      from_bytes-kept P.postcard laws (λ e. allowed e.key) bytes sane entries h i

  -- What an application that succeeded and kept something has found and done.
  abbrev pub Applied : Store → Bytes → (Str → Bool) → Bytes → Store → List (Entry) → Type 0
  Applied s bytes allowed sane s' entries =
      (from_bytes P.postcard bytes ≡ some entries)
      × (from_bytes P.postcard sane ≡ some (kept_entries allowed entries))
      × (kept_entries allowed entries ≢ [])
      × (P.apply s sane ≡ (s', true))

  stored-inv :
      (r : Store × Bool) (bytes sane : Bytes) (s' : Store)
      → stored P bytes r ≡ (ok (some sane), s')
      → (bytes ≡ sane) × (r ≡ (s', true))
  stored-inv (s, true) bytes sane s' h = (
    some_injective (ok_injective (ap (λ (x : Outcome P). x.0) h)),
    ap (λ (x : Outcome P). (x.1, true)) h,
  )
  stored-inv (s, false) bytes sane s' h = elim (err_is_not_ok (ap (λ (x : Outcome P). x.0) h)) [ ]

  apply_sane-inv :
      (s s' : Store) (o : Option Bytes) (sane : Bytes)
      → apply_sane P s o ≡ (ok (some sane), s')
      → (o ≡ some sane) × (P.apply s sane ≡ (s', true))
  apply_sane-inv s s' none sane h = elim (err_is_not_ok (ap (λ (x : Outcome P). x.0) h)) [ ]
  apply_sane-inv s s' (some bytes) sane h =
      let (e, a) = stored-inv (P.apply s bytes) bytes sane s' h in
      (ap some e, ap (P.apply s) (sym e) ∙ a)

  apply_kept-inv :
      (s s' : Store) (bytes sane : Bytes) (entries kept : List (Entry))
      → apply_kept P s bytes entries kept ≡ (ok (some sane), s')
      → (kept ≢ []) × (sane_bytes P bytes entries kept ≡ some sane) × (P.apply s sane ≡ (s', true))
  apply_kept-inv s s' bytes sane entries [] h =
      elim (none_is_not_some (ok_injective (ap (λ (x : Outcome P). x.0) h))) [ ]
  apply_kept-inv s s' bytes sane entries (e ∷ kept) h =
      let (b, a) = apply_sane-inv s s' (sane_bytes P bytes entries (e ∷ kept)) sane h in
      (λ i. cc, b, a)

  apply_entries-inv :
      (s s' : Store) (bytes sane : Bytes) (allowed : Str → Bool) (o : Option (List (Entry)))
      → from_bytes P.postcard bytes ≡ o
      → apply_entries P s bytes allowed o ≡ (ok (some sane), s')
      → (entries : List (Entry)) × Applied s bytes allowed sane s' entries
  apply_entries-inv s s' bytes sane allowed none h i =
      elim (err_is_not_ok (ap (λ (x : Outcome P). x.0) i)) [ ]
  apply_entries-inv s s' bytes sane allowed (some entries) h i =
      let (some_kept, b, a) =
        apply_kept-inv s s' bytes sane entries (kept_entries allowed entries) i in
      (
        entries,
        (
          h,
          by_length bytes sane allowed entries
              (nat_eq (length (kept_entries allowed entries)) (length entries)) h refl
              (unfold sane_bytes in b),
          some_kept,
          a,
        ),
      )

  -- Where postcard reads its primitives back as it writes them: an update that was applied, and is returned
  -- for the relay, holds exactly the allowed entries of what the peer sent, of which there is one
  -- at least; and this is what reached the store.
  pub apply_from-Applied :
      (s s' : Store) (bytes sane : Bytes) (allowed : Str → Bool)
      → apply_from P s bytes allowed ≡ (ok (some sane), s')
      → (entries : List (Entry)) × Applied s bytes allowed sane s' entries
  unfolding apply_from
  apply_from-Applied s s' bytes sane allowed h =
      apply_entries-inv s s' bytes sane allowed (from_bytes P.postcard bytes) refl h

  sane_bytes-all : (sane : Bytes) (es : List (Entry)) → sane_bytes P sane es es ≡ some sane
  unfolding sane_bytes
  sane_bytes-all sane es =
      ap (λ (b : Bool). if b then some sane else to_allocvec P.postcard es)
        ((nat_eq_iff (length es) (length es)).1 refl)

  apply_kept-all :
      (r : Store) (sane : Bytes) (es : List (Entry))
      → es ≢ []
      → apply_kept P r sane es es ≡ stored P sane (P.apply r sane)
  apply_kept-all r sane [] h = elim (h refl) [ ]
  apply_kept-all r sane (e ∷ es) h = ap (apply_sane P r) (sane_bytes-all sane (e ∷ es))

  -- Where postcard reads its primitives back as it writes them: an update that passed the filter passes it
  -- again unchanged, whatever the store: the bytes that are relayed are what the next session
  -- applies.
  pub apply_from-relayed :
      (s s' r : Store) (bytes sane : Bytes) (allowed : Str → Bool)
      → apply_from P s bytes allowed ≡ (ok (some sane), s')
      → apply_from P r sane allowed ≡ stored P sane (P.apply r sane)
  unfolding apply_from
  apply_from-relayed s s' r bytes sane allowed h =
      let (entries, (before, after, some_kept, a)) = apply_from-Applied s s' bytes sane allowed h in
      let kept = kept_entries allowed entries in
      ap (apply_entries P r sane allowed) after
      ∙ ap (apply_kept P r sane kept) (keep-keep (λ (x : Entry). allowed x.key) entries)
      ∙ apply_kept-all r sane kept some_kept
