-- ===== src/Tests/PresenceRuns.antt =====
-- The presence of a store that keeps what it is given, and the theorems on the filter there.
use okayeg.Prelude.{
  ℕ, zero, suc, ◌≡◌, ◌↔◌, ◌⊎◌, refl, true, none, some, List, [], ◌∷◌, ◌++◌, Str, Bytes, ok, keep,
}
use okayeg.Presence.{Ephemeral, owns_key, strip_prefix, apply_from, sane_bytes, stored}
use okayeg.Presence.Wire.{to_allocvec, deserialize, Entry, null, list, nil, cons, Value, max_depth}
use okayeg.Presence.Filter.{owns_key_iff, apply_from-Applied, apply_from-relayed, Applied}
use okayeg.Tests.Postcards.{small, small-IsPostcard}

-- A store is the bytes it was given, the last ones first.
abbrev pub kept_bytes : Ephemeral
kept_bytes = record { postcard = small; Store = Bytes; apply = λ s b. (b ++ s, true) }

-- The key `a` with a list of one integer, and the key `b` that is deleted.
abbrev pub entry_a : Bytes
entry_a = 1 ∷ 97 ∷ 1 ∷ 5 ∷ 1 ∷ 3 ∷ 6 ∷ 0 ∷ []

abbrev pub entry_b : Bytes
entry_b = 1 ∷ 98 ∷ 0 ∷ 0 ∷ []

abbrev pub both : Bytes
both = 2 ∷ (entry_a ++ entry_b)

abbrev pub a_alone : Bytes
a_alone = 1 ∷ entry_a

-- Of the keys `a` and `b`, `a` may be written.
sent : apply_from kept_bytes [] both (owns_key (97 ∷ [])) ≡ (ok (some a_alone), a_alone)
unfolding apply_from sane_bytes keep owns_key strip_prefix to_allocvec
sent = refl

-- A value inside so many lists.
abbrev nested : ℕ → Value
nested zero = null
nested (suc n) = list (cons (nested n) nil)

abbrev nested_bytes : ℕ → Bytes
nested_bytes zero = 0 ∷ []
nested_bytes (suc n) = 5 ∷ 1 ∷ nested_bytes n

deepest_is_read : deserialize small max_depth (nested_bytes 63) ≡ some (nested 63, [])
unfolding deserialize
deepest_is_read = refl

hostile_nesting_is_refused : deserialize small max_depth (nested_bytes 64) ≡ none
unfolding deserialize
hostile_nesting_is_refused = refl

owns_key_iff_example : (owns_key (97 ∷ []) (97 ∷ 47 ∷ 98 ∷ []) ≡ true) ↔ (
    (◌≡◌ {A = Str} (97 ∷ 47 ∷ 98 ∷ []) (97 ∷ []))
    ⊎ ((r : Str) × (◌≡◌ {A = Str} (97 ∷ 47 ∷ 98 ∷ []) ((97 ∷ []) ++ (47 ∷ r)))))
owns_key_iff_example = owns_key_iff (97 ∷ []) (97 ∷ 47 ∷ 98 ∷ [])

apply_from-Applied_example :
    (entries : List Entry) × Applied kept_bytes small-IsPostcard [] both
      (owns_key (97 ∷ []))
      a_alone
      a_alone
      entries
apply_from-Applied_example =
    apply_from-Applied kept_bytes small-IsPostcard [] a_alone both a_alone (owns_key (97 ∷ [])) sent

apply_from-relayed_example :
    apply_from kept_bytes (99 ∷ []) a_alone (owns_key (97 ∷ []))
    ≡ stored kept_bytes a_alone (a_alone ++ (99 ∷ []), true)
apply_from-relayed_example =
    apply_from-relayed kept_bytes small-IsPostcard [] a_alone (99 ∷ []) both a_alone
      (owns_key (97 ∷ [])) sent
