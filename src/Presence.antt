-- ===== src/Presence.antt =====
-- crates/okayeg/src/presence.rs: which entries of a peer's presence update reach the store. The
-- store and the primitives of the serialization library are parameters.
pub mod Filter
pub mod Wire
use okayeg.Prelude.{
  ℕ, ◌≡◌, Bool, true, false, ◌||◌, ◌&&◌, Option, none, some, List, [], ◌∷◌, Str, Str_eq, Bytes,
  Result, ok, err, ◌==◌, nat_eq, length, keep, is_empty, if◌then◌else◌,
}
use okayeg.Presence.Wire.{Postcard, Entry, to_allocvec, from_bytes}

pub data PresenceError : Type 0 where
  malformed : PresenceError

-- Postcard's primitives, and Loro's `EphemeralStore` with `apply`, whose Boolean says whether it
-- succeeded.
pub record Ephemeral : Type 1 where
  pub postcard : Postcard
  pub Store : Type 0
  pub apply : Store → Bytes → Store × Bool

-- `str::strip_prefix`
unfoldable pub strip_prefix : Str → Str → Option Str
strip_prefix [] key = some key
strip_prefix (a ∷ owner) [] = none
strip_prefix (a ∷ owner) (b ∷ key) =
    let rest = strip_prefix owner key in if nat_eq a b then rest else none

abbrev pub starts_with_slash : Option Str → Bool
starts_with_slash none = false
starts_with_slash (some []) = false
starts_with_slash (some (c ∷ s)) = nat_eq c b'/'

-- The key itself, or one under `owner/`.
unfoldable pub owns_key : Str → Str → Bool
owns_key owner key = key == owner || starts_with_slash (strip_prefix owner key)

module _ (P : Ephemeral) where
  open P use {Store}

  abbrev pub Outcome : Type 0
  Outcome = Result PresenceError (Option Bytes) × Store

  -- The bytes that make up the scoped update: those that came, if nothing was dropped.
  unfoldable pub sane_bytes : Bytes → List (Entry) → List (Entry) → Option Bytes
  sane_bytes bytes entries kept =
      if nat_eq (length kept) (length entries) then some bytes else to_allocvec P.postcard kept

  abbrev pub stored : Bytes → Store × Bool → Outcome
  stored sane (s, true) = (ok (some sane), s)
  stored sane (s, false) = (err malformed, s)

  abbrev pub apply_sane : Store → Option Bytes → Outcome
  apply_sane s none = (err malformed, s)
  apply_sane s (some sane) = stored sane (P.apply s sane)

  abbrev pub apply_kept : Store → Bytes → List (Entry) → List (Entry) → Outcome
  apply_kept s bytes entries [] = (ok none, s)
  apply_kept s bytes entries (e ∷ kept) = apply_sane s (sane_bytes bytes entries (e ∷ kept))

  abbrev pub apply_entries : Store → Bytes → (Str → Bool) → Option (List (Entry)) → Outcome
  apply_entries s bytes allowed none = (err malformed, s)
  apply_entries s bytes allowed (some entries) =
      apply_kept s bytes entries (keep (λ e. allowed e.key) entries)

  unfoldable pub apply_from : Store → Bytes → (Str → Bool) → Outcome
  unfolding from_bytes
  apply_from s bytes allowed = apply_entries s bytes allowed (from_bytes P.postcard bytes)

  abbrev pub may_write : Option Str → Str → Bool
  may_write none key = true
  may_write (some owner) key = owns_key owner key

  unfoldable pub apply_owned : Store → Bytes → Option Str → Outcome
  apply_owned s bytes owner = apply_from s bytes (may_write owner)
