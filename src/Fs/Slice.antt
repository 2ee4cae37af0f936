-- ===== src/Fs/Slice.antt =====
-- crates/okayeg/src/fs.rs: `read_bytes`, any range of bytes of a text. Loro's `slice_delta` at byte
-- positions is a parameter: it is refused, or gives the strings that were inserted in the range.
pub mod Boundary
pub mod Exact
use okayeg.Prelude.{
  ℕ, ◌+◌, ◌-◌, ◌^◌, min, ◌||◌, ◌&&◌, Option, none, some, List, [], ◌∷◌, ◌++◌, Str, Bytes, leb,
  nat_eq, length, take, drop, if◌then◌else◌,
}
use okayeg.Utf8.{as_bytes}

abbrev pub usize_max : ℕ
usize_max = 2 ^ 64 - 1

-- `usize::saturating_add`
abbrev pub saturating_add : ℕ → ℕ → ℕ
saturating_add a b = min (a + b) usize_max

-- The bytes of the pieces, one behind the other.
abbrev pub concat_bytes : List Str → Bytes
concat_bytes [] = []
concat_bytes (s ∷ pieces) = as_bytes s ++ concat_bytes pieces

-- `bytes[from..to].to_vec()`, a panic (`none`) if the range does not lie in the bytes.
abbrev pub slice_of : ℕ → ℕ → Bytes → Option Bytes
slice_of from to bytes =
    if leb from to && leb to (length bytes) then some (take (to - from) (drop from bytes)) else none

-- How far the start and the end are widened, in the order of the loops.
abbrev pub widenings : List (ℕ × ℕ)
widenings =
    (0, 0)
    ∷ (0, 1)
    ∷ (0, 2)
    ∷ (0, 3)
    ∷ (1, 0)
    ∷ (1, 1)
    ∷ (1, 2)
    ∷ (1, 3)
    ∷ (2, 0)
    ∷ (2, 1)
    ∷ (2, 2)
    ∷ (2, 3)
    ∷ (3, 0)
    ∷ (3, 1)
    ∷ (3, 2)
    ∷ (3, 3)
    ∷ []

module _ (slice_delta : Str → ℕ → ℕ → Option (List Str)) where
  abbrev pub trimmed : ℕ → ℕ → ℕ → List Str → Option Bytes
  trimmed offset end start pieces =
      let from = offset - start in slice_of from (from + (end - offset)) (concat_bytes pieces)

  -- The loops, over the widenings that are left.
  unfoldable pub widen : Str → ℕ → ℕ → List (ℕ × ℕ) → Option Bytes
  widen s offset end [] = some []
  widen s offset end ((widen_start, widen_end) ∷ rest) =
      let start = offset - widen_start in
      let stop = min (length (as_bytes s)) (end + widen_end) in
      elim (slice_delta s start stop) [
        | none ↦ widen s offset end rest
        | some pieces ↦ trimmed offset end start pieces
      ]

  unfoldable pub read_bytes : Str → ℕ → ℕ → Option Bytes
  unfolding widen as_bytes
  read_bytes s offset size =
      let len = length (as_bytes s) in
      let end = min len (saturating_add offset size) in
      if leb len offset || nat_eq size 0 then some [] else widen s offset end widenings
