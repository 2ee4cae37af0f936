-- ===== src/Mount/Writeback/Contents.antt =====
-- crates/eg/src/mount.rs: a dirty buffer is a file of bytes, zero where nothing was written.
use okayeg.Prelude.{
  ℕ, ◌+◌, ◌-◌, ◌%◌, ◌^◌, ◌<◌, ◌≤◌, Bool, true, Option, none, some, ◌≡◌, refl, ◌∙◌, ap, max, min,
  ◌&&◌, Bool-cases, inl, inr, List, [], ◌∷◌, Bytes, ltb, leb, length, take, drop, arith,
  if◌then◌else◌,
}
use okayeg.Prelude.Options.{◌>>=◌}
use okayeg.Prelude.Vec.{resize, copy_at, byte, length-drop, take_nil, take-min, drop_all}
use okayeg.Fs.Slice.{usize_max}
use okayeg.Mount.Writeback.{grown, splice, read_range}

-- A file as its size and the byte at every index.
pub record File : Type 0 where
  pub size : ℕ
  pub at : ℕ → ℕ

pub data Edit : Type 0 where
  writing : ℕ → Bytes → Edit
  truncating : ℕ → Edit

-- What an edit means: a write reaches behind the end if it has to, and what lies between is zero; a
-- truncation cuts the file or extends it by zeros.
abbrev pub meaning : Edit → File → File
meaning (writing offset new) f = record {
  size = max f.size (offset + length new);
  at = λ i. if leb offset i && ltb i (offset + length new) then byte new (i - offset) else f.at i;
}
meaning (truncating size) f = record { size = size; at = λ i. if ltb i size then f.at i else 0 }

abbrev pub file_of : Bytes → File
file_of b = record { size = length b; at = byte b }

-- The bytes after a write whose end does not wrap.
unfoldable pub copied : ℕ → Bytes → Bytes → Bytes
unfolding grown copy_at
copied offset new b = copy_at offset new (grown (offset + length new) b)

-- The copy with a given end.
abbrev copy_to : ℕ → ℕ → Bytes → Bytes → Option Bytes
copy_to end offset new b = if leb offset end then some (copy_at offset new (grown end b)) else none

le_end : (offset n : ℕ) → leb offset (offset + n) ≡ true
le_end offset n = ground arith

no_wrap : (n : ℕ) → n < 2 ^ 64 → n % 2 ^ 64 ≡ n
no_wrap n h = omega (arith, h)

pub splice-copied :
    (offset : ℕ) (new b : Bytes)
    → offset + length new < 2 ^ 64
    → splice offset new b ≡ some (copied offset new b)
unfolding splice copied
splice-copied offset new b h =
    let end = offset + length new in
    ap (λ (k : ℕ). copy_to k offset new b) (no_wrap end h)
    ∙ ap (λ (c : Bool). if c then some (copy_at offset new (grown end b)) else none)
        (le_end offset (length new))

abbrev pub edited : Edit → Bytes → Option Bytes
edited (writing offset new) b = splice offset new b
edited (truncating size) b = some (resize size b)

-- A write that ends within what a machine word counts.
abbrev pub Fits : Edit → Type 0
Fits (writing offset new) = offset + length new < 2 ^ 64
Fits (truncating size) = Unit

abbrev pub AllFit : List Edit → Type 0
AllFit [] = Unit
AllFit (e ∷ es) = Fits e × AllFit es

-- The bytes after an edit that fits.
abbrev pub after : Edit → Bytes → Bytes
after (writing offset new) b = copied offset new b
after (truncating size) b = resize size b

edited-after : (e : Edit) (b : Bytes) → Fits e → edited e b ≡ some (after e b)
edited-after (writing offset new) b h = splice-copied offset new b h
edited-after (truncating size) b h = refl

abbrev pub edit_all : List Edit → Bytes → Option Bytes
edit_all [] b = some b
edit_all (e ∷ es) b = edited e b >>= edit_all es

abbrev pub after_all : List Edit → Bytes → Bytes
after_all [] b = b
after_all (e ∷ es) b = after_all es (after e b)

pub edit_all-after_all :
    (es : List Edit) (b : Bytes) → AllFit es → edit_all es b ≡ some (after_all es b)
edit_all-after_all [] b h = refl
edit_all-after_all (e ∷ es) b (fits, h) =
    ap (λ (o : Option Bytes). o >>= edit_all es) (edited-after e b fits)
    ∙ edit_all-after_all es (after e b) h

abbrev pub meaning_all : List Edit → File → File
meaning_all [] f = f
meaning_all (e ∷ es) f = meaning_all es (meaning e f)

-- A range that is read is cut at the end of the file, and holds the file's bytes.
pub read_range_lem :
    (offset size : ℕ) (b : Bytes)
    → length b ≤ usize_max
    → read_range offset size b ≡ take size (drop offset b)
unfolding read_range
read_range_lem offset size b h =
    elim (Bool-cases (leb offset (min (length b) (min (offset + size) usize_max)))) [
      | inl inside ↦
          let rest = drop offset b in
          let cut : min (length b) (min (offset + size) usize_max) - offset
              ≡ min size (length rest) =
            ground (arith, inside, length-drop offset b) in
          ground (arith, inside, ap (λ n. take n rest) cut, take-min size rest)
      | inr behind ↦
          let none_left : drop offset b ≡ [] = drop_all offset b (ground (arith, behind)) in
          ground (arith, behind, ap (take size) none_left, take_nil size)
    ]
