-- ===== src/Prelude/Vec.antt =====
-- Rust's `Vec<u8>` by index: `resize`, slices, and what stands at an index.
use Prim.Native.Nat.{min, ℕ, zero, suc, ◌+◌, ◌-◌, ◌≤◌}
use mathlib.Core.Path.{ap, ◌≡◌, refl}
use mathlib.Core.List.{[], ◌∷◌, ◌++◌}
use native.Mathlib.Omega.{arith}
use okayeg.Prelude.Tests.{ltb, if◌then◌else◌}
use okayeg.Prelude.Lists.{length, take, drop, length-append, length-take}
use okayeg.Prelude.Text.{Bytes}

unfoldable pub zeros : ℕ → Bytes
zeros zero = []
zeros (suc n) = 0 ∷ zeros n

-- `Vec::resize(n, 0)`
unfoldable pub resize : ℕ → Bytes → Bytes
unfolding zeros
resize n b = take n b ++ zeros (n - length b)

-- `v[offset..offset + new.len()].copy_from_slice(new)`, where the range lies in `v`
unfoldable pub copy_at : ℕ → Bytes → Bytes → Bytes
copy_at offset new b = take offset b ++ (new ++ drop (offset + length new) b)

-- The byte at an index, zero behind the end.
unfoldable pub byte : Bytes → ℕ → ℕ
byte [] i = 0
byte (x ∷ b) zero = x
byte (x ∷ b) (suc i) = byte b i

pub length-zeros : (n : ℕ) → length (zeros n) ≡ n
unfolding zeros
length-zeros zero = refl
length-zeros (suc n) = omega (arith, length-zeros n)

pub length-drop : (n : ℕ) (b : Bytes) → length (drop n b) ≡ length b - n
length-drop zero b = omega arith
length-drop (suc n) [] = omega arith
length-drop (suc n) (x ∷ b) = omega (arith, length-drop n b)

byte-zeros : (n i : ℕ) → byte (zeros n) i ≡ 0
unfolding zeros byte
byte-zeros zero i = refl
byte-zeros (suc n) zero = refl
byte-zeros (suc n) (suc i) = byte-zeros n i

byte-take : (n : ℕ) (b : Bytes) (i : ℕ) → byte (take n b) i ≡ (if ltb i n then byte b i else 0)
unfolding byte
byte-take zero b i = ground arith
byte-take (suc n) [] i = ground arith
byte-take (suc n) (x ∷ b) zero = ground arith
byte-take (suc n) (x ∷ b) (suc i) = ground (arith, byte-take n b i)

pub byte-drop : (n : ℕ) (b : Bytes) (i : ℕ) → byte (drop n b) i ≡ byte b (n + i)
unfolding byte
byte-drop zero b i = ground arith
byte-drop (suc n) [] i = ground arith
byte-drop (suc n) (x ∷ b) i = ground (arith, byte-drop n b i)

byte-append :
    (b c : Bytes) (i : ℕ)
    → byte (b ++ c) i ≡ (if ltb i (length b) then byte b i else byte c (i - length b))
unfolding byte
byte-append [] c i = ground arith
byte-append (x ∷ b) c zero = ground arith
byte-append (x ∷ b) c (suc i) = ground (arith, byte-append b c i)

pub byte_beyond : (b : Bytes) (i : ℕ) → length b ≤ i → byte b i ≡ 0
unfolding byte
byte_beyond [] i h = refl
byte_beyond (x ∷ b) zero h = elim h [ ]
byte_beyond (x ∷ b) (suc i) h = ground (arith, byte_beyond b i)

pub length-resize : (n : ℕ) (b : Bytes) → length (resize n b) ≡ n
unfolding resize
length-resize n b = omega (
  arith,
  length-append (take n b) (zeros (n - length b)),
  length-take n b,
  length-zeros (n - length b),
)

pub byte-resize :
    (n : ℕ) (b : Bytes) (i : ℕ) → byte (resize n b) i ≡ (if ltb i n then byte b i else 0)
unfolding resize
byte-resize n b i = ground (
  arith,
  byte-append (take n b) (zeros (n - length b)) i,
  byte-take n b i,
  length-take n b,
  byte-zeros (n - length b) (i - length (take n b)),
  byte_beyond b i,
)

pub length-copy_at :
    (offset : ℕ) (new b : Bytes)
    → offset + length new ≤ length b
    → length (copy_at offset new b) ≡ length b
unfolding copy_at
length-copy_at offset new b h = omega (
  arith,
  length-append (take offset b) (new ++ drop (offset + length new) b),
  length-append new (drop (offset + length new) b),
  length-take offset b,
  length-drop (offset + length new) b,
)

pub byte-copy_at :
    (offset : ℕ) (new b : Bytes) (i : ℕ)
    → offset + length new ≤ length b
    → byte (copy_at offset new b) i ≡ (
        if ltb i offset
        then byte b i
        else if ltb i (offset + length new)
        then byte new (i - offset)
        else byte b i)
unfolding copy_at
byte-copy_at offset new b i h =
    let rest = drop (offset + length new) b in
    ground (
      arith,
      byte-append (take offset b) (new ++ rest) i,
      byte-take offset b i,
      length-take offset b,
      byte-append new rest (i - length (take offset b)),
      byte-drop (offset + length new) b (i - length (take offset b) - length new),
    )

-- Byte strings that agree at every index and in length are equal.
pub byte-ext : (b c : Bytes) → length b ≡ length c → ((i : ℕ) → byte b i ≡ byte c i) → b ≡ c
unfolding byte
byte-ext [] [] l h = refl
byte-ext [] (y ∷ c) l h = absurd (omega (arith, l))
byte-ext (x ∷ b) [] l h = absurd (omega (arith, l))
byte-ext (x ∷ b) (y ∷ c) l h =
    let tail : b ≡ c = byte-ext b c (omega (arith, l)) (λ i. h (suc i)) in
    let head : x ≡ y = h 0 in cc

pub take_nil : (n : ℕ) → ◌≡◌ {A = Bytes} (take n []) []
take_nil zero = refl
take_nil (suc n) = refl

min_zero : (m : ℕ) → min 0 m ≡ 0
min_zero m = omega arith

pub take-min : (n : ℕ) (b : Bytes) → take (min n (length b)) b ≡ take n b
take-min zero b = ap (λ k. take k b) (min_zero (length b))
take-min (suc n) [] = take_nil (min (suc n) 0)
take-min (suc n) (x ∷ b) = ground (arith, take-min n b)

pub drop_all : (n : ℕ) (b : Bytes) → length b ≤ n → drop n b ≡ []
drop_all zero [] h = refl
drop_all zero (x ∷ b) h = absurd (omega (arith, h))
drop_all (suc n) [] h = refl
drop_all (suc n) (x ∷ b) h = drop_all n b (omega (arith, h))
