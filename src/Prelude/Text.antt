-- ===== src/Prelude/Text.antt =====
-- Rust's `str` as the list of its code points, and byte strings.
use Prim.Native.Nat.{ℕ}
use Prim.Native.Char.{code}
use Prim.Native.String.{String}
use mathlib.Core.Path.{◌≡◌, refl}
use mathlib.Core.Logic.{◌↔◌}
use mathlib.Core.Bool.{Bool, true, false, ◌&&◌}
use mathlib.Core.List.{List, [], ◌∷◌}
use native.Mathlib.Omega.{arith}
use okayeg.Prelude.Tests.{Eq, nat_eq}

-- The code points of a text.
abbrev pub Str : Type 0
Str = List ℕ

abbrev pub Bytes : Type 0
Bytes = List ℕ

-- A literal of the source.
abbrev pub lit : String → Str
lit String.[] = []
lit (String.◌∷◌ c s) = code c ∷ lit s

abbrev pub str_beq : Str → Str → Bool
str_beq [] [] = true
str_beq [] (b ∷ t) = false
str_beq (a ∷ s) [] = false
str_beq (a ∷ s) (b ∷ t) = nat_eq a b && str_beq s t

pub str_beq_iff : (s t : Str) → (str_beq s t ≡ true) ↔ (s ≡ t)
str_beq_iff [] [] = (λ h. refl, λ h. refl)
str_beq_iff [] (b ∷ t) = (λ h. cc, λ h. cc)
str_beq_iff (a ∷ s) [] = (λ h. cc, λ h. cc)
str_beq_iff (a ∷ s) (b ∷ t) = ground (arith, str_beq_iff s t)

instance abbrev pub Str_eq : Eq Str
Str_eq = record { eq = str_beq; eq_iff = str_beq_iff }

pub str_beq_comm : (s t : Str) → str_beq s t ≡ str_beq t s
str_beq_comm [] [] = refl
str_beq_comm [] (b ∷ t) = refl
str_beq_comm (a ∷ s) [] = refl
str_beq_comm (a ∷ s) (b ∷ t) = ground (arith, str_beq_comm s t)
