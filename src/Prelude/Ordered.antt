-- ===== src/Prelude/Ordered.antt =====
-- Rust's `BTreeMap<String, V>`: association lists in the order of their keys.
use mathlib.Core.Path.{◌≡◌, refl, sym, subst}
use mathlib.Core.Bool.{Bool, true, false, ◌&&◌, ◌||◌}
use mathlib.Core.List.{[], ◌∷◌}
use mathlib.Core.Option.{none, some}
use native.Mathlib.Omega.{arith}
use okayeg.Prelude.Tests.{◌==◌, ltb, nat_eq, if◌then◌else◌}
use okayeg.Prelude.Text.{Str, Str_eq, str_beq, str_beq_iff}
use okayeg.Prelude.Assoc.{Assoc, lookup}

-- The order of strings: the order of their UTF-8 bytes is that of their code points.
unfoldable pub str_lt : Str → Str → Bool
str_lt [] [] = false
str_lt [] (b ∷ t) = true
str_lt (a ∷ s) [] = false
str_lt (a ∷ s) (b ∷ t) = ltb a b || (nat_eq a b && str_lt s t)

str_lt_irrefl : (s : Str) → str_lt s s ≡ false
unfolding str_lt
str_lt_irrefl [] = refl
str_lt_irrefl (a ∷ s) = ground (arith, str_lt_irrefl s)

str_lt_trans : (s t u : Str) → str_lt s t ≡ true → str_lt t u ≡ true → str_lt s u ≡ true
unfolding str_lt
str_lt_trans [] [] u h i = cc
str_lt_trans (a ∷ s) [] u h i = cc
str_lt_trans [] (b ∷ t) [] h i = cc
str_lt_trans [] (b ∷ t) (c ∷ u) h i = refl
str_lt_trans (a ∷ s) (b ∷ t) [] h i = cc
str_lt_trans (a ∷ s) (b ∷ t) (c ∷ u) h i = ground (arith, str_lt_trans s t u)

str_lt_total : (s t : Str) → str_beq s t ≡ false → str_lt s t ≡ false → str_lt t s ≡ true
unfolding str_lt
str_lt_total [] [] h i = cc
str_lt_total [] (b ∷ t) h i = cc
str_lt_total (a ∷ s) [] h i = refl
str_lt_total (a ∷ s) (b ∷ t) h i = ground (arith, str_lt_total s t)

pub by_test {ℓ κ} :
    {A : Type ℓ} (P : A → Type κ) {x y : A} (b : Bool)
    → (b ≡ true → P x)
    → (b ≡ false → P y)
    → P (if b then x else y)
by_test P true h i = h refl
by_test P false h i = i refl

module _ {ℓ} {V : Type ℓ} where
  -- `BTreeMap::insert`
  unfoldable pub put : Str → V → Assoc Str V → Assoc Str V
  unfolding str_lt
  put k v [] = (k, v) ∷ []
  put k v ((j, w) ∷ m) =
      let rest = put k v m in
      if k == j then (k, v) ∷ m else if str_lt k j then (k, v) ∷ (j, w) ∷ m else (j, w) ∷ rest

  unfoldable pub Above : Str → Assoc Str V → Type 0
  Above b [] = Unit
  Above b ((j, w) ∷ m) = (str_lt b j ≡ true) × Above b m

  unfoldable pub Ordered : Assoc Str V → Type 0
  Ordered [] = Unit
  Ordered ((j, w) ∷ m) = Above j m × Ordered m

  pub lookup-put :
      (j k : Str) (v : V) (m : Assoc Str V)
      → lookup j (put k v m) ≡ (if j == k then some v else lookup j m)
  unfolding lookup put
  lookup-put j k v [] = refl
  lookup-put j k v ((i, w) ∷ m) =
      ground (arith, lookup-put j k v m, str_beq_iff j k, str_beq_iff k i, str_beq_iff j i)

  pub lookup-Above : (k : Str) (m : Assoc Str V) → Above k m → lookup k m ≡ none
  unfolding lookup Above
  lookup-Above k [] h = refl
  lookup-Above k ((j, w) ∷ m) h =
      ground (arith, str_beq_iff k j, str_lt_irrefl k, lookup-Above k m h.1, h.0)

  Above-weaken : (a b : Str) (m : Assoc Str V) → str_lt a b ≡ true → Above b m → Above a m
  unfolding Above
  Above-weaken a b [] h i = tt
  Above-weaken a b ((j, w) ∷ m) h i = (str_lt_trans a b j h i.0, Above-weaken a b m h i.1)

  Above-put :
      (b k : Str) (v : V) (m : Assoc Str V) → str_lt b k ≡ true → Above b m → Above b (put k v m)
  unfolding Above put
  Above-put b k v [] h i = (h, tt)
  Above-put b k v ((j, w) ∷ m) h i =
      by_test (Above b) (str_beq k j) (λ _. (h, i.1))
        (λ _. by_test (Above b) (str_lt k j) (λ _. (h, i)) (λ _. (i.0, Above-put b k v m h i.1)))

  pub put-Ordered : (k : Str) (v : V) (m : Assoc Str V) → Ordered m → Ordered (put k v m)
  unfolding Ordered put
  put-Ordered k v [] o = (unfold Above in tt, tt)
  put-Ordered k v ((j, w) ∷ m) o =
      by_test Ordered (str_beq k j)
        (λ same. (subst (λ b. Above b m) (sym ((str_beq_iff k j).0 same)) o.0, o.1))
        (λ differ.
          by_test Ordered (str_lt k j)
            (λ less. (unfold Above in (less, Above-weaken k j m less o.0), o))
            (λ more. (Above-put j k v m (str_lt_total k j differ more) o.0, put-Ordered k v m o.1)))
