-- ===== src/Tests/Postcards.antt =====
-- A postcard of small primitives: numbers and lengths of one byte, as the library writes those below
-- 128, the zigzag code of integers, and texts of ASCII letters.
use okayeg.Prelude.{
  ℕ, zero, suc, ◌+◌, ◌*◌, ◌/◌, ◌%◌, ◌≡◌, refl, ◌∙◌, ap, sym, Bool, true, false, Option, none, some,
  [], ◌∷◌, ◌++◌, Bytes, length, take, drop, ltb, leb, length-append, take-append_length,
  drop-append_length, some_injective, none_is_not_some, arith, nat_eq, if◌then◌else◌,
}
use okayeg.Presence.Wire.{I64, pos, negsuc, Codec, Reads, Postcard, IsPostcard}

abbrev one_byte : ℕ → Option Bytes
one_byte n = if ltb n 128 then some (n ∷ []) else none

abbrev first_byte : Bytes → Option (ℕ × Bytes)
first_byte [] = none
first_byte (n ∷ b) = some (n, b)

abbrev number : Codec ℕ
number = record { encode = one_byte; decode = first_byte }

if-some :
    {A : Type 0} (b : Bool) (x y : A)
    → ◌≡◌ {A = Option A} (if b then some x else none) (some y)
    → (b ≡ true) × (x ≡ y)
if-some true x y h = (refl, some_injective h)
if-some false x y h = elim (none_is_not_some h) [ ]

number-Reads : Reads number
number-Reads n b rest h =
    let (_, e) = if-some (ltb n 128) (n ∷ []) b h in
    ap (λ (l : Bytes). first_byte (l ++ rest)) (sym e)

abbrev bit : Bool → Option Bytes
bit true = some (1 ∷ [])
bit false = some (0 ∷ [])

abbrev first_bit : Bytes → Option (Bool × Bytes)
first_bit (zero ∷ b) = some (false, b)
first_bit (suc zero ∷ b) = some (true, b)
first_bit _ = none

abbrev flag : Codec Bool
flag = record { encode = bit; decode = first_bit }

flag-Reads : Reads flag
flag-Reads true b rest h = ap (λ (l : Bytes). first_bit (l ++ rest)) (sym (some_injective h))
flag-Reads false b rest h = ap (λ (l : Bytes). first_bit (l ++ rest)) (sym (some_injective h))

abbrev zigzag : I64 → ℕ
zigzag (pos n) = n * 2
zigzag (negsuc n) = n * 2 + 1

abbrev unzigzag : ℕ → I64
unzigzag n = if nat_eq (n % 2) 0 then pos (n / 2) else negsuc (n / 2)

unzigzag-zigzag : (i : I64) → unzigzag (zigzag i) ≡ i
unzigzag-zigzag (pos n) =
    let even : (n * 2) % 2 ≡ 0 = omega arith in
    let half : (n * 2) / 2 ≡ n = omega arith in ground (arith, even, half)
unzigzag-zigzag (negsuc n) =
    let odd : (n * 2 + 1) % 2 ≡ 1 = omega arith in
    let half : (n * 2 + 1) / 2 ≡ n = omega arith in ground (arith, odd, half)

abbrev first_integer : Option (ℕ × Bytes) → Option (I64 × Bytes)
first_integer none = none
first_integer (some (n, b)) = some (unzigzag n, b)

abbrev integer : Codec I64
integer = record { encode = λ i. one_byte (zigzag i); decode = λ b. first_integer (first_byte b) }

integer-Reads : Reads integer
integer-Reads i b rest h =
    ap first_integer (number-Reads (zigzag i) b rest h)
    ∙ ap (λ (j : I64). some (j, rest)) (unzigzag-zigzag i)

abbrev counted : Bytes → Option Bytes
counted x = if ltb (length x) 128 then some (length x ∷ x) else none

abbrev first_counted : Bytes → Option (Bytes × Bytes)
first_counted [] = none
first_counted (n ∷ b) = if leb n (length b) then some (take n b, drop n b) else none

abbrev string : Codec Bytes
string = record { encode = counted; decode = first_counted }

enough : (x rest : Bytes) → leb (length x) (length (x ++ rest)) ≡ true
enough x rest = ground (arith, length-append x rest)

string-Reads : Reads string
string-Reads x b rest h =
    let (_, e) = if-some (ltb (length x) 128) (length x ∷ x) b h in
    ap (λ (l : Bytes). first_counted (l ++ rest)) (sym e)
    ∙ ap
        (λ (c : Bool).
          if c then some (take (length x) (x ++ rest), drop (length x) (x ++ rest)) else none)
        (enough x rest)
    ∙ ap (λ (l : Bytes). some (l, drop (length x) (x ++ rest))) (take-append_length x rest)
    ∙ ap (λ (l : Bytes). some (x, l)) (drop-append_length x rest)

abbrev pub small : Postcard
small = record {
  variant = number;
  len = number;
  option = flag;
  boolean = flag;
  f64 = number;
  i64 = integer;
  text = string;
  bytes = string;
}

pub small-IsPostcard : IsPostcard small
small-IsPostcard = record {
  variant = number-Reads;
  len = number-Reads;
  option = flag-Reads;
  boolean = flag-Reads;
  f64 = number-Reads;
  i64 = integer-Reads;
  text = string-Reads;
  bytes = string-Reads;
}
