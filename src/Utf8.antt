-- ===== src/Utf8.antt =====
-- Rust's UTF-8: `str::as_bytes`, `String::from_utf8` and `String::from_utf8_lossy`, which
-- crates/okayeg-net/src/lib.rs, crates/eg/src/bridge.rs and crates/eg/src/watch.rs call.
pub mod RoundTrip
use okayeg.Prelude.{
  ℕ, zero, suc, ◌+◌, ◌-◌, ◌*◌, ◌/◌, ◌%◌, Bool, true, false, ◌&&◌, ◌||◌, Option, none, some, List,
  [], ◌∷◌, ◌++◌, Str, Bytes, ltb, leb, if◌then◌else◌, length,
}

-- A `char`: a code point that is no surrogate.
unfoldable pub is_scalar : ℕ → Bool
is_scalar c = ltb c 0xd800 || (leb 0xe000 c && ltb c 0x110000)

unfoldable pub encode_char : ℕ → Bytes
encode_char c =
    if ltb c 0x80
    then c ∷ []
    else if ltb c 0x800
    then (0xc0 + c / 64) ∷ (0x80 + c % 64) ∷ []
    else if ltb c 0x10000
    then (0xe0 + c / 4096) ∷ (0x80 + c / 64 % 64) ∷ (0x80 + c % 64) ∷ []
    else (0xf0 + c / 262144) ∷ (0x80 + c / 4096 % 64) ∷ (0x80 + c / 64 % 64) ∷ (0x80 + c % 64) ∷ []

-- `str::as_bytes`
unfoldable pub as_bytes : Str → Bytes
unfolding encode_char
as_bytes [] = []
as_bytes (c ∷ s) = encode_char c ++ as_bytes s

abbrev within : ℕ → ℕ → ℕ → Bool
within lo hi b = leb lo b && leb b hi

abbrev is_tail : ℕ → Bool
is_tail = within 0x80 0xbf

-- Which second bytes may follow a first byte of three, and of four.
abbrev second_of_3 : ℕ → ℕ → Bool
second_of_3 b c =
    if ltb b 0xe1
    then within 0xa0 0xbf c
    else if ltb b 0xed
    then is_tail c
    else if ltb b 0xee
    then within 0x80 0x9f c
    else is_tail c

abbrev second_of_4 : ℕ → ℕ → Bool
second_of_4 b c =
    if ltb b 0xf1 then within 0x90 0xbf c else if ltb b 0xf4 then is_tail c else within 0x80 0x8f c

-- The character at the head, `none` if it is ill-formed, and the bytes behind the character or
-- behind the maximal ill-formed part.
abbrev pub Head : Type 0
Head = Option ℕ × Bytes

abbrev head_2 : ℕ → Bytes → Head
head_2 b [] = (none, [])
head_2 b (c ∷ r) = if is_tail c then (some ((b - 0xc0) * 64 + (c - 0x80)), r) else (none, c ∷ r)

abbrev head_3_last : ℕ → ℕ → Bytes → Head
head_3_last b c [] = (none, [])
head_3_last b c (e ∷ r) =
    if is_tail e
    then (some ((b - 0xe0) * 4096 + (c - 0x80) * 64 + (e - 0x80)), r)
    else (none, e ∷ r)

abbrev head_3 : ℕ → Bytes → Head
head_3 b [] = (none, [])
head_3 b (c ∷ r) = if second_of_3 b c then head_3_last b c r else (none, c ∷ r)

abbrev head_4_last : ℕ → ℕ → ℕ → Bytes → Head
head_4_last b c e [] = (none, [])
head_4_last b c e (f ∷ r) =
    if is_tail f
    then (some ((b - 0xf0) * 262144 + (c - 0x80) * 4096 + (e - 0x80) * 64 + (f - 0x80)), r)
    else (none, f ∷ r)

abbrev head_4_third : ℕ → ℕ → Bytes → Head
head_4_third b c [] = (none, [])
head_4_third b c (e ∷ r) = if is_tail e then head_4_last b c e r else (none, e ∷ r)

abbrev head_4 : ℕ → Bytes → Head
head_4 b [] = (none, [])
head_4 b (c ∷ r) = if second_of_4 b c then head_4_third b c r else (none, c ∷ r)

unfoldable pub head : ℕ → Bytes → Head
head b r =
    if ltb b 0x80
    then (some b, r)
    else if ltb b 0xc2
    then (none, r)
    else if ltb b 0xe0
    then head_2 b r
    else if ltb b 0xf0
    then head_3 b r
    else if ltb b 0xf5
    then head_4 b r
    else (none, r)

-- Each round takes a byte at least, so the number of bytes is fuel enough.
unfoldable pub decode_within : ℕ → Bytes → Option Str
unfolding head
decode_within fuel [] = some []
decode_within zero (b ∷ r) = none
decode_within (suc fuel) (b ∷ r) =
    let rest = decode_within fuel (head b r).1 in
    elim (head b r).0 [ none ↦ none | some c ↦ elim rest [ none ↦ none | some s ↦ some (c ∷ s) ] ]

-- `String::from_utf8`, without its error
unfoldable pub from_utf8 : Bytes → Option Str
unfolding decode_within
from_utf8 b = decode_within (length b) b

unfoldable pub lossy_within : ℕ → Bytes → Str
unfolding head
lossy_within fuel [] = []
lossy_within zero (b ∷ r) = []
lossy_within (suc fuel) (b ∷ r) =
    let rest = lossy_within fuel (head b r).1 in
    elim (head b r).0 [ none ↦ 0xfffd ∷ rest | some c ↦ c ∷ rest ]

-- `String::from_utf8_lossy`
unfoldable pub from_utf8_lossy : Bytes → Str
unfolding lossy_within
from_utf8_lossy b = lossy_within (length b) b
