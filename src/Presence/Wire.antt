-- ===== src/Presence/Wire.antt =====
-- crates/okayeg/src/presence/wire.rs: the entries of a presence update on the wire, and the bound on
-- the nesting of their values. The formats of the serialization library are parameters.
pub mod Back
pub mod Bound
pub mod Entries
use okayeg.Prelude.{
  ℕ, zero, suc, ◌≡◌, Bool, true, false, Option, none, some, List, [], ◌∷◌, ◌++◌, Str, Bytes, max,
  length,
}
use okayeg.Prelude.Options.{◌>>=◌}

-- `i64`, which is only passed on
pub data I64 : Type 0 where
  pos negsuc : ℕ → I64

-- How postcard writes one kind of primitive, and reads it off the front of its input.
pub record Codec (A : Type 0) : Type 0 where
  pub encode : A → Option Bytes
  pub decode : Bytes → Option (A × Bytes)

-- Postcard's primitives: the index of a variant, a length of a sequence or a map, the tag of an
-- option, and those of the leaves, where an `f64` is the number of its bits.
pub record Postcard : Type 0 where
  pub variant : Codec ℕ
  pub len : Codec ℕ
  pub option : Codec Bool
  pub boolean : Codec Bool
  pub f64 : Codec ℕ
  pub i64 : Codec I64
  pub text : Codec Str
  pub bytes : Codec Bytes

-- What is written is read back, whatever follows it.
abbrev pub Reads : {A : Type 0} → Codec A → Type 0
Reads {A} c = (x : A) (b rest : Bytes) → c.encode x ≡ some b → c.decode (b ++ rest) ≡ some (x, rest)

pub record IsPostcard (P : Postcard) : Type 0 where
  pub variant : Reads P.variant
  pub len : Reads P.len
  pub option : Reads P.option
  pub boolean : Reads P.boolean
  pub f64 : Reads P.f64
  pub i64 : Reads P.i64
  pub text : Reads P.text
  pub bytes : Reads P.bytes

mutual
  pub data Value : Type 0 where
    null : Value
    boolean : Bool → Value
    double : ℕ → Value
    integer : I64 → Value
    string : Str → Value
    list : Values → Value
    map : Pairs → Value
    binary : Bytes → Value

  pub data Values : Type 0 where
    nil : Values
    cons : Value → Values → Values

  pub data Pairs : Type 0 where
    empty : Pairs
    pair : Str → Value → Pairs → Pairs

-- One store entry.
pub record Entry : Type 0 where
  pub key : Str
  pub value : Option Value
  pub timestamp : I64

abbrev pub max_depth : ℕ
max_depth = 64

abbrev pub count : Values → ℕ
count nil = 0
count (cons v vs) = suc (count vs)

abbrev pub count_pairs : Pairs → ℕ
count_pairs empty = 0
count_pairs (pair k v ps) = suc (count_pairs ps)

abbrev pub joined : Option Bytes → Option Bytes → Option Bytes
joined none b = none
joined (some a) none = none
joined (some a) (some b) = some (a ++ b)

pub data Tag : Type 0 where
  null_tag bool_tag double_tag i32_tag string_tag list_tag map_tag container_tag binary_tag : Tag

-- The variants in their order.
abbrev pub tags : List Tag
tags =
    null_tag ∷ bool_tag ∷ double_tag ∷ i32_tag ∷ string_tag ∷ list_tag ∷ map_tag ∷ container_tag
    ∷ binary_tag ∷ []

abbrev at : List Tag → ℕ → Option Tag
at [] n = none
at (t ∷ ts) zero = some t
at (t ∷ ts) (suc n) = at ts n

abbrev pub tag_of : ℕ → Option Tag
tag_of n = at tags n

-- A value that was read, as a variant.
abbrev pub mapped : {A : Type 0} → (A → Value) → Option (A × Bytes) → Option (Value × Bytes)
mapped f none = none
mapped f (some (x, b)) = some (f x, b)

abbrev pub Reader : Type 0
Reader = Bytes → Option (Value × Bytes)

module _ (P : Postcard) where
  unfoldable mutual
    pub serialize : Value → Option Bytes
    serialize null = P.variant.encode 0
    serialize (boolean v) = joined (P.variant.encode 1) (P.boolean.encode v)
    serialize (double v) = joined (P.variant.encode 2) (P.f64.encode v)
    serialize (integer v) = joined (P.variant.encode 3) (P.i64.encode v)
    serialize (string v) = joined (P.variant.encode 4) (P.text.encode v)
    serialize (list vs) =
        joined (P.variant.encode 5) (joined (P.len.encode (count vs)) (serialize_values vs))
    serialize (map ps) =
        joined (P.variant.encode 6) (joined (P.len.encode (count_pairs ps)) (serialize_pairs ps))
    serialize (binary v) = joined (P.variant.encode 8) (P.bytes.encode v)

    pub serialize_values : Values → Option Bytes
    serialize_values nil = some []
    serialize_values (cons v vs) = joined (serialize v) (serialize_values vs)

    pub serialize_pairs : Pairs → Option Bytes
    serialize_pairs empty = some []
    serialize_pairs (pair k v ps) =
        joined (P.text.encode k) (joined (serialize v) (serialize_pairs ps))

  -- The loop of `ListSeed`, over a sequence of so many elements.
  unfoldable pub visit_seq : Reader → ℕ → Bytes → Option (Values × Bytes)
  visit_seq next zero b = some (nil, b)
  visit_seq next (suc n) b = do r ← next b; rs ← visit_seq next n r.1; some (cons r.0 rs.0, rs.1)

  -- The loop of `MapSeed`.
  unfoldable pub visit_map : Reader → ℕ → Bytes → Option (Pairs × Bytes)
  visit_map next zero b = some (empty, b)
  visit_map next (suc n) b = do
    k ← P.text.decode b
    r ← next k.1
    rs ← visit_map next n r.1
    some (pair k.0 r.0 rs.0, rs.1)

  abbrev pub list_with : Reader → Option (ℕ × Bytes) → Option (Values × Bytes)
  list_with next none = none
  list_with next (some (n, b)) = visit_seq next n b

  abbrev pub map_with : Reader → Option (ℕ × Bytes) → Option (Pairs × Bytes)
  map_with next none = none
  map_with next (some (n, b)) = visit_map next n b

  -- What follows the tag; `next` reads a value one level down.
  unfoldable pub visit_variant : Reader → Option Tag → Bytes → Option (Value × Bytes)
  unfolding visit_seq visit_map
  visit_variant next none b = none
  visit_variant next (some null_tag) b = some (null, b)
  visit_variant next (some bool_tag) b = mapped boolean (P.boolean.decode b)
  visit_variant next (some double_tag) b = mapped double (P.f64.decode b)
  visit_variant next (some i32_tag) b = mapped integer (P.i64.decode b)
  visit_variant next (some string_tag) b = mapped string (P.text.decode b)
  visit_variant next (some list_tag) b = mapped list (list_with next (P.len.decode b))
  visit_variant next (some map_tag) b = mapped map (map_with next (P.len.decode b))
  visit_variant next (some container_tag) b = none
  visit_variant next (some binary_tag) b = mapped binary (P.bytes.decode b)

  abbrev pub visit_tagged : Reader → Option (ℕ × Bytes) → Option (Value × Bytes)
  visit_tagged next none = none
  visit_tagged next (some (n, b)) = visit_variant next (tag_of n) b

  -- `ValueSeed` with so much depth left.
  unfoldable pub deserialize : ℕ → Reader
  unfolding visit_variant
  deserialize zero b = none
  deserialize (suc depth) b = visit_tagged (deserialize depth) (P.variant.decode b)

  abbrev pub serialize_option : Option Value → Option Bytes
  serialize_option none = P.option.encode false
  serialize_option (some v) = joined (P.option.encode true) (serialize v)

  -- The fields in their order.
  unfoldable pub serialize_entry : Entry → Option Bytes
  unfolding serialize
  serialize_entry e =
      joined (P.text.encode e.key) (joined (serialize_option e.value) (P.i64.encode e.timestamp))

  unfoldable pub serialize_entries : List Entry → Option Bytes
  unfolding serialize_entry
  serialize_entries [] = some []
  serialize_entries (e ∷ es) = joined (serialize_entry e) (serialize_entries es)

  -- `postcard::to_allocvec` on the entries
  unfoldable pub to_allocvec : List Entry → Option Bytes
  unfolding serialize_entries
  to_allocvec es = joined (P.len.encode (length es)) (serialize_entries es)

  abbrev pub present : Option (Value × Bytes) → Option (Option Value × Bytes)
  present none = none
  present (some (v, b)) = some (some v, b)

  abbrev pub optional : Option (Bool × Bytes) → Option (Option Value × Bytes)
  optional none = none
  optional (some (false, b)) = some (none, b)
  optional (some (true, b)) = present (deserialize max_depth b)

  unfoldable pub deserialize_entry : Bytes → Option (Entry × Bytes)
  unfolding deserialize
  deserialize_entry b = do
    k ← P.text.decode b
    v ← optional (P.option.decode k.1)
    t ← P.i64.decode v.1
    some (record { key = k.0; value = v.0; timestamp = t.0 }, t.1)

  unfoldable pub deserialize_entries : ℕ → Bytes → Option (List Entry × Bytes)
  unfolding deserialize_entry
  deserialize_entries zero b = some ([], b)
  deserialize_entries (suc n) b = do
    r ← deserialize_entry b
    rs ← deserialize_entries n r.1
    some (r.0 ∷ rs.0, rs.1)

  abbrev pub counted : Option (ℕ × Bytes) → Option (List Entry)
  counted none = none
  counted (some (n, b)) = do rs ← deserialize_entries n b; some rs.0

  -- `postcard::from_bytes`, which drops what is left of its input
  unfoldable pub from_bytes : Bytes → Option (List Entry)
  unfolding deserialize_entries
  from_bytes b = counted (P.len.decode b)
