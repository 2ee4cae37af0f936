-- ===== src/Config.antt =====
-- crates/eg/src/config.rs: what the scopes of the configuration share. The TOML library is a
-- parameter, and the texts of errors are left out: an error of a scope is `invalid_data`.
pub mod Color
pub mod Repo
pub mod Global
pub mod Resolve
use okayeg.Prelude.{
  ℕ, Bool, true, false, Option, none, some, List, [], ◌∷◌, ◌++◌, Str, Bytes, lit, Result, ok, err,
  ◌>>=◌, ok_or,
}
use okayeg.Prelude.Options.{and_then}
use okayeg.Prelude.Assoc.{Assoc}
use okayeg.Utf8.{from_utf8}
use okayeg.Trust.File.{IoError, not_found, invalid_data, other_error}

-- `toml::Value` and `toml::Table`, and the parser of a text.
pub record Toml : Type 1 where
  pub Value : Type 0
  pub Table : Type 0
  pub parse : Str → Option Table
  pub get : Table → Str → Option Value
  -- the entries of a table, in the order in which it is iterated
  pub entries : Table → List (Str × Value)
  pub as_str : Value → Option Str
  pub as_array : Value → Option (List Value)
  pub as_table : Value → Option Table

-- `Option::or`
abbrev pub or_else : {A : Type 0} → Option A → Option A → Option A
or_else none other = other
or_else (some a) other = some a

abbrev pub unwrap_or : {A : Type 0} → Option A → A → A
unwrap_or none a = a
unwrap_or (some b) a = b

pub record IdentityConfig : Type 0 where
  pub name : Option Str
  pub email : Option Str
  pub color : Option Str

-- `IdentityConfig::default`
abbrev pub no_identity : IdentityConfig
no_identity = record { name = none; email = none; color = none }

-- The first value that the validator takes.
unfoldable pub first_valid : (Str → Option Str) → List Str → Option Str
first_valid validator [] = none
first_valid validator (v ∷ values) = elim (validator v) [
  | some c ↦ some c
  | none ↦ first_valid validator values
]

abbrev pub extend : List Str → Option Str → List Str
extend colors none = colors
extend colors (some c) = colors ++ (c ∷ [])

-- The loop of `layer`, over the layers that are left.
unfoldable pub layer_from :
    (Str → Option Str) → Option Str → Option Str → List Str → List IdentityConfig → IdentityConfig
unfolding first_valid
layer_from validator name email colors [] = record {
  name = name;
  email = email;
  color = first_valid validator colors;
}
layer_from validator name email colors (l ∷ layers) =
    layer_from validator (or_else name l.name) (or_else email l.email) (extend colors l.color)
      layers

-- The text of a file; a missing one is `none`.
abbrev pub text_of : Result IoError Bytes → Result IoError (Option Str)
text_of (ok bytes) = ok_or (from_utf8 bytes) invalid_data >>= λ text. ok (some text)
text_of (err not_found) = ok none
text_of (err invalid_data) = err invalid_data
text_of (err other_error) = err other_error

module _ (L : Toml) where
  open L use {Value, Table}

  abbrev pub string_of : Option Value → Result IoError (Option Str)
  string_of none = ok none
  string_of (some v) = ok_or (L.as_str v) invalid_data >>= λ s. ok (some s)

  -- The optional string at a key.
  unfoldable pub string_in : Table → Str → Result IoError (Option Str)
  string_in table key = string_of (L.get table key)

  -- `toml::Value::get`, which is `None` at what is no table
  abbrev pub get_in : Option Value → Str → Option Value
  get_in none key = none
  get_in (some v) key = and_then (L.as_table v) (λ t. L.get t key)

  unfoldable pub identity_in : Table → Result IoError IdentityConfig
  unfolding string_in
  identity_in table = do
    name ← string_in table (lit "name")
    email ← string_in table (lit "email")
    color ← string_in table (lit "color")
    ok (record { name = name; email = email; color = color })

  abbrev pub identity_of : Option Value → Result IoError IdentityConfig
  identity_of none = ok no_identity
  identity_of (some v) = ok_or (L.as_table v) invalid_data >>= identity_in

  -- `IdentityConfig::parse`
  unfoldable pub parse_identity : Table → Result IoError IdentityConfig
  unfolding identity_in
  parse_identity value = identity_of (L.get value (lit "identity"))
