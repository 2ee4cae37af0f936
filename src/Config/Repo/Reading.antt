-- ===== src/Config/Repo/Reading.antt =====
-- crates/eg/src/config.rs: what the configuration of a repository is read as.
use okayeg.Prelude.{◌≡◌, ◌⊎◌, false, Option, none, some, List, ◌∷◌, Str, lit, Result}
use okayeg.Prelude.Options.{and_then}
use okayeg.Trust.File.{IoError}
use okayeg.Config.{Toml, IdentityConfig, no_identity}
use okayeg.Config.Repo.{Config, is_table, strings, command_of}

module _ (L : Toml) where
  open L use {Value, Table}

  -- A key that is absent, or holds this string.
  abbrev pub IsString : Option Value → Option Str → Type 0
  IsString o field =
      ((o ≡ none) × (field ≡ none))
      ⊎ ((v : Value) × (s : Str) × (o ≡ some v) × (L.as_str v ≡ some s) × (field ≡ some s))

  -- A key that is absent, or holds these strings, the first of which is the program.
  abbrev pub IsCommand : Option Value → Option (List Str) → Type 0
  IsCommand o field =
      ((o ≡ none) × (field ≡ none))
      ⊎ ((v : Value) × (items : List Value) × (program : Str) × (args : List Str) × (o ≡ some v)
          × (L.as_array v ≡ some items)
          × (strings L items ≡ some (program ∷ args))
          × (field ≡ some (program ∷ args)))

  -- The command of a block that is absent, that is no table and then has none, or that is a table.
  abbrev pub IsCommandIn : Option Value → Option (List Str) → Type 0
  IsCommandIn block field =
      ((block ≡ none) × (field ≡ none))
      ⊎ (((v : Value) × (block ≡ some v) × (L.as_table v ≡ none) × (field ≡ none))
          ⊎ ((v : Value) × (table : Table) × (block ≡ some v)
              × (L.as_table v ≡ some table)
              × IsCommand (L.get table (lit "command")) field))

  pub record IsIdentity (table : Table) (i : IdentityConfig) : Type 0 where
    pub name : IsString (L.get table (lit "name")) i.name
    pub email : IsString (L.get table (lit "email")) i.email
    pub color : IsString (L.get table (lit "color")) i.color

  -- A configuration that a table reads as.
  pub record IsRead (value : Table) (c : Config) : Type 0 where
    pub remote : IsString (L.get value (lit "remote")) c.remote
    pub peer : IsString (L.get value (lit "peer")) c.peer
    pub key : IsString (L.get value (lit "key")) c.key
    pub one_binding : (c.remote ≡ none) ⊎ (c.peer ≡ none)
    pub authz : IsCommandIn (L.get value (lit "authz")) c.authz_command
    pub session : IsCommandIn (L.get value (lit "session")) c.session_command
    pub identity :
        ((L.get value (lit "identity") ≡ none) × (c.identity ≡ no_identity))
        ⊎ ((v : Value) × (table : Table) × (L.get value (lit "identity") ≡ some v)
            × (L.as_table v ≡ some table)
            × IsIdentity table c.identity)
    pub no_blocks : is_table L (L.get value (lit "keys")) ≡ false

  abbrev command_at : Option Table → Result IoError (Option (List Str))
  command_at block = command_of L (and_then block (λ t. L.get t (lit "command")))

  abbrev IsIdentityOf : Option Value → IdentityConfig → Type 0
  IsIdentityOf o i =
      ((o ≡ none) × (i ≡ no_identity))
      ⊎ ((v : Value) × (table : Table) × (o ≡ some v)
          × (L.as_table v ≡ some table)
          × IsIdentity table i)
