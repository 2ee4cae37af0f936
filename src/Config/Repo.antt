-- ===== src/Config/Repo.antt =====
-- crates/eg/src/config.rs: `Config`, the configuration of a repository.
pub mod Reading
use okayeg.Prelude.{
  Bool, true, false, ◌&&◌, Option, none, some, List, [], ◌∷◌, Str, Bytes, lit, is_some, is_empty,
  Result, ok, err, ◌>>=◌, ok_or, if◌then◌else◌,
}
use okayeg.Prelude.Options.{and_then}
use okayeg.Trust.File.{IoError, invalid_data}
use okayeg.Config.{Toml, IdentityConfig, no_identity, string_in, get_in, parse_identity, text_of}

pub record Config : Type 0 where
  pub authz_command : Option (List Str)
  pub identity : IdentityConfig
  pub session_command : Option (List Str)
  pub remote : Option Str
  pub peer : Option Str
  pub key : Option Str

-- `Config::default`
abbrev pub no_config : Config
no_config = record {
  authz_command = none;
  identity = no_identity;
  session_command = none;
  remote = none;
  peer = none;
  key = none;
}

module _ (L : Toml) where
  open L use {Value, Table}

  abbrev pub is_table : Option Value → Bool
  is_table none = false
  is_table (some v) = is_some (L.as_table v)

  -- Strings all of them, or `none`.
  unfoldable pub strings : List Value → Option (List Str)
  strings [] = some []
  strings (v ∷ values) =
      and_then (L.as_str v) (λ s. and_then (strings values) (λ rest. some (s ∷ rest)))

  abbrev pub nonempty : List Str → Result IoError (Option (List Str))
  nonempty cmd = if is_empty cmd then err invalid_data else ok (some cmd)

  abbrev pub command_of : Option Value → Result IoError (Option (List Str))
  command_of none = ok none
  command_of (some v) = do
    arr ← ok_or (L.as_array v) invalid_data
    cmd ← ok_or (strings arr) invalid_data
    nonempty cmd

  unfoldable pub command_field : Table → Str → Result IoError (Option (List Str))
  unfolding strings
  command_field value table = command_of (get_in L (L.get value table) (lit "command"))

  -- What follows the first two tests of `parse`.
  abbrev pub parse_fields : Table → Result IoError Config
  parse_fields value = do
    remote ← string_in L value (lit "remote")
    peer ← string_in L value (lit "peer")
    key ← string_in L value (lit "key")
    if is_some remote && is_some peer then err invalid_data else do
      authz_command ← command_field value (lit "authz")
      session_command ← command_field value (lit "session")
      identity ← parse_identity L value
      ok (record {
        authz_command = authz_command;
        identity = identity;
        session_command = session_command;
        remote = remote;
        peer = peer;
        key = key;
      })

  abbrev pub parse_table : Table → Result IoError Config
  parse_table value =
      if is_table (L.get value (lit "remote"))
      then err invalid_data
      else if is_table (L.get value (lit "keys"))
      then err invalid_data
      else parse_fields value

  unfoldable pub parse : Str → Result IoError Config
  unfolding command_field string_in parse_identity
  parse text = ok_or (L.parse text) invalid_data >>= parse_table

  abbrev pub parse_text : Option Str → Result IoError Config
  parse_text none = ok no_config
  parse_text (some text) = parse text

  unfoldable pub load : Result IoError Bytes → Result IoError Config
  unfolding parse
  load file = text_of file >>= parse_text
