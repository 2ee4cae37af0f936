-- ===== src/Config/Global.antt =====
-- crates/eg/src/config.rs: `GlobalConfig`, the configuration of a machine.
use okayeg.Prelude.{
  ◌||◌, Option, none, some, List, [], ◌∷◌, Str, Str_eq, lit, ◌==◌, is_some, Result, ok, err, ◌>>=◌,
  ok_or, if◌then◌else◌,
}
use okayeg.Prelude.Assoc.{Assoc, insert}
use okayeg.Trust.File.{IoError, invalid_data}
use okayeg.Config.{Toml, IdentityConfig, string_in, identity_in, get_in, parse_identity}

pub data KeysBackend : Type 0 where
  raw_file secret_service : KeysBackend

pub record Remote : Type 0 where
  pub peer : Option Str
  pub key : Option Str
  pub identity : IdentityConfig

pub record GlobalConfig : Type 0 where
  pub identity : IdentityConfig
  pub key : Option Str
  pub keys_backend : KeysBackend
  pub remotes : Assoc Str Remote

module _ (L : Toml) where
  open L use {Value, Table}

  abbrev pub backend_named : Option Str → Result IoError KeysBackend
  backend_named none = err invalid_data
  backend_named (some s) =
      if s == lit "file"
      then ok raw_file
      else if s == lit "secret-service"
      then ok secret_service
      else err invalid_data

  abbrev pub backend_of : Option Value → Result IoError KeysBackend
  backend_of none = ok raw_file
  backend_of (some v) = backend_named (L.as_str v)

  unfoldable pub remote_in : Table → Result IoError Remote
  unfolding string_in identity_in
  remote_in block = do
    peer ← string_in L block (lit "peer")
    key ← string_in L block (lit "key")
    identity ← identity_in L block
    ok (record { peer = peer; key = key; identity = identity })

  -- The loop over the blocks.
  unfoldable pub remotes_from :
      Assoc Str Remote → List (Str × Value) → Result IoError (Assoc Str Remote)
  unfolding remote_in
  remotes_from remotes [] = ok remotes
  remotes_from remotes ((name, v) ∷ blocks) = do
    block ← ok_or (L.as_table v) invalid_data
    remote ← remote_in block
    remotes_from (insert name remote remotes) blocks

  abbrev pub remotes_of : Option Value → Result IoError (Assoc Str Remote)
  remotes_of none = ok []
  remotes_of (some v) =
      ok_or (L.as_table v) invalid_data >>= λ table. remotes_from [] (L.entries table)

  abbrev pub parse_table : Table → Result IoError GlobalConfig
  parse_table value =
      if is_some (L.get value (lit "authz")) || is_some (L.get value (lit "session"))
      then err invalid_data
      else do
        key ← string_in L value (lit "key")
        identity ← parse_identity L value
        keys_backend ← backend_of (get_in L (L.get value (lit "keys")) (lit "backend"))
        remotes ← remotes_of (L.get value (lit "remote"))
        ok (record {
          identity = identity;
          key = key;
          keys_backend = keys_backend;
          remotes = remotes;
        })

  unfoldable pub parse : Str → Result IoError GlobalConfig
  unfolding string_in parse_identity remotes_from
  parse text = ok_or (L.parse text) invalid_data >>= parse_table
