-- ===== src/Config/Resolve.antt =====
-- crates/eg/src/config.rs: `resolve`, which merges the scopes into what a command sees.
pub mod Precedence
use okayeg.Prelude.{
  Bool, true, false, ◌||◌, Option, none, some, List, [], ◌∷◌, Str, Str_eq, lit, ◌==◌, contains,
  ℕ_eq, Result, ok, err, if◌then◌else◌,
}
use okayeg.Prelude.Options.{and_then}
use okayeg.Prelude.Assoc.{lookup}
use okayeg.Trust.File.{IoError, invalid_data}
use okayeg.Config.{IdentityConfig, no_identity, or_else, unwrap_or, layer_from}
use okayeg.Config.Color.{valid_color}
use okayeg.Config.Repo.{Config}
use okayeg.Config.Global.{GlobalConfig, Remote}

pub data KeySelector : Type 0 where
  path named : Str → KeySelector
  repo_file : KeySelector

pub record Effective : Type 0 where
  pub identity : IdentityConfig
  pub key : KeySelector
  pub authz_command : Option (List Str)
  pub session_command : Option (List Str)

abbrev pub device_key : Str
device_key = lit "device"

unfoldable pub selector : Str → KeySelector
unfolding contains
selector s = if contains s b'/' || s == lit "." || s == lit ".." then path s else named s

abbrev pub selected : Option Str → Option KeySelector
selected none = none
selected (some s) = some (selector s)

-- `bool::then_some` of the file of the repository
abbrev pub repo_file_if : Bool → Option KeySelector
repo_file_if true = some repo_file
repo_file_if false = none

-- The remote that the repository names, if it names one.
abbrev pub remote_of : GlobalConfig → Option Str → Result IoError (Option Remote)
remote_of global none = ok none
remote_of global (some name) = elim (lookup name global.remotes) [
  | none ↦ err invalid_data
  | some r ↦ ok (some r)
]

abbrev pub remote_key : Option Remote → Option Str
remote_key none = none
remote_key (some r) = r.key

abbrev pub remote_identity : Option Remote → IdentityConfig
remote_identity none = no_identity
remote_identity (some r) = r.identity

-- `IdentityConfig::layer`
unfoldable pub layer : List IdentityConfig → IdentityConfig
unfolding layer_from
layer layers = layer_from valid_color none none [] layers

abbrev pub merged :
    Option Str → Option Str → Config → GlobalConfig → Bool → Option Remote → Effective
merged cli_key env_key repo global repo_key_file remote =
    let first = selected (or_else (or_else cli_key env_key) repo.key) in
    let later = selected (or_else (remote_key remote) global.key) in
    let key = or_else (or_else first (repo_file_if repo_key_file)) later in
    record {
      identity = layer (repo.identity ∷ remote_identity remote ∷ global.identity ∷ []);
      key = unwrap_or key (named device_key);
      authz_command = repo.authz_command;
      session_command = repo.session_command;
    }

abbrev pub merge_with :
    Option Str
    → Option Str
    → Config
    → GlobalConfig
    → Bool
    → Result IoError (Option Remote)
    → Result IoError Effective
merge_with cli_key env_key repo global repo_key_file (err e) = err e
merge_with cli_key env_key repo global repo_key_file (ok remote) =
    ok (merged cli_key env_key repo global repo_key_file remote)

unfoldable pub resolve :
    Option Str → Option Str → Config → GlobalConfig → Bool → Result IoError Effective
unfolding selector layer
resolve cli_key env_key repo global repo_key_file =
    merge_with cli_key env_key repo global repo_key_file (remote_of global repo.remote)
