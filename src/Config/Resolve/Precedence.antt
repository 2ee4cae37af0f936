-- ===== src/Config/Resolve/Precedence.antt =====
-- crates/eg/src/config.rs: in which order the scopes count.
use okayeg.Prelude.{
  ◌≡◌, refl, ◌⊎◌, inl, inr, Bool, true, false, Option, none, some, List, [], ◌∷◌, Str, Str_eq, ok,
  Option-cases, Result-cases, ok_injective, arith, sym, ap, ◌∙◌, subst,
}
use okayeg.Prelude.Options.{and_then}
use okayeg.Prelude.Assoc.{lookup}
use okayeg.Config.{unwrap_or, or_else, extend, layer_from, first_valid}
use okayeg.Config.Color.{valid_color}
use okayeg.Config.Repo.{Config}
use okayeg.Config.Global.{GlobalConfig, Remote}
use okayeg.Config.Resolve.{
  named, Effective, device_key, selected, repo_file_if, remote_of, remote_key, remote_identity,
  merged, merge_with, resolve, layer,
}

-- The first of some candidates that is there.
abbrev pub first_of {ℓ} : {A : Type ℓ} → List (Option A) → Option A
first_of [] = none
first_of (none ∷ candidates) = first_of candidates
first_of (some a ∷ candidates) = some a

-- The remote that a repository is bound to: none, or that of the name in the global configuration.
abbrev pub IsBound : Config → GlobalConfig → Option Remote → Type 0
IsBound repo global remote =
    ((repo.remote ≡ none) × (remote ≡ none))
    ⊎ ((name : Str) × (r : Remote) × (repo.remote ≡ some name)
        × (lookup name global.remotes ≡ some r)
        × (remote ≡ some r))

-- The documented order of the scopes, key by key.
pub record IsLayered (cli_key env_key : Option Str) (repo : Config) (global : GlobalConfig)
    (repo_key_file : Bool) (remote : Option Remote) (eff : Effective) : Type 0 where
  pub key :
      eff.key
      ≡ unwrap_or
          (first_of (
            selected cli_key
            ∷ selected env_key
            ∷ selected repo.key
            ∷ repo_file_if repo_key_file
            ∷ selected (remote_key remote)
            ∷ selected global.key
            ∷ []))
          (named device_key)
  pub name :
      eff.identity.name
      ≡ first_of (repo.identity.name ∷ (remote_identity remote).name ∷ global.identity.name ∷ [])
  pub email :
      eff.identity.email
      ≡ first_of (repo.identity.email ∷ (remote_identity remote).email ∷ global.identity.email ∷ [])
  pub color :
      eff.identity.color
      ≡ first_of (
          and_then repo.identity.color valid_color
          ∷ and_then (remote_identity remote).color valid_color
          ∷ and_then global.identity.color valid_color
          ∷ [])
  pub authz_command : eff.authz_command ≡ repo.authz_command
  pub session_command : eff.session_command ≡ repo.session_command

or_order : (a b c : Option Str) → or_else (or_else (or_else none a) b) c ≡ first_of (a ∷ b ∷ c ∷ [])
or_order (some a) b c = refl
or_order none (some b) c = refl
or_order none none (some c) = refl
or_order none none none = refl

key_order :
    (c e r : Option Str) (f : Bool) (m g : Option Str)
    → unwrap_or
        (or_else
          (or_else (selected (or_else (or_else c e) r)) (repo_file_if f))
          (selected (or_else m g)))
        (named device_key)
      ≡ unwrap_or
          (first_of
            (selected c ∷ selected e ∷ selected r ∷ repo_file_if f ∷ selected m ∷ selected g ∷ []))
          (named device_key)
key_order (some c) e r f m g = refl
key_order none (some e) r f m g = refl
key_order none none (some r) f m g = refl
key_order none none none true m g = refl
key_order none none none false (some m) g = refl
key_order none none none false none (some g) = refl
key_order none none none false none none = refl

color_order :
    (a b c : Option Str)
    → first_valid valid_color (extend (extend (extend [] a) b) c)
      ≡ first_of (and_then a valid_color ∷ and_then b valid_color ∷ and_then c valid_color ∷ [])
unfolding first_valid
color_order none none none = refl
color_order none none (some c) = ground arith
color_order none (some b) none = ground arith
color_order none (some b) (some c) = ground arith
color_order (some a) none none = ground arith
color_order (some a) none (some c) = ground arith
color_order (some a) (some b) none = ground arith
color_order (some a) (some b) (some c) = ground arith

merged-IsLayered :
    (cli_key env_key : Option Str) (repo : Config) (global : GlobalConfig) (repo_key_file : Bool)
    (remote : Option Remote)
    → IsLayered cli_key env_key repo global repo_key_file remote
        (merged cli_key env_key repo global repo_key_file remote)
unfolding layer layer_from
merged-IsLayered cli_key env_key repo global repo_key_file remote = record {
  key = key_order cli_key env_key repo.key repo_key_file (remote_key remote) global.key;
  name = or_order repo.identity.name (remote_identity remote).name global.identity.name;
  email = or_order repo.identity.email (remote_identity remote).email global.identity.email;
  color = color_order repo.identity.color (remote_identity remote).color global.identity.color;
  authz_command = refl;
  session_command = refl;
}

remote_of-IsBound :
    (repo : Config) (global : GlobalConfig) (remote : Option Remote)
    → remote_of global repo.remote ≡ ok remote
    → IsBound repo global remote
remote_of-IsBound repo global remote h = elim (Option-cases repo.remote) [
  | inl none_named ↦ inl (none_named, ground (arith, none_named, h))
  | inr (name, e) ↦ elim (Option-cases (lookup name global.remotes)) [
    | inl missing ↦ ground (arith, e, missing, h)
    | inr (r, found) ↦ inr (name, r, e, found, ground (arith, e, found, h))
  ]
]

-- Settings that the scopes are merged to follow the documented order: the key is that of the command
-- line, of the environment, of the repository's configuration, its own key file, the key of the
-- remote, of the machine's configuration, or else the device key; name and email are those of the
-- repository, the remote or the machine; the colour is the first of theirs that is one; and the
-- commands are the repository's. A remote that is named is in the machine's configuration.
pub resolve-IsLayered :
    (cli_key env_key : Option Str) (repo : Config) (global : GlobalConfig) (repo_key_file : Bool)
    (eff : Effective)
    → resolve cli_key env_key repo global repo_key_file ≡ ok eff
    → (remote : Option Remote) × IsBound repo global remote
      × IsLayered cli_key env_key repo global repo_key_file remote eff
unfolding resolve
resolve-IsLayered cli_key env_key repo global repo_key_file eff h =
    elim (Result-cases (remote_of global repo.remote)) [
      | inl (remote, e) ↦ (
        remote,
        remote_of-IsBound repo global remote e,
        subst (IsLayered cli_key env_key repo global repo_key_file remote)
            (ok_injective (sym (ap (merge_with cli_key env_key repo global repo_key_file) e) ∙ h))
            (merged-IsLayered cli_key env_key repo global repo_key_file remote),
      )
      | inr (bad, e) ↦ ground (arith, e, h)
    ]
