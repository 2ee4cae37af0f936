-- ===== src/Tests/ConfigRuns.antt =====
-- A TOML library of a few values, and the theorems on the configuration there.
use okayeg.Prelude.{
  ◌≡◌, refl, false, Option, none, some, List, [], ◌∷◌, Str, Str_eq, lit, ok, map, all, ◌==◌,
  if◌then◌else◌,
}
use okayeg.Prelude.Assoc.{lookup, insert}
use okayeg.Config.{Toml, no_identity}
use okayeg.Config.Color.{normalize_color}
use okayeg.Config.Color.Hex.{IsColor, normalize_color-IsColor}
use okayeg.Config.Color.Digits.{normalize_color-is_hex}
use okayeg.Config.Repo
use okayeg.Config.Repo.{Config, no_config}
use okayeg.Config.Global
use okayeg.Config.Global.{GlobalConfig, Remote, secret_service}
use okayeg.Config.Resolve.{named, resolve, Effective}
use okayeg.Config.Resolve.Precedence.{IsBound, IsLayered, resolve-IsLayered}

mutual
  pub data Val : Type 0 where
    word : Str → Val
    words : List Str → Val
    block : Rows → Val

  pub data Rows : Type 0 where
    empty : Rows
    row : Str → Val → Rows → Rows

abbrev get_row : Rows → Str → Option Val
get_row empty key = none
get_row (row k v rows) key = let rest = get_row rows key in if k == key then some v else rest

abbrev rows_list : Rows → List (Str × Val)
rows_list empty = []
rows_list (row k v rows) = (k, v) ∷ rows_list rows

abbrev word_of : Val → Option Str
word_of (word s) = some s
word_of _ = none

abbrev words_of : Val → Option (List Val)
words_of (words l) = some (map word l)
words_of _ = none

abbrev block_of : Val → Option Rows
block_of (block rows) = some rows
block_of _ = none

-- A parser that gives one table whatever the text.
abbrev toml : Rows → Toml
toml rows = record {
  Value = Val;
  Table = Rows;
  parse = λ text. some rows;
  get = get_row;
  entries = rows_list;
  as_str = word_of;
  as_array = words_of;
  as_table = block_of;
}

abbrev repo_rows : Rows
repo_rows = row (lit "remote") (word (lit "thesis")) (
    row (lit "authz") (block (row (lit "command") (words (lit "check" ∷ lit "42" ∷ [])) empty))
      empty)

abbrev thesis : Config
thesis = record no_config {
  remote = some (lit "thesis");
  authz_command = some (lit "check" ∷ lit "42" ∷ []);
}

-- A hook that is no table is passed over.
passed_over :
    Repo.parse (toml (row (lit "authz") (words (lit "check" ∷ [])) empty)) [] ≡ ok no_config
unfolding Repo.parse
passed_over = refl

abbrev global_rows : Rows
global_rows = row (lit "keys") (block (row (lit "backend") (word (lit "secret-service")) empty)) (
    row (lit "remote")
      (block (
        row (lit "thesis")
          (block
            (row (lit "key") (word (lit "work")) (row (lit "color") (word (lit "#FF8800")) empty)))
          empty))
      empty)

abbrev machine : GlobalConfig
machine = record {
  identity = no_identity;
  key = none;
  keys_backend = secret_service;
  remotes =
      (
        lit "thesis",
        record {
          peer = none;
          key = some (lit "work");
          identity = record no_identity { color = some (lit "#FF8800") };
        },
      )
      ∷ [];
}

read_machine : Global.parse (toml global_rows) [] ≡ ok machine
unfolding Global.parse insert
read_machine = refl

abbrev merged_thesis : Effective
merged_thesis = record {
  identity = record no_identity { color = some (lit "#ff8800") };
  key = named (lit "work");
  authz_command = thesis.authz_command;
  session_command = none;
}

resolved : resolve none none thesis machine false ≡ ok merged_thesis
unfolding resolve lookup normalize_color
resolved = refl

resolve-IsLayered_example :
    (remote : Option Remote) × IsBound thesis machine remote
    × IsLayered none none thesis machine false remote merged_thesis
resolve-IsLayered_example = resolve-IsLayered none none thesis machine false merged_thesis resolved

-- A plus sign passes for a digit.
plus_signs : normalize_color (lit "#+1+2+3") ≡ ok (lit "#010203")
unfolding normalize_color
plus_signs = refl

normalize_color-IsColor_example :
    IsColor (lit "#010203") × (normalize_color (lit "#010203") ≡ ok (lit "#010203"))
normalize_color-IsColor_example = normalize_color-IsColor (lit "#+1+2+3") (lit "#010203") plus_signs

normalize_color-is_hex_example :
    (normalize_color (lit "#FF88a0") ≡ ok (lit "#ff88a0"))
    × (normalize_color (lit "FF88a0") ≡ ok (lit "#ff88a0"))
normalize_color-is_hex_example = normalize_color-is_hex (lit "FF88a0") refl (unfold all in refl)
