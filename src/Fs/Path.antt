-- ===== src/Fs/Path.antt =====
-- crates/okayeg/src/fs.rs: names, errors, and the split of a path into components.
pub mod RoundTrip
use okayeg.Prelude.{
  ℕ, Bool, true, false, not, ◌&&◌, List, [], ◌∷◌, ◌++◌, Str, lit, ◌==◌, ℕ_eq, Str_eq, contains,
  keep, all, is_empty, Result, ok, err, if◌then◌else◌,
}

pub data FsError : Type 0 where
  invalid_path not_found not_a_directory not_a_file already_exists not_empty invalid_move : FsError

-- Not empty, not `.` or `..`, and free of `/` and NUL.
unfoldable pub valid_name : Str → Bool
unfolding contains
valid_name name =
    not (is_empty name)
    && not (name == lit ".")
    && not (name == lit "..")
    && not (contains name b'/')
    && not (contains name 0)

abbrev prepend : ℕ → List Str → List Str
prepend c [] = (c ∷ []) ∷ []
prepend c (w ∷ ws) = (c ∷ w) ∷ ws

-- `str::split` at a character
unfoldable pub split : ℕ → Str → List Str
split sep [] = [] ∷ []
split sep (c ∷ s) = let rest = split sep s in if c == sep then [] ∷ rest else prepend c rest

-- `[str]::join("/")`
unfoldable pub join : List Str → Str
join [] = []
join (w ∷ []) = w
join (w ∷ ws) = w ++ (b'/' ∷ join ws)

-- Empty components collapse, and every other must be a valid name.
unfoldable pub components : Str → Result FsError (List Str)
unfolding split keep all valid_name
components path =
    let comps = keep (λ c. not (is_empty c)) (split b'/' path) in
    if all valid_name comps then ok comps else err invalid_path
