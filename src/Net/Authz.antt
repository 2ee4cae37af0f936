-- ===== src/Net/Authz.antt =====
-- crates/okayeg-net/src/authz.rs: what a connecting peer may do, as an external command says.
pub mod Verdict
use okayeg.Prelude.{
  ℕ, Bool, true, false, not, ◌&&◌, ◌||◌, Option, none, some, List, [], ◌∷◌, ◌++◌, reverse, Str,
  Str_eq, ◌==◌, lit, Bytes, nat_eq, leb, keep, is_empty, contains, if◌then◌else◌,
}
use okayeg.Utf8.{from_utf8_lossy}
use okayeg.Sync.Msg.{Perms}

pub data Decision : Type 0 where
  grant : Perms → Decision
  deny : Option Str → Decision

-- `From<Option<Perms>>`
unfoldable pub from_option : Option Perms → Decision
from_option none = deny none
from_option (some p) = grant p

-- `char::is_whitespace`
unfoldable pub is_whitespace : ℕ → Bool
is_whitespace c =
    (leb 9 c && leb c 13)
    || nat_eq c 32
    || nat_eq c 0x85
    || nat_eq c 0xa0
    || nat_eq c 0x1680
    || (leb 0x2000 c && leb c 0x200a)
    || nat_eq c 0x2028
    || nat_eq c 0x2029
    || nat_eq c 0x202f
    || nat_eq c 0x205f
    || nat_eq c 0x3000

abbrev prepend : ℕ → List Str → List Str
prepend c [] = (c ∷ []) ∷ []
prepend c (w ∷ ws) = (c ∷ w) ∷ ws

abbrev starts_line_feed : Str → Bool
starts_line_feed [] = false
starts_line_feed (c ∷ s) = nat_eq c 10

-- `str::lines`: a line ends in a line feed, with or without a carriage return in front of it.
unfoldable pub lines : Str → List Str
lines [] = []
lines (c ∷ s) =
    let rest = lines s in
    if nat_eq c 10
    then [] ∷ rest
    else if nat_eq c 13 && starts_line_feed s
    then rest
    else prepend c rest

abbrev pieces : Str → List Str
unfolding is_whitespace
pieces [] = [] ∷ []
pieces (c ∷ s) = let rest = pieces s in if is_whitespace c then [] ∷ rest else prepend c rest

-- `str::split_whitespace`
unfoldable pub split_whitespace : Str → List Str
unfolding is_whitespace keep
split_whitespace s = keep (λ w. not (is_empty w)) (pieces s)

unfoldable pub trim_start : Str → Str
unfolding is_whitespace
trim_start [] = []
trim_start (c ∷ s) = if is_whitespace c then trim_start s else c ∷ s

-- `str::trim`
unfoldable pub trim : Str → Str
unfolding trim_start
trim s = reverse (trim_start (reverse (trim_start s)))

unfoldable pub join_lines : List Str → Str
join_lines [] = []
join_lines (w ∷ []) = w
join_lines (w ∷ ws) = w ++ (10 ∷ join_lines ws)

-- One word of the first line; an unknown one is ignored.
unfoldable pub grant_word : Perms → Str → Perms
grant_word p w =
    if w == lit "pull"
    then record p { pull = true }
    else if w == lit "push"
    then record p { push = true }
    else p

-- The loop over the words of the first line.
unfoldable pub grant_words : Perms → List Str → Perms
unfolding grant_word
grant_words p [] = p
grant_words p (w ∷ ws) = grant_words (grant_word p w) ws

abbrev pub no_perms : Perms
no_perms = record { pull = false; push = false }

abbrev first_line : List Str → Str
first_line [] = []
first_line (l ∷ ls) = l

abbrev later_lines : List Str → List Str
later_lines [] = []
later_lines (l ∷ ls) = ls

abbrev nonempty : Str → Option Str
nonempty [] = none
nonempty (c ∷ s) = some (c ∷ s)

unfoldable pub parse_verdict : Str → Decision
unfolding lines split_whitespace grant_words trim join_lines
parse_verdict stdout =
    let ls = lines stdout in
    let perms = grant_words no_perms (split_whitespace (first_line ls)) in
    if perms.pull || perms.push
    then grant perms
    else deny (nonempty (trim (join_lines (later_lines ls))))

-- How the command went: it did not start, its output could not be read, or it exited, with or
-- without success, and wrote these bytes.
pub data Ran : Type 0 where
  not_spawned not_awaited : Ran
  exited : Bool → Bytes → Ran

-- `CommandAuthorizer::authorize`, of what the command did with the peer's id
unfoldable pub authorize : Ran → Decision
unfolding parse_verdict from_utf8_lossy
authorize not_spawned = deny none
authorize not_awaited = deny none
authorize (exited success stdout) =
    let verdict = parse_verdict (from_utf8_lossy stdout) in
    if not success then deny none else verdict
