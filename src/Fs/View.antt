-- ===== src/Fs/View.antt =====
-- crates/okayeg/src/fs.rs: reading the tree by path. crates/eg/src/filetree.rs: `ls` and `cat`.
pub mod PathOf
use okayeg.Prelude.{
  ℕ, zero, suc, Bool, true, false, not, Option, none, some, List, [], ◌∷◌, ◌++◌, reverse, map, Str,
  lit, ◌==◌, Str_eq, find, keep, is_empty, is_some, Result, ok, err, ok_or, ◌>>=◌, if◌then◌else◌,
}
use okayeg.TreeDoc.{TreeDoc, TreeParent, node, root, deleted, unexist, child_list}
use okayeg.Tree
use okayeg.Tree.{NodeKind, is_dir}
use okayeg.Fs.Path.{FsError, not_found, not_a_directory, not_a_file, valid_name, join, components}

abbrev pub has_name : Option Str → Str → Bool
has_name none name = false
has_name (some s) name = s == name

-- `Option::filter` by `valid_name`
abbrev pub only_valid : Option Str → Option Str
only_valid none = none
only_valid (some s) = if valid_name s then some s else none

module _ (T : TreeDoc) where
  open T use {LoroDoc, NodeId}

  pub record Entry : Type 0 where
    pub id : NodeId
    pub name : Str
    pub kind : Option NodeKind

  unfoldable pub child_named : LoroDoc → Option NodeId → Str → Option NodeId
  unfolding find Tree.name
  child_named d parent name = find (λ n. has_name (Tree.name T d n) name) (child_list T d parent)

  -- `is_some_and` of a node that is no directory
  abbrev pub blocks : LoroDoc → Option NodeId → Bool
  blocks d none = false
  blocks d (some n) = not (is_dir (Tree.kind T d n))

  -- The loop of `resolve` over the components.
  unfoldable pub resolve_from : LoroDoc → Option NodeId → List Str → Result FsError (Option NodeId)
  resolve_from d current [] = ok current
  resolve_from d current (comp ∷ comps) =
      if blocks d current then err not_a_directory else elim (child_named d current comp) [
        | none ↦ err not_found
        | some n ↦ resolve_from d (some n) comps
      ]

  unfoldable pub resolve : LoroDoc → Str → Result FsError NodeId
  unfolding resolve_from child_named components
  resolve d path = do
    comps ← components path
    current ← resolve_from d none comps
    ok_or current not_found

  abbrev unwrap_or_default : Option Str → Str
  unwrap_or_default none = []
  unwrap_or_default (some s) = s

  unfoldable pub entry : LoroDoc → NodeId → Entry
  unfolding Tree.name Tree.kind
  entry d n = record { id = n; name = unwrap_or_default (Tree.name T d n); kind = Tree.kind T d n }

  unfoldable pub stat : LoroDoc → Str → Result FsError Entry
  unfolding resolve entry
  stat d path = do n ← resolve d path; ok (entry d n)

  -- The text of the handle that `text` returns.
  unfoldable pub text : LoroDoc → Str → Result FsError Str
  unfolding resolve Tree.content
  text d path = do n ← resolve d path; ok_or (Tree.content T d n) not_a_file

  unfoldable pub read : LoroDoc → Str → Result FsError Str
  unfolding text
  read d path = text d path

  abbrev listed : LoroDoc → List Str → Str → Result FsError (List NodeId)
  listed d [] path = ok (T.roots d)
  listed d (_ ∷ _) path = resolve d path >>= λ n.
      if is_dir (Tree.kind T d n) then ok (Tree.children T d n) else err not_a_directory

  unfoldable pub readdir : LoroDoc → Str → Result FsError (List Entry)
  unfolding resolve entry keep Tree.children
  readdir d path = do
    comps ← components path
    children ← listed d comps path
    ok (keep (λ (e : Entry). valid_name e.name) (map (entry d) children))

  -- The nodes of a list with a valid name, each with its path under a prefix.
  unfoldable pub named : LoroDoc → (Str → Str) → List NodeId → List (NodeId × Str)
  named d under [] = []
  named d under (n ∷ ns) =
      let rest = named d under ns in
      elim (only_valid (Tree.name T d n)) [ none ↦ rest | some s ↦ (n, under s) ∷ rest ]

  -- The stack of `walk`, its top first. `none` is a run out of fuel.
  unfoldable pub walk_stack : ℕ → LoroDoc → List (NodeId × Str) → Option (List (Str × Entry))
  unfolding named
  walk_stack zero d stack = none
  walk_stack (suc fuel) d [] = some []
  walk_stack (suc fuel) d ((n, path) ∷ stack) =
      let pushed =
        if is_dir (Tree.kind T d n)
        then reverse (named d (λ s. path ++ (b'/' ∷ s)) (Tree.children T d n)) ++ stack
        else stack in
      let rest = walk_stack fuel d pushed in
      elim rest [ none ↦ none | some out ↦ some ((path, entry d n) ∷ out) ]

  unfoldable pub walk : ℕ → LoroDoc → Option (List (Str × Entry))
  unfolding walk_stack
  walk fuel d = walk_stack fuel d (reverse (named d (λ s. s) (T.roots d)))

  -- The loop of `path_of`, with the parts pushed so far, the last first. The outer `none` is a run
  -- out of fuel.
  unfoldable pub climb : ℕ → LoroDoc → List Str → NodeId → Option (Option (List Str))
  climb zero d parts current = none
  climb (suc fuel) d parts current = elim (only_valid (Tree.name T d current)) [
    | none ↦ some none
    | some s ↦ elim (T.parent d current) [
      | none ↦ some none
      | some above ↦ elim above [
        | node p ↦ climb fuel d (s ∷ parts) p
        | root ↦ some (some (s ∷ parts))
        | deleted ↦ some none
        | unexist ↦ some none
      ]
    ]
  ]

  unfoldable pub path_of : ℕ → LoroDoc → NodeId → Option (Option Str)
  unfolding climb join
  path_of fuel d n = elim (climb fuel d [] n) [
    | none ↦ none
    | some found ↦ some (elim found [ none ↦ none | some parts ↦ some (join parts) ])
  ]

  pub data Listing : Type 0 where
    listing : List Entry → Listing
    leaf : Listing

  abbrev ls_leaf : LoroDoc → Str → Result FsError (List Entry) → Result FsError Listing
  ls_leaf d path (ok entries) = ok (listing entries)
  ls_leaf d path (err not_a_directory) = stat d path >>= λ _. ok leaf
  ls_leaf d path (err e) = err e

  -- `ls` of crates/eg
  unfoldable pub ls : LoroDoc → Str → Result FsError Listing
  unfolding readdir stat
  ls d path = ls_leaf d path (readdir d path)

  -- `cat` of crates/eg
  unfoldable pub cat : LoroDoc → List Str → List (Result FsError Str)
  unfolding read
  cat d paths = map (read d) paths
