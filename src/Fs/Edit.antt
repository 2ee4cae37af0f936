-- ===== src/Fs/Edit.antt =====
-- crates/okayeg/src/fs.rs: changes of the tree by path.
pub mod Creation
pub mod Failure
pub mod Keeps
use okayeg.Prelude.{
  Bool, true, false, not, ◌&&◌, Option, none, some, List, [], ◌∷◌, Str, is_empty, is_some, Result,
  ok, err, if◌then◌else◌,
}
use okayeg.TreeDoc.{TreeDoc}
use okayeg.Tree
use okayeg.Prelude.Options.{◌>>=◌}
use okayeg.Tree.{NodeKind, is_dir}
use okayeg.Fs.Path.{
  FsError, invalid_path, not_found, not_a_directory, not_a_file, already_exists, not_empty,
  invalid_move, components,
}
use okayeg.Fs.View
use okayeg.Fs.View.{child_named, resolve}

-- `split_last`: the last item, and those before it.
unfoldable pub split_last {ℓ} : {A : Type ℓ} → List A → Option (A × List A)
split_last [] = none
split_last (x ∷ xs) = elim (split_last xs) [ none ↦ some (x, []) | some (l, r) ↦ some (l, x ∷ r) ]

module _ (T : TreeDoc) where
  open T use {LoroDoc, NodeId}

  -- `none` is a panic.
  abbrev pub Outcome : Type 0 → Type 0
  Outcome A = Option (Result FsError A × LoroDoc)

  -- The loop of `split_parent`, which wants a directory at each step.
  unfoldable pub descend : LoroDoc → Option NodeId → List Str → Result FsError (Option NodeId)
  unfolding Tree.kind
  descend d parent [] = ok parent
  descend d parent (comp ∷ comps) = elim (child_named T d parent comp) [
    | none ↦ err not_found
    | some n ↦
        let rest = descend d (some n) comps in
        if is_dir (Tree.kind T d n) then rest else err not_a_directory
  ]

  abbrev split_comps : LoroDoc → Option (Str × List Str) → Result FsError (Option NodeId × Str)
  split_comps d none = err invalid_path
  split_comps d (some (name, parents)) = elim (descend d none parents) [
    | err e ↦ err e
    | ok parent ↦ ok (parent, name)
  ]

  unfoldable pub split_parent : LoroDoc → Str → Result FsError (Option NodeId × Str)
  unfolding components split_last descend
  split_parent d path = elim (components path) [
    | err e ↦ err e
    | ok comps ↦ split_comps d (split_last comps)
  ]

  abbrev created : Option (NodeId × LoroDoc) → Outcome NodeId
  created none = none
  created (some (n, d)) = some (ok n, d)

  -- What `create_file` and `create_dir` share: `make` is the tree's operation.
  abbrev create_at :
      (LoroDoc → Option NodeId → Str → Option (NodeId × LoroDoc))
      → LoroDoc
      → Result FsError (Option NodeId × Str)
      → Outcome NodeId
  create_at make d (err e) = some (err e, d)
  create_at make d (ok (parent, name)) =
      if is_some (child_named T d parent name)
      then some (err already_exists, d)
      else created (make d parent name)

  unfoldable pub create_file : LoroDoc → Str → Outcome NodeId
  unfolding split_parent child_named Tree.create_file
  create_file d path = create_at (Tree.create_file T) d (split_parent d path)

  unfoldable pub create_dir : LoroDoc → Str → Outcome NodeId
  unfolding split_parent child_named Tree.create_dir
  create_dir d path = create_at (Tree.create_dir T) d (split_parent d path)

  abbrev removed : Option LoroDoc → Outcome (Unit {0})
  removed none = none
  removed (some d) = some (ok tt, d)

  unfoldable pub remove_file : LoroDoc → Str → Outcome (Unit {0})
  unfolding resolve Tree.kind Tree.delete
  remove_file d path = elim (resolve T d path) [
    | err e ↦ some (err e, d)
    | ok n ↦
        if is_dir (Tree.kind T d n) then some (err not_a_file, d) else removed (Tree.delete T d n)
  ]

  unfoldable pub remove_dir : LoroDoc → Str → Outcome (Unit {0})
  unfolding resolve Tree.kind Tree.children Tree.delete
  remove_dir d path = elim (resolve T d path) [
    | err e ↦ some (err e, d)
    | ok n ↦
        if not (is_dir (Tree.kind T d n))
        then some (err not_a_directory, d)
        else if not (is_empty (Tree.children T d n))
        then some (err not_empty, d)
        else removed (Tree.delete T d n)
  ]

  -- Why `rename` does not replace `dest`, if it does not.
  unfoldable pub refusal : LoroDoc → NodeId → NodeId → Option FsError
  unfolding Tree.kind Tree.children
  refusal d n dest =
      let node_is_dir = is_dir (Tree.kind T d n) in
      if is_dir (Tree.kind T d dest)
      then if not node_is_dir
        then some not_a_directory
        else if not (is_empty (Tree.children T d dest))
        then some not_empty
        else none
      else if node_is_dir
      then some not_a_file
      else none

  -- The other node that has the new name, if any.
  unfoldable pub displaced : LoroDoc → NodeId → Option NodeId → Str → Option NodeId
  unfolding child_named
  displaced d n parent name = elim (child_named T d parent name) [
    | none ↦ none
    | some dest ↦ if T.node_eq.eq dest n then none else some dest
  ]

  abbrev checked : LoroDoc → NodeId → Option NodeId → Option FsError
  checked d n none = none
  checked d n (some dest) = refusal d n dest

  abbrev delete_displaced : LoroDoc → Option NodeId → Option LoroDoc
  delete_displaced d none = some d
  delete_displaced d (some dest) = Tree.delete T d dest

  -- The move comes first: Loro refuses one into the node's own subtree.
  abbrev relocate :
      LoroDoc → NodeId → Option NodeId → Str → Option NodeId → Option LoroDoc → Outcome (Unit {0})
  relocate d n parent name over none = some (err invalid_move, d)
  relocate d n parent name over (some d1) =
      removed (delete_displaced d1 over >>= λ d2. Tree.rename T d2 n name)

  abbrev rename_to : LoroDoc → NodeId → Result FsError (Option NodeId × Str) → Outcome (Unit {0})
  rename_to d n (err e) = some (err e, d)
  rename_to d n (ok (parent, name)) =
      let over = displaced d n parent name in
      elim (checked d n over) [
        | some e ↦ some (err e, d)
        | none ↦ relocate d n parent name over (T.mov d n parent)
      ]

  unfoldable pub rename : LoroDoc → Str → Str → Outcome (Unit {0})
  unfolding resolve split_parent displaced refusal Tree.delete Tree.rename
  rename d from to = elim (resolve T d from) [
    | err e ↦ some (err e, d)
    | ok n ↦ rename_to d n (split_parent d to)
  ]
