-- ===== src/Watch/Ingest.antt =====
-- crates/eg/src/watch.rs: the paths that changed on disk, taken into the document. A path is its
-- normal components, so `components` is the path itself.
pub mod Echo
use okayeg.Prelude.{
  Bool, true, false, not, Option, none, some, List, [], ◌∷◌, Str, Bytes, Result, ok, err, ◌==◌,
  Str_eq, find, is_some, if◌then◌else◌,
}
use okayeg.Prelude.Options.{and_then}
use okayeg.Prelude.Assoc.{Assoc, lookup, insert, erase}
use okayeg.Utf8.{as_bytes, from_utf8}
use okayeg.TreeDoc.{TreeDoc}
use okayeg.Tree
use okayeg.Fs.View.{has_name}
use okayeg.Fs.Edit.{split_last}
use okayeg.Trust.File.{IoError}
use okayeg.Workspace.{RelPath, RelPath_eq, Workspace, Kind, file, dir}
use okayeg.Watch.{ExportedBase, echoes, is_echo_of}

module _ (T : TreeDoc) (W : Workspace) where
  open T use {LoroDoc, NodeId}

  abbrev pub candidates : LoroDoc → Option NodeId → List NodeId
  candidates d none = T.roots d
  candidates d (some p) = Tree.children T d p

  unfoldable pub child_named : LoroDoc → Option NodeId → Str → Option NodeId
  unfolding find Tree.name Tree.children
  child_named d parent name = find (λ n. has_name (Tree.name T d n) name) (candidates d parent)

  -- The node of a path under a parent, if every component exists.
  unfoldable pub node_from : LoroDoc → Option NodeId → RelPath → Option NodeId
  unfolding child_named
  node_from d parent [] = parent
  node_from d parent (comp ∷ comps) = elim (child_named d parent comp) [
    | none ↦ none
    | some n ↦ node_from d (some n) comps
  ]

  unfoldable pub node_at : LoroDoc → RelPath → Option NodeId
  unfolding node_from
  node_at d rel = node_from d none rel

  -- The child, created if it is not there; `none` is a panic.
  abbrev pub dir_or_new : LoroDoc → Option NodeId → Str → Option NodeId → Option (NodeId × LoroDoc)
  dir_or_new d parent comp none = Tree.create_dir T d parent comp
  dir_or_new d parent comp (some n) = some (n, d)

  unfoldable pub ensure_from : LoroDoc → Option NodeId → RelPath → Option (Option NodeId × LoroDoc)
  unfolding child_named Tree.create_dir
  ensure_from d parent [] = some (parent, d)
  ensure_from d parent (comp ∷ comps) =
      elim (dir_or_new d parent comp (child_named d parent comp)) [
        | none ↦ none
        | some (n, d1) ↦ ensure_from d1 (some n) comps
      ]

  unfoldable pub ensure_dir : LoroDoc → RelPath → Option (Option NodeId × LoroDoc)
  unfolding ensure_from
  ensure_dir d rel = ensure_from d none rel

  -- The parent's path and the name of the file.
  abbrev pub parent_and_name : RelPath → RelPath × Str
  parent_and_name rel = elim (split_last rel) [
    | none ↦ ([], [])
    | some (name, parents) ↦ (parents, name)
  ]

  abbrev pub is_echo : LoroDoc → Option (ExportedBase T W) → Bytes → Bool
  is_echo d none disk = false
  is_echo d (some base) disk = echoes T W d base disk

  abbrev pub same_text : Option Str → Str → Bool
  same_text none text = false
  same_text (some s) text = s == text

  -- The live two-way merge, where there is no base or the merge at the base did not apply.
  abbrev pub or_live : NodeId → Str → LoroDoc × Bool → LoroDoc
  or_live node text (d, true) = d
  or_live node text (d, false) = (Tree.set_content T d node text).0

  abbrev pub merge_at : LoroDoc → NodeId → Str → Option (ExportedBase T W) → LoroDoc
  merge_at d node text none = (Tree.set_content T d node text).0
  merge_at d node text (some base) =
      or_live node text (Tree.set_content_at T d node text base.frontier)

  abbrev pub merge_text : LoroDoc → NodeId → Str → Option (ExportedBase T W) → LoroDoc
  merge_text d node text base =
      if same_text (Tree.content T d node) text then d else merge_at d node text base

  abbrev pub merge_new :
      Str → Option (ExportedBase T W) → Option (NodeId × LoroDoc) → Option LoroDoc
  merge_new text base none = none
  merge_new text base (some (node, d)) = some (merge_text d node text base)

  abbrev pub merge_found :
      LoroDoc
      → Option NodeId
      → Str
      → Str
      → Option (ExportedBase T W)
      → Option NodeId
      → Option LoroDoc
  merge_found d parent name text base (some node) = some (merge_text d node text base)
  merge_found d parent name text base none =
      if is_echo d base (as_bytes text)
      then some d
      else merge_new text base (Tree.create_file T d parent name)

  -- The file's text, under the directories of its path.
  abbrev pub ingest_text : LoroDoc → RelPath → Str → Option (ExportedBase T W) → Option LoroDoc
  ingest_text d rel text base =
      let (parents, name) = parent_and_name rel in
      elim (ensure_dir d parents) [
        | none ↦ none
        | some (parent, d1) ↦ merge_found d1 parent name text base (child_named d1 parent name)
      ]

  -- What is no text is skipped.
  abbrev pub ingest_bytes :
      LoroDoc → RelPath → Option (ExportedBase T W) → Option Str → Option LoroDoc
  ingest_bytes d rel base none = some d
  ingest_bytes d rel base (some text) = ingest_text d rel text base

  abbrev pub done : Option LoroDoc → Option (Result IoError LoroDoc)
  done none = none
  done (some d) = some (ok d)

  abbrev pub ingest_read :
      LoroDoc
      → RelPath
      → Option (ExportedBase T W)
      → Result IoError Bytes
      → Option (Result IoError LoroDoc)
  ingest_read d rel base (err e) = some (err e)
  ingest_read d rel base (ok bytes) = done (ingest_bytes d rel base (from_utf8 bytes))

  abbrev pub delete_at : LoroDoc → Option NodeId → Option LoroDoc
  delete_at d none = some d
  delete_at d (some n) = Tree.delete T d n

  abbrev pub ingest_kind :
      W.Files
      → LoroDoc
      → RelPath
      → Option (ExportedBase T W)
      → Result IoError (Option Kind)
      → Option (Result IoError LoroDoc)
  ingest_kind w d rel base (err e) = some (err e)
  ingest_kind w d rel base (ok (some dir)) = done (and_then (ensure_dir d rel) (λ r. some r.1))
  ingest_kind w d rel base (ok (some file)) = ingest_read d rel base (W.read_file w rel)
  ingest_kind w d rel base (ok none) = done (delete_at d (node_at d rel))

  -- `none` is a panic. An error comes before any change.
  unfoldable pub apply_path :
      W.Files
      → LoroDoc
      → RelPath
      → Assoc RelPath (ExportedBase T W)
      → Option (Result IoError LoroDoc)
  unfolding ensure_dir node_at child_named from_utf8 is_echo_of Tree.set_content Tree.set_content_at
      Tree.create_file Tree.delete split_last
  apply_path w d rel bases = ingest_kind w d rel (lookup rel bases) (W.kind w rel)

  -- The loops of `apply_batch`; the document and the bases as they are where it stops.
  abbrev pub Batch : Type 0
  Batch = Option (Result IoError (Unit {0}) × LoroDoc × Assoc RelPath (ExportedBase T W))

  abbrev pub apply_next :
      (LoroDoc → Batch)
      → LoroDoc
      → Assoc RelPath (ExportedBase T W)
      → Option (Result IoError LoroDoc)
      → Batch
  apply_next go d bases none = none
  apply_next go d bases (some (err e)) = some (err e, d, bases)
  apply_next go d bases (some (ok d1)) = go d1

  unfoldable pub apply_paths :
      W.Files → Assoc RelPath (ExportedBase T W) → List RelPath → LoroDoc → Batch
  unfolding apply_path
  apply_paths w bases [] d = some (ok tt, d, bases)
  apply_paths w bases (rel ∷ paths) d =
      apply_next (apply_paths w bases paths) d bases (apply_path w d rel bases)

  abbrev pub base_at :
      T.Frontiers
      → RelPath
      → Option NodeId
      → Assoc RelPath (ExportedBase T W)
      → Assoc RelPath (ExportedBase T W)
  base_at now rel none bases = bases
  base_at now rel (some n) bases = insert rel (record { frontier = now; node = n }) bases

  abbrev pub rebase_kind :
      T.Frontiers
      → LoroDoc
      → RelPath
      → Option Kind
      → Assoc RelPath (ExportedBase T W)
      → Assoc RelPath (ExportedBase T W)
  rebase_kind now d rel (some file) bases = base_at now rel (node_at d rel) bases
  rebase_kind now d rel (some dir) bases = erase rel bases
  rebase_kind now d rel none bases = erase rel bases

  unfoldable pub advance_bases :
      W.Files
      → LoroDoc
      → T.Frontiers
      → List RelPath
      → Assoc RelPath (ExportedBase T W)
      → Result IoError (Unit {0}) × Assoc RelPath (ExportedBase T W)
  unfolding node_at
  advance_bases w d now [] bases = (ok tt, bases)
  advance_bases w d now (rel ∷ paths) bases = elim (W.kind w rel) [
    | err e ↦ (err e, bases)
    | ok kind ↦ advance_bases w d now paths (rebase_kind now d rel kind bases)
  ]

  abbrev pub moved : T.Version → LoroDoc → Result IoError (Unit {0}) → Result IoError Bool
  moved before d (err e) = err e
  moved before d (ok _) = ok (not (T.version_eq.eq (T.state_vv d) before))

  abbrev pub commit_batch :
      W.Files
      → T.Version
      → List RelPath
      → Batch
      → Option (Result IoError Bool × LoroDoc × Assoc RelPath (ExportedBase T W))
  commit_batch w before paths none = none
  commit_batch w before paths (some (err e, d, bases)) = some (err e, d, bases)
  commit_batch w before paths (some (ok _, d, bases)) =
      let d1 = T.commit_doc d in
      let (r, bases1) = advance_bases w d1 (T.state_frontiers d1) paths bases in
      some (moved before d1 r, d1, bases1)

  unfoldable pub apply_batch :
      W.Files
      → LoroDoc
      → List RelPath
      → Assoc RelPath (ExportedBase T W)
      → Option (Result IoError Bool × LoroDoc × Assoc RelPath (ExportedBase T W))
  unfolding apply_paths advance_bases
  apply_batch w d paths bases = commit_batch w (T.state_vv d) paths (apply_paths w bases paths d)
