-- ===== src/Watch.antt =====
-- crates/eg/src/watch.rs: the bases of the files that were exported, and the removal of files and
-- directories that a delete or rename of a peer left behind. Nothing else writes to the workspace
-- while a pass is under way.
pub mod Prune
pub mod Ingest
use okayeg.Prelude.{
  ℕ, ◌+◌, Bool, true, false, not, Option, none, some, List, [], ◌∷◌, Str, Bytes, Result, ok, err,
  ◌==◌, str_beq, leb, length, map, keep, contains, is_empty, if◌then◌else◌,
}
use okayeg.Prelude.Assoc.{Assoc, lookup, insert, erase}
use okayeg.Utf8.{as_bytes}
use okayeg.TreeDoc.{TreeDoc}
use okayeg.Tree
use okayeg.Trust.File.{IoError}
use okayeg.Workspace.{RelPath, RelPath_eq, Workspace, Kind, file, dir, Entry}

-- The paths of a map, in its order.
abbrev pub keys_of : {V : Type 0} → Assoc RelPath V → List RelPath
keys_of [] = []
keys_of ((p, v) ∷ m) = p ∷ keys_of m

-- `HashSet::insert` and `HashSet::remove` on a list
abbrev pub add_path : RelPath → List RelPath → List RelPath
add_path p paths = if contains paths p then paths else p ∷ paths

unfoldable pub drop_path : RelPath → List RelPath → List RelPath
unfolding keep
drop_path p paths = keep (λ q. not (q == p)) paths

-- The deepest first; a stable sort.
abbrev pub by_depth : RelPath → List RelPath → List RelPath
by_depth p [] = p ∷ []
by_depth p (q ∷ paths) =
    let rest = by_depth p paths in if leb (length q) (length p) then p ∷ q ∷ paths else q ∷ rest

abbrev pub deepest_first : List RelPath → List RelPath
deepest_first [] = []
deepest_first (p ∷ paths) = by_depth p (deepest_first paths)

abbrev pub is_ok_and : {A : Type 0} → Result IoError A → (A → Bool) → Bool
is_ok_and (ok a) test = test a
is_ok_and (err _) test = false

module _ (T : TreeDoc) (W : Workspace) where
  pub record ExportedBase : Type 0 where
    pub frontier : T.Frontiers
    pub node : T.NodeId

  -- The two maps, beside the files of the workspace.
  pub record Tracked : Type 0 where
    pub files : W.Files
    pub bases : Assoc RelPath ExportedBase
    pub dirs : List RelPath

  pub record ExportPlan : Type 0 where
    pub plan_files : List (RelPath × T.NodeId)
    pub plan_dirs : List (RelPath × T.NodeId)

  abbrev pub is_text : Option Str → Bytes → Bool
  is_text none disk = false
  is_text (some text) disk = str_beq disk (as_bytes text)

  unfoldable pub is_echo_of : T.LoroDoc → T.NodeId → T.Frontiers → Bytes → Bool
  unfolding Tree.content_at as_bytes
  is_echo_of d node frontier disk = is_text (Tree.content_at T d node frontier) disk

  abbrev pub echoes : T.LoroDoc → ExportedBase → Bytes → Bool
  echoes d base disk = is_echo_of d base.node base.frontier disk

  abbrev pub forget_file : Tracked → RelPath → W.Files × Bool → Tracked
  forget_file t rel (files, true) = record t { files = files; bases = erase rel t.bases }
  forget_file t rel (files, false) = record t { files = files }

  -- The second read, right before the removal.
  abbrev pub unlink_echo : T.LoroDoc → Tracked → RelPath → ExportedBase → Tracked
  unlink_echo d t rel base =
      if is_ok_and (W.read_file t.files rel) (echoes d base)
      then forget_file t rel (W.remove_file t.files rel)
      else t

  abbrev pub prune_read :
      T.LoroDoc → Tracked → RelPath → ExportedBase → Result IoError Bytes → Tracked
  prune_read d t rel base (err _) = record t { bases = erase rel t.bases }
  prune_read d t rel base (ok disk) =
      if not (echoes d base disk) then t else unlink_echo d t rel base

  abbrev pub prune_known : T.LoroDoc → Tracked → RelPath → Option ExportedBase → Tracked
  prune_known d t rel none = t
  prune_known d t rel (some base) = prune_read d t rel base (W.read_file t.files rel)

  unfoldable pub prune_file : T.LoroDoc → Tracked → RelPath → Tracked
  unfolding is_echo_of
  prune_file d t rel = prune_known d t rel (lookup rel t.bases)

  abbrev pub forget_dir : Tracked → RelPath → W.Files × Bool → Tracked
  forget_dir t rel (files, true) = record t { files = files; dirs = drop_path rel t.dirs }
  forget_dir t rel (files, false) = record t { files = files }

  abbrev pub prune_kind : Tracked → RelPath → Result IoError (Option Kind) → Tracked
  prune_kind t rel (ok none) = record t { dirs = drop_path rel t.dirs }
  prune_kind t rel (ok (some dir)) =
      if is_ok_and (W.read_dir t.files rel) is_empty
      then forget_dir t rel (W.remove_dir t.files rel)
      else t
  prune_kind t rel (ok (some file)) = t
  prune_kind t rel (err _) = t

  unfoldable pub prune_dir : Tracked → RelPath → Tracked
  unfolding drop_path
  prune_dir t rel = prune_kind t rel (W.kind t.files rel)

  abbrev pub prune_files : T.LoroDoc → Tracked → List RelPath → Tracked
  prune_files d t [] = t
  prune_files d t (p ∷ paths) = prune_files d (prune_file d t p) paths

  abbrev pub prune_dirs : Tracked → List RelPath → Tracked
  prune_dirs t [] = t
  prune_dirs t (p ∷ paths) = prune_dirs (prune_dir t p) paths

  abbrev pub unwritten : List RelPath → List RelPath → List RelPath
  unwritten paths written = keep (λ p. not (contains written p)) paths

  -- The directories are collected after the files are gone; the files change no directory entry.
  unfoldable pub prune : T.LoroDoc → Tracked → List RelPath → List RelPath → Tracked
  unfolding prune_file prune_dir keep contains
  prune d t written_files written_dirs =
      let t1 = prune_files d t (unwritten (keys_of t.bases) written_files) in
      prune_dirs t1 (deepest_first (unwritten t1.dirs written_dirs))

  abbrev pub advance_files :
      T.Frontiers → Tracked → List RelPath → List (RelPath × T.NodeId) → Tracked × List RelPath
  advance_files now t written [] = (t, written)
  advance_files now t written ((p, n) ∷ plan) =
      advance_files now
        (record t { bases = insert p (record { frontier = now; node = n }) t.bases })
        (add_path p written) plan

  abbrev pub advance_dirs :
      Tracked → List RelPath → List (RelPath × T.NodeId) → Tracked × List RelPath
  advance_dirs t written [] = (t, written)
  advance_dirs t written ((p, n) ∷ plan) =
      advance_dirs (record t { dirs = add_path p t.dirs }) (add_path p written) plan

  -- The number of files written, and what is tracked then.
  unfoldable pub advance_and_prune : T.LoroDoc → Tracked → ExportPlan → ℕ × Tracked
  unfolding prune contains
  advance_and_prune d t plan =
      let (t1, written_files) = advance_files (T.state_frontiers d) t [] plan.plan_files in
      let (t2, written_dirs) = advance_dirs t1 [] plan.plan_dirs in
      (length written_files, prune d t2 written_files written_dirs)
