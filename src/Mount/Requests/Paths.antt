-- ===== src/Mount/Requests/Paths.antt =====
-- crates/eg/src/mount.rs: the kernel's requests that name a child of a directory. `fuel` bounds the
-- climb of a directory's path to the root, and `wall` is the time of the wall clock.
use okayeg.Prelude.{
  ℕ, Bool, true, false, ◌&&◌, Option, none, some, Str, Bytes, Result, ok, err, if◌then◌else◌,
}
use okayeg.TreeDoc.{TreeDoc}
use okayeg.Fs.Path.{FsError}
use okayeg.Fs.View.{resolve}
use okayeg.Fs.Edit
use okayeg.Mount.Writeback
use okayeg.Mount.Writeback.{Errno, einval, enoent, eexist, eacces}
use okayeg.Mount.View.{DocMount, doc_of, errno, attr_of, child_path}
use okayeg.Mount.Requests.{
  Reply, created, done, error, attr_reply, Outcome, with_writeback, with_doc, denied, committed,
  ino_of, entry_of,
}

abbrev pub is_found : {A : Type 0} → Result FsError A → Bool
is_found (ok _) = true
is_found (err _) = false

-- `RenameFlags`, as far as they are read.
pub record RenameFlags : Type 0 where
  pub exchange : Bool
  pub no_replace : Bool

module _ (T : TreeDoc) where
  open T use {NodeId}

  -- The end of a handler, after its edit by path: what it does when the edit succeeded.
  abbrev pub answered :
      {A : Type 0}
      → (A → DocMount T → Reply × DocMount T)
      → DocMount T
      → Edit.Outcome T A
      → Outcome T
  answered success m none = none
  answered success m (some (err e, d)) = some (error (errno e), with_doc T m d)
  answered success m (some (ok a, d)) = some (success a (with_doc T m d))

  -- The path of the named child, or the error for a name that has none.
  abbrev pub at_path : DocMount T → Errno → (Str → Outcome T) → Option (Option Str) → Outcome T
  at_path m e go none = none
  at_path m e go (some none) = some (error e, m)
  at_path m e go (some (some path)) = go path

  abbrev pub created_of : ℕ → NodeId → DocMount T → Reply × DocMount T
  created_of wall node m =
      let (number, m1) = ino_of T (committed T m wall) node in
      (attr_reply created (attr_of T m1 number), m1)

  unfoldable pub create : ℕ → DocMount T → ℕ → ℕ → Bytes → Outcome T
  unfolding denied child_path Edit.create_file committed attr_of
  create fuel m wall parent name =
      if denied T m
      then some (error eacces, m)
      else at_path m einval
          (λ path. answered (created_of wall) m (Edit.create_file T (doc_of T m) path))
          (child_path T fuel m parent name)

  unfoldable pub mkdir : ℕ → DocMount T → ℕ → ℕ → Bytes → Outcome T
  unfolding denied child_path Edit.create_dir committed entry_of
  mkdir fuel m wall parent name =
      if denied T m
      then some (error eacces, m)
      else at_path m einval
          (λ path.
            answered (λ node m1. entry_of T (committed T m1 wall) node) m
              (Edit.create_dir T (doc_of T m) path))
          (child_path T fuel m parent name)

  -- The removed file's unwritten changes go with it.
  abbrev pub discarded : Result FsError NodeId → DocMount T → DocMount T
  discarded (err _) m = m
  discarded (ok node) m = with_writeback T m (Writeback.discard T m.writeback node)

  unfoldable pub unlink : ℕ → DocMount T → ℕ → ℕ → Bytes → Outcome T
  unfolding denied child_path resolve Edit.remove_file committed
  unlink fuel m wall parent name =
      if denied T m
      then some (error eacces, m)
      else at_path m enoent
          (λ path.
            let found = resolve T (doc_of T m) path in
            answered (λ _ m1. (done, committed T (discarded found m1) wall)) m
              (Edit.remove_file T (doc_of T m) path))
          (child_path T fuel m parent name)

  unfoldable pub rmdir : ℕ → DocMount T → ℕ → ℕ → Bytes → Outcome T
  unfolding denied child_path Edit.remove_dir committed
  rmdir fuel m wall parent name =
      if denied T m
      then some (error eacces, m)
      else at_path m enoent
          (λ path.
            answered (λ _ m1. (done, committed T m1 wall)) m (Edit.remove_dir T (doc_of T m) path))
          (child_path T fuel m parent name)

  abbrev pub rename_at : DocMount T → ℕ → RenameFlags → Str → Str → Outcome T
  rename_at m wall flags from to =
      if flags.no_replace && is_found (resolve T (doc_of T m) to)
      then some (error eexist, m)
      else answered (λ _ m1. (done, committed T m1 wall)) m (Edit.rename T (doc_of T m) from to)

  unfoldable pub rename : ℕ → DocMount T → ℕ → ℕ → Bytes → ℕ → Bytes → RenameFlags → Outcome T
  unfolding denied child_path resolve Edit.rename committed
  rename fuel m wall parent name newparent newname flags =
      if denied T m
      then some (error eacces, m)
      else if flags.exchange
      then some (error einval, m)
      else at_path m enoent
          (λ from.
            at_path m enoent (rename_at m wall flags from) (child_path T fuel m newparent newname))
          (child_path T fuel m parent name)
