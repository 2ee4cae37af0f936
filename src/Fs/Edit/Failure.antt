-- ===== src/Fs/Edit/Failure.antt =====
-- crates/okayeg/src/fs.rs: when an operation on the tree fails, and what it leaves.
use okayeg.Prelude.{◌≡◌, none, some, Str, ok, err, arith}
use okayeg.TreeDoc.{TreeDoc}
use okayeg.Fs.Path.{FsError}
use okayeg.Fs.Edit.{Outcome, create_file, create_dir, remove_file, remove_dir, rename}

module _ (T : TreeDoc) where
  -- The calls that change the tree by path.
  pub data Edit : Type 0 where
    new_file new_dir del_file del_dir : Str → Edit
    renaming : Str → Str → Edit

  abbrev forget : {A : Type 0} → Outcome T A → Outcome T (Unit {0})
  forget none = none
  forget (some (ok _, d)) = some (ok tt, d)
  forget (some (err e, d)) = some (err e, d)

  unfoldable pub perform : T.LoroDoc → Edit → Outcome T (Unit {0})
  perform d (new_file path) = forget (create_file T d path)
  perform d (new_dir path) = forget (create_dir T d path)
  perform d (del_file path) = remove_file T d path
  perform d (del_dir path) = remove_dir T d path
  perform d (renaming from to) = rename T d from to

  -- An edit by path that returns an error has not changed the document.
  pub failed_edit_changes_nothing :
      (d : T.LoroDoc) (edit : Edit) (e : FsError) (d' : T.LoroDoc)
      → perform d edit ≡ some (err e, d')
      → d' ≡ d
  unfolding perform
  failed_edit_changes_nothing d (new_file path) e d' h = unfold create_file in ground arith
  failed_edit_changes_nothing d (new_dir path) e d' h = unfold create_dir in ground arith
  failed_edit_changes_nothing d (del_file path) e d' h = unfold remove_file in ground arith
  failed_edit_changes_nothing d (del_dir path) e d' h = unfold remove_dir in ground arith
  failed_edit_changes_nothing d (renaming from to) e d' h = unfold rename in ground arith
