-- ===== src/Watch/Prune.antt =====
-- crates/eg/src/watch.rs: what a pass takes away from the disk.
use okayeg.Prelude.{
  ◌≡◌, ◌≢◌, refl, sym, ap, ◌∙◌, subst, Bool, true, false, Option, none, some, List, [], ◌∷◌, Str,
  Bytes, Result, ok, err, ◌==◌, beq_refl, str_beq_iff, Bool-cases, Option-cases, inl, inr, arith,
  if◌then◌else◌,
}
use okayeg.Prelude.Assoc.{lookup, erase, lookup-erase}
use okayeg.Utf8.{as_bytes}
use okayeg.TreeDoc.{TreeDoc}
use okayeg.Tree
use okayeg.Trust.File.{IoError}
use okayeg.Workspace.{RelPath, RelPath_eq, path_beq_iff, Workspace, RemovesOne, Kind, file, dir}
use okayeg.Watch.{
  ExportedBase, Tracked, is_text, is_echo_of, echoes, forget_file, prune_read, prune_known,
  forget_dir, prune_kind, prune_file, prune_dir, prune_files, prune_dirs, unwritten, deepest_first,
  keys_of, prune,
}

module _ (T : TreeDoc) (W : Workspace) (d : T.LoroDoc) (p : RelPath) (edited : Bytes) where
  -- The file is on disk with these bytes, which are not those of the text that it had at its base, if
  -- it has one.
  pub record IsEdited (t : Tracked T W) : Type 0 where
    pub on_disk : W.read_file t.files p ≡ ok edited
    pub no_echo :
        (base : ExportedBase T W) (text : Str)
        → lookup p t.bases ≡ some base
        → Tree.content_at T d base.node base.frontier ≡ some text
        → edited ≢ as_bytes text

module _ (T : TreeDoc) (W : Workspace) (laws : RemovesOne W) (d : T.LoroDoc) (p : RelPath)
    (edited : Bytes) where
  abbrev State : Type 0
  State = Tracked T W

  abbrev Edited : State → Type 0
  Edited = IsEdited T W d p edited

  not_echo :
      (t : State) (base : ExportedBase T W)
      → Edited t
      → lookup p t.bases ≡ some base
      → echoes T W d base edited ≡ false
  unfolding is_echo_of
  not_echo t base e h = elim (Option-cases (Tree.content_at T d base.node base.frontier)) [
    | inl gone ↦ ap (λ (o : Option Str). is_text T W o edited) gone
    | inr (text, there) ↦
        let differ = e.no_echo base text h there in
        ap (λ (o : Option Str). is_text T W o edited) there
        ∙ ground (arith, differ, str_beq_iff edited (as_bytes text))
  ]

  same_file :
      (t : State)
      → Edited t
      → (o : Option (ExportedBase T W)) → lookup p t.bases ≡ o
      → prune_known T W d t p o ≡ t
  same_file t e none h = refl
  same_file t e (some base) h = ground (arith, h, e.on_disk, not_echo t base e h)

  erased :
      (t : State) (q : RelPath) (base : ExportedBase T W)
      → (p == q) ≡ false
      → lookup p (erase q t.bases) ≡ some base
      → lookup p t.bases ≡ some base
  erased t q base ne h = ground (arith, ne, h, lookup-erase p q t.bases)

  forget-IsEdited :
      (t : State) (q : RelPath) (r : W.Files × Bool)
      → (p == q) ≡ false
      → W.read_file r.0 p ≡ W.read_file t.files p
      → Edited t
      → Edited (forget_file T W t q r)
  forget-IsEdited t q (w, true) ne same e = record {
    on_disk = same ∙ e.on_disk;
    no_echo = λ base text h. e.no_echo base text (erased t q base ne h);
  }
  forget-IsEdited t q (w, false) ne same e = record {
    on_disk = same ∙ e.on_disk;
    no_echo = λ base text h. e.no_echo base text h;
  }

  if-IsEdited : (b : Bool) (t u : State) → Edited t → Edited u → Edited (if b then t else u)
  if-IsEdited true t u k l = k
  if-IsEdited false t u k l = l

  module _ (t : State) (q : RelPath) (ne : (p == q) ≡ false) (e : Edited t) where
    differ : p ≢ q
    differ = ground (arith, ne, beq_refl p)

    read-IsEdited :
        (base : ExportedBase T W) (r : Result IoError Bytes) → Edited (prune_read T W d t q base r)
    read-IsEdited base (err bad) = record {
      on_disk = e.on_disk;
      no_echo = λ b text h. e.no_echo b text (erased t q b ne h);
    }
    read-IsEdited base (ok disk) = if-IsEdited _ t _ e (
        if-IsEdited _ _ t
          (forget-IsEdited t q (W.remove_file t.files q) ne
            (laws.remove_file_lem t.files p q differ) e)
          e)

    known-IsEdited : (o : Option (ExportedBase T W)) → Edited (prune_known T W d t q o)
    known-IsEdited none = e
    known-IsEdited (some base) = read-IsEdited base (W.read_file t.files q)

  prune_file-IsEdited : (t : State) (q : RelPath) → Edited t → Edited (prune_file T W d t q)
  unfolding prune_file
  prune_file-IsEdited t q e = elim (Bool-cases (p == q)) [
    | inl here ↦
        let same : p ≡ q = (path_beq_iff p q).0 here in
        let at : prune_known T W d t q (lookup q t.bases) ≡ t =
          ap (λ (x : RelPath). prune_known T W d t x (lookup x t.bases)) (sym same)
          ∙ same_file t e (lookup p t.bases) refl in
        subst Edited (sym at) e
    | inr away ↦ known-IsEdited t q away e (lookup q t.bases)
  ]

  prune_files-IsEdited :
      (paths : List RelPath) (t : State) → Edited t → Edited (prune_files T W d t paths)
  prune_files-IsEdited [] t e = e
  prune_files-IsEdited (q ∷ paths) t e =
      prune_files-IsEdited paths (prune_file T W d t q) (prune_file-IsEdited t q e)

  forget_dir-IsEdited :
      (t : State) (q : RelPath) (r : W.Files × Bool)
      → W.read_file r.0 p ≡ W.read_file t.files p
      → Edited t
      → Edited (forget_dir T W t q r)
  forget_dir-IsEdited t q (w, true) same e = record {
    on_disk = same ∙ e.on_disk;
    no_echo = λ base text h. e.no_echo base text h;
  }
  forget_dir-IsEdited t q (w, false) same e = record {
    on_disk = same ∙ e.on_disk;
    no_echo = λ base text h. e.no_echo base text h;
  }

  kind-IsEdited :
      (t : State) (q : RelPath) (r : Result IoError (Option Kind))
      → Edited t
      → Edited (prune_kind T W t q r)
  kind-IsEdited t q (ok none) e = record {
    on_disk = e.on_disk;
    no_echo = λ base text h. e.no_echo base text h;
  }
  kind-IsEdited t q (ok (some dir)) e =
      if-IsEdited _ _ t
        (forget_dir-IsEdited t q (W.remove_dir t.files q) (laws.remove_dir_lem t.files p q) e) e
  kind-IsEdited t q (ok (some file)) e = e
  kind-IsEdited t q (err bad) e = e

  prune_dirs-IsEdited :
      (paths : List RelPath) (t : State) → Edited t → Edited (prune_dirs T W t paths)
  unfolding prune_dir
  prune_dirs-IsEdited [] t e = e
  prune_dirs-IsEdited (q ∷ paths) t e =
      prune_dirs-IsEdited paths (prune_dir T W t q) (kind-IsEdited t q (W.kind t.files q) e)

  -- No pass takes away an edit: where a removal takes away no file but its own, a file whose bytes
  -- on disk are not the text that it had in the document at its base, or that has no base, has the
  -- same bytes after the files and directories that were not written are pruned, and they are still not
  -- the text at its base, if it still has one.
  pub prune-IsEdited :
      (t : State) (written_files written_dirs : List RelPath)
      → IsEdited T W d p edited t
      → IsEdited T W d p edited (prune T W d t written_files written_dirs)
  unfolding prune
  prune-IsEdited t written_files written_dirs e =
      let t1 = prune_files T W d t (unwritten T W (keys_of t.bases) written_files) in
      let e1 = prune_files-IsEdited (unwritten T W (keys_of t.bases) written_files) t e in
      prune_dirs-IsEdited (deepest_first (unwritten T W t1.dirs written_dirs)) t1 e1
