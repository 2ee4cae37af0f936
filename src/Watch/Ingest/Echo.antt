-- ===== src/Watch/Ingest/Echo.antt =====
-- crates/eg/src/watch.rs: changed paths on which disk and document agree are absorbed.
use okayeg.Prelude.{
  ◌≡◌, refl, sym, ap, ◌∙◌, ◌⊎◌, inl, inr, Bool, true, Option, none, some, List, [], ◌∷◌, Str, Bytes,
  Result, ok, All, str_beq_iff, Option-cases, arith, if◌then◌else◌, Str_eq,
}
use okayeg.Prelude.Assoc.{Assoc, lookup}
use okayeg.Utf8.{as_bytes, from_utf8}
use okayeg.TreeDoc.{TreeDoc}
use okayeg.Tree
use okayeg.Trust.File.{IoError}
use okayeg.Workspace.{RelPath, RelPath_eq, Workspace, file}
use okayeg.Watch.{ExportedBase, is_echo_of, is_text}
use okayeg.Watch.Ingest.{
  child_named, node_from, node_at, ensure_from, ensure_dir, parent_and_name, merge_found, merge_new,
  ingest_bytes, ingest_read, ingest_kind, done, delete_at, is_echo, same_text, merge_at, apply_path,
  apply_next, apply_paths, commit_batch, apply_batch,
}

module _ (T : TreeDoc) (W : Workspace) (w : W.Files) (d : T.LoroDoc)
    (bases : Assoc RelPath (ExportedBase T W)) where
  -- Every directory of the path is in the document.
  abbrev pub Exists : RelPath → Type 0
  Exists rel = (rel ≡ []) ⊎ ((q : T.NodeId) × (node_at T W d rel ≡ some q))

  -- The file has the text that is on disk; or no file is there, and what is on disk is the text that
  -- the exported file had at its base.
  abbrev pub Agrees : RelPath → Str → Option T.NodeId → Type 0
  Agrees rel text found =
      ((n : T.NodeId) × (found ≡ some n) × (Tree.content T d n ≡ some text))
      ⊎ ((base : ExportedBase T W) × (found ≡ none)
          × (lookup rel bases ≡ some base)
          × (Tree.content_at T d base.node base.frontier ≡ some text))

  -- A path that has nothing new: a text on which disk and document agree, a file that is no text, or
  -- a path that is in neither.
  pub data IsAbsorbed (rel : RelPath) : Type 0 where
    agreed :
        (bytes : Bytes) (text : Str)
        → W.kind w rel ≡ ok (some file)
        → W.read_file w rel ≡ ok bytes
        → from_utf8 bytes ≡ some text
        → Exists (parent_and_name T W rel).0
        → Agrees rel text (
            child_named T W d
              (node_at T W d (parent_and_name T W rel).0)
              (parent_and_name T W rel).1)
        → IsAbsorbed rel
    no_text :
        (bytes : Bytes)
        → W.kind w rel ≡ ok (some file)
        → W.read_file w rel ≡ ok bytes
        → from_utf8 bytes ≡ none
        → IsAbsorbed rel
    nowhere : W.kind w rel ≡ ok none → node_at T W d rel ≡ none → IsAbsorbed rel

  ensure-there :
      (comps : RelPath) (parent : Option T.NodeId) (q : T.NodeId)
      → node_from T W d parent comps ≡ some q
      → ensure_from T W d parent comps ≡ some (some q, d)
  unfolding node_from ensure_from
  ensure-there [] parent q h = ap (λ (o : Option T.NodeId). some (o, d)) h
  ensure-there (comp ∷ comps) parent q h = elim (Option-cases (child_named T W d parent comp)) [
    | inl missing ↦ ground (arith, missing, h)
    | inr (n, found) ↦ ground (arith, found, h, ensure-there comps (some n) q)
  ]

  ensure-Exists : (rel : RelPath) → Exists rel → ensure_dir T W d rel ≡ some (node_at T W d rel, d)
  unfolding ensure_dir node_at node_from ensure_from
  ensure-Exists rel (inl root) =
      ap (ensure_from T W d none) root
      ∙ sym (ap (λ (p : RelPath). some (node_from T W d none p, d)) root)
  ensure-Exists rel (inr (q, h)) =
      ensure-there rel none q h ∙ ap (λ (o : Option T.NodeId). some (o, d)) (sym h)

  merge-Agrees :
      (rel : RelPath) (text name : Str) (parent found : Option T.NodeId)
      → Agrees rel text found
      → merge_found T W d parent name text (lookup rel bases) found ≡ some d
  unfolding is_echo_of
  merge-Agrees rel text name parent found (inl (n, e, same)) =
      ap (merge_found T W d parent name text (lookup rel bases)) e
      ∙ ap
          (λ (o : Option Str).
            some (if same_text T W o text then d else merge_at T W d n text (lookup rel bases)))
          same
      ∙ ap (λ (b : Bool). some (if b then d else merge_at T W d n text (lookup rel bases)))
          ((str_beq_iff text text).1 refl)
  merge-Agrees rel text name parent found (inr (base, e, known, same)) =
      let echo : is_echo T W d (lookup rel bases) (as_bytes text) ≡ true =
        ap (λ (o : Option (ExportedBase T W)). is_echo T W d o (as_bytes text)) known
        ∙ ap (λ (o : Option Str). is_text T W o (as_bytes text)) same
        ∙ (str_beq_iff (as_bytes text) (as_bytes text)).1 refl in
      ap (merge_found T W d parent name text (lookup rel bases)) e
      ∙ ap
          (λ (b : Bool).
            if b
            then some d
            else merge_new T W text (lookup rel bases) (Tree.create_file T d parent name))
          echo

  apply_path-IsAbsorbed :
      (rel : RelPath) → IsAbsorbed rel → apply_path T W w d rel bases ≡ some (ok d)
  unfolding apply_path
  apply_path-IsAbsorbed rel (agreed bytes text kind read utf8 there agrees) =
      let (parents, name) = parent_and_name T W rel in
      let parent = node_at T W d parents in
      ap (ingest_kind T W w d rel (lookup rel bases)) kind
      ∙ ap (ingest_read T W d rel (lookup rel bases)) read
      ∙ ap (λ (o : Option Str). done T W (ingest_bytes T W d rel (lookup rel bases) o)) utf8
      ∙ ap
          (λ (o : Option (Option T.NodeId × T.LoroDoc)). done T W (elim o [
            | none ↦ none
            | some (p, d1) ↦
                merge_found T W d1 p name text (lookup rel bases) (child_named T W d1 p name)
          ]))
          (ensure-Exists parents there)
      ∙ ap (done T W) (merge-Agrees rel text name parent (child_named T W d parent name) agrees)
  apply_path-IsAbsorbed rel (no_text bytes kind read utf8) =
      ap (ingest_kind T W w d rel (lookup rel bases)) kind
      ∙ ap (ingest_read T W d rel (lookup rel bases)) read
      ∙ ap (λ (o : Option Str). done T W (ingest_bytes T W d rel (lookup rel bases) o)) utf8
  apply_path-IsAbsorbed rel (nowhere kind gone) =
      ap (ingest_kind T W w d rel (lookup rel bases)) kind
      ∙ ap (λ (o : Option T.NodeId). done T W (delete_at T W d o)) gone

  apply_paths-All :
      (paths : List RelPath)
      → All IsAbsorbed paths
      → apply_paths T W w bases paths d ≡ some (ok tt, d, bases)
  unfolding apply_paths
  apply_paths-All [] h = refl
  apply_paths-All (rel ∷ paths) h =
      ap (apply_next T W (apply_paths T W w bases paths) d bases) (apply_path-IsAbsorbed rel h.0)
      ∙ apply_paths-All paths h.1

  -- A batch of changed paths that have nothing new changes nothing in the document, which is only
  -- committed: paths where the file has the text that is on disk, or where no file is there and the
  -- disk has the text that the exported file had at its base, the directories of the path being
  -- there; files that are no text; and paths that are in neither.
  pub apply_batch-IsAbsorbed :
      (paths : List RelPath)
      → All IsAbsorbed paths
      → (r : Result IoError Bool) × (bases1 : Assoc RelPath (ExportedBase T W)) × (apply_batch T W w
            d paths bases
          ≡ some (r, T.commit_doc d, bases1))
  unfolding apply_batch
  apply_batch-IsAbsorbed paths h =
      (_, _, ap (commit_batch T W w (T.state_vv d) paths) (apply_paths-All paths h))
