-- ===== src/Mount/Requests/Pages.antt =====
-- crates/eg/src/mount.rs: a directory that is read in pages by `readdir`.
use okayeg.Prelude.{
  ℕ, zero, suc, ◌+◌, ◌<◌, ◌≡◌, refl, sym, ap, Bool, false, Option, none, some, List, [], ◌∷◌, ◌++◌,
  Bool-cases, inl, inr, drop, arith, ◌∙◌, length, length-append, drop-drop, append-nil,
  append_assoc,
}
use okayeg.TreeDoc.{TreeDoc}
use okayeg.Mount.Inodes.{Inodes}
use okayeg.Mount.Inodes.Table.{IsTable}
use okayeg.Mount.View.{DocMount, doc_of, children}
use okayeg.Mount.Requests.{
  DirEntry, Reply, listing, numbered, fill, entries_of, dots, readdir_in, readdir,
}
use okayeg.Mount.Requests.Listing.{
  Row, Listed, entries_of-Lists, entries_of-again, length-Listed, children-kept,
}

module _ (T : TreeDoc) where
  open T use {LoroDoc, NodeId}

  -- The offset from which the kernel reads on after a page.
  abbrev pub next_offset : ℕ → List DirEntry → ℕ
  next_offset k [] = k
  next_offset k (e ∷ es) = next_offset e.offset es

  abbrev Pages : Type 0
  Pages = Option (List DirEntry × DocMount T)

  abbrev behind : List DirEntry → Pages → Pages
  behind page none = none
  behind page (some (rest, m)) = some (page ++ rest, m)

  abbrev turn : (DocMount T → ℕ → Pages) → ℕ → Reply × DocMount T → Pages
  turn go k (listing [], m) = some ([], m)
  turn go k (listing (e ∷ es), m) = behind (e ∷ es) (go m (next_offset k (e ∷ es)))
  turn go k (_, m) = none

  -- A directory read page after page, until a page is empty. `none` is an error or a run out of
  -- fuel.
  unfoldable pub read_pages : (List DirEntry → DirEntry → Bool) → ℕ → DocMount T → ℕ → ℕ → Pages
  unfolding readdir
  read_pages full zero m ino k = none
  read_pages full (suc fuel) m ino k =
      turn (λ m1 k1. read_pages full fuel m1 ino k1) k (readdir T full m ino k)

  abbrev entry_at : ℕ → Row → DirEntry
  entry_at k x = record { ino = x.0; offset = k + 1; kind = x.1; name = x.2 }

  drop-numbered :
      (k : ℕ) (r s : List Row) → drop (length r) (numbered k (r ++ s)) ≡ numbered (k + length r) s
  unfolding numbered
  drop-numbered k [] s = ap (λ (i : ℕ). numbered i s) (omega arith)
  drop-numbered k (x ∷ r) s = drop-numbered (k + 1) r s ∙ ap (λ (i : ℕ). numbered i s) (omega arith)

  next_offset-numbered : (k : ℕ) (r : List Row) → next_offset k (numbered k r) ≡ k + length r
  unfolding numbered
  next_offset-numbered k [] = omega arith
  next_offset-numbered k (x ∷ r) = next_offset-numbered (k + 1) r ∙ omega arith

  numbered-append :
      (k : ℕ) (r s : List Row) → numbered k r ++ numbered (k + length r) s ≡ numbered k (r ++ s)
  unfolding numbered
  numbered-append k [] s = ap (λ (i : ℕ). numbered i s) (omega arith)
  numbered-append k (x ∷ r) s =
      let same : k + length (x ∷ r) ≡ (k + 1) + length r = omega arith in
      ap (λ (i : ℕ). numbered k (x ∷ r) ++ numbered i s) same
      ∙ ap (λ (l : List DirEntry). entry_at k x ∷ l) (numbered-append (k + 1) r s)

  module _ (full : List DirEntry → DirEntry → Bool) where
    -- A page is the rows from the offset on, up to some point.
    fill-numbered :
        (taken : List DirEntry) (k : ℕ) (rows : List Row)
        → (r : List Row) × (s : List Row) × (rows ≡ r ++ s)
          × (fill full taken (numbered k rows) ≡ taken ++ numbered k r)
    unfolding fill numbered
    fill-numbered taken k [] = ([], [], refl, sym (append-nil taken))
    fill-numbered taken k (x ∷ rows) =
        let e = entry_at k x in
        let (r, s, split, page) = fill-numbered (taken ++ (e ∷ [])) (k + 1) rows in
        elim (Bool-cases (full taken e)) [
          | inl h ↦ ([], x ∷ rows, refl, ground (arith, h, append-nil taken))
          | inr h ↦ (
            x ∷ r,
            s,
            ap (λ (l : List Row). x ∷ l) split,
            ground (arith, h, page, append_assoc taken (e ∷ []) (numbered (k + 1) r)),
          )
        ]

    -- A directory whose reads all give these rows.
    abbrev Gives : DocMount T → ℕ → List Row → DocMount T → Type 0
    Gives m ino rows m1 =
        (k : ℕ) → readdir T full m ino k ≡ (listing (fill full [] (drop k (numbered 0 rows))), m1)

    module _ (takes : (e : DirEntry) → full [] e ≡ false) (ino : ℕ) (rows : List Row) where
      -- A page of some rows takes the first of them.
      fill-first :
          (k : ℕ) (x : Row) (rest : List Row)
          → (r : List Row) × (s : List Row) × (rest ≡ r ++ s)
            × (fill full [] (numbered k (x ∷ rest)) ≡ numbered k (x ∷ r))
      unfolding fill numbered
      fill-first k x rest =
          let e = entry_at k x in
          let (r, s, split, page) = fill-numbered (e ∷ []) (k + 1) rest in
          (r, s, split, ground (arith, takes e, page))

      pages-rest :
          (fuel : ℕ) (m m1 : DocMount T) (k : ℕ) (rest : List Row)
          → Gives m ino rows m1
          → Gives m1 ino rows m1
          → drop k (numbered 0 rows) ≡ numbered k rest
          → length rest < fuel
          → read_pages full fuel m ino k ≡ some (numbered k rest, m1)
      unfolding read_pages
      pages-rest zero m m1 k rest g g1 at h = ground (arith, h)
      pages-rest (suc fuel) m m1 k [] g g1 at h =
          ap (turn (λ m2 k2. read_pages full fuel m2 ino k2) k)
            (g k ∙ ap (λ (es : List DirEntry). (listing (fill full [] es), m1)) at)
          ∙ (unfold fill numbered in refl)
      pages-rest (suc fuel) m m1 k (x ∷ rest) g g1 at h =
          let (r, s, split, page) = fill-first k x rest in
          let next = k + length (x ∷ r) in
          let read : readdir T full m ino k ≡ (listing (numbered k (x ∷ r)), m1) =
            g k
            ∙ ap (λ (es : List DirEntry). (listing (fill full [] es), m1)) at
            ∙ ap (λ (es : List DirEntry). (listing es, m1)) page in
          let whole : x ∷ rest ≡ (x ∷ r) ++ s = ap (λ (l : List Row). x ∷ l) split in
          let later : drop next (numbered 0 rows) ≡ numbered next s =
            drop-drop k (length (x ∷ r)) (numbered 0 rows)
            ∙ ap (drop (length (x ∷ r))) (at ∙ ap (numbered k) whole)
            ∙ drop-numbered k (x ∷ r) s in
          ap (turn (λ m2 k2. read_pages full fuel m2 ino k2) k) read
          ∙ (unfold numbered in refl)
          ∙ ap (λ (i : ℕ). behind (numbered k (x ∷ r)) (read_pages full fuel m1 ino i))
              (next_offset-numbered k (x ∷ r))
          ∙ ap (behind (numbered k (x ∷ r))) (
              pages-rest fuel m1 m1 next s g1 g1 later
                (omega (arith, h, ap length split, length-append r s)))
          ∙ ap (λ (es : List DirEntry). some (es, m1))
              (numbered-append k (x ∷ r) s ∙ ap (numbered k) (sym whole))

    module _ (takes : (e : DirEntry) → full [] e ≡ false) where
      -- When an empty page takes any entry, a directory that is read page after page lists `.`, `..`
      -- and then each child with a valid name, once and in the children's order, with its kind and a
      -- number by which the mount then knows it. Nothing else of the mount has changed but numbers
      -- given. The mount's table of numbers has its invariant, and the fuel passes the number of
      -- children by more than 2.
      pub read_pages-Listed :
          (m : DocMount T) (ino fuel : ℕ) (nodes : List NodeId)
          → IsTable ⦃e = T.node_eq⦄ m.inodes
          → children T m ino ≡ some nodes
          → 2 + length nodes < fuel
          → (rows : List Row) × (table : Inodes NodeId) × Listed T (doc_of T m) table nodes rows
            × (read_pages full fuel m ino 0
                ≡ some (numbered 0 (dots T ino ++ rows), record m { inodes = table }))
      unfolding readdir
      read_pages-Listed m ino fuel nodes t h enough =
          let l = entries_of-Lists T (doc_of T m) nodes m.inodes t in
          let (rows, table) = entries_of T (doc_of T m) m.inodes nodes in
          let m1 = record m { inodes = table } in
          let same : children T m1 ino ≡ some nodes = children-kept T m table ino nodes l.keeps h in
          let first : Gives m ino (dots T ino ++ rows) m1 = λ k. ap (readdir_in T full m ino k) h in
          let again : Gives m1 ino (dots T ino ++ rows) m1 = λ k.
            ap (readdir_in T full m1 ino k) same
            ∙ ap
                (λ (r : List Row × Inodes NodeId). (
                  listing (fill full [] (drop k (numbered 0 (dots T ino ++ r.0)))),
                  record m { inodes = r.1 },
                ))
                (entries_of-again T (doc_of T m) table nodes rows l.table l.listed) in
          (
            rows,
            table,
            l.listed,
            pages-rest takes ino (dots T ino ++ rows) fuel m m1 0 (dots T ino ++ rows) first again
                refl
                (omega (arith, enough, length-Listed T (doc_of T m) table nodes rows l.listed)),
          )
