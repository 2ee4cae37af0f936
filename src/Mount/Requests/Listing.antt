-- ===== src/Mount/Requests/Listing.antt =====
-- crates/eg/src/mount.rs: the rows that `readdir` makes of a directory's children.
use okayeg.Prelude.{
  ℕ, ◌≤◌, ◌≡◌, refl, subst, Option, none, some, List, [], ◌∷◌, Str, Option-cases, inl, inr, arith,
  length,
}
use okayeg.TreeDoc.{TreeDoc}
use okayeg.Tree
use okayeg.Tree.{is_dir}
use okayeg.Fs.View.{only_valid}
use okayeg.Mount.Inodes
use okayeg.Mount.Inodes.{Inodes, root_ino}
use okayeg.Mount.Inodes.Table.{IsTable, ino-Sees}
use okayeg.Mount.View.{DocMount, FileType, children}
use okayeg.Mount.Requests.{type_of, entries_of}

abbrev pub Row : Type 0
Row = ℕ × FileType × Str

module _ (T : TreeDoc) where
  open T use {LoroDoc, NodeId}

  abbrev pub node_at : Inodes NodeId → ℕ → Option NodeId
  node_at t i = Inodes.node ⦃e = T.node_eq⦄ t i

  -- The rows of a directory's children: those with valid names, in their order, each with its kind
  -- and a number by which the table knows it.
  pub data Listed (d : LoroDoc) (t : Inodes NodeId) : List NodeId → List Row → Type 0 where
    no_more : Listed d t [] []
    unnamed :
        (n : NodeId) (nodes : List NodeId) (rows : List Row)
        → only_valid (Tree.name T d n) ≡ none
        → Listed d t nodes rows
        → Listed d t (n ∷ nodes) rows
    named :
        (n : NodeId) (i : ℕ) (name : Str) (nodes : List NodeId) (rows : List Row)
        → only_valid (Tree.name T d n) ≡ some name
        → node_at t i ≡ some n
        → Listed d t nodes rows
        → Listed d t (n ∷ nodes) ((i, type_of (is_dir (Tree.kind T d n)), name) ∷ rows)

  pub record Lists (d : LoroDoc) (t : Inodes NodeId) (nodes : List NodeId)
      (r : List Row × Inodes NodeId) : Type 0 where
    pub listed : Listed d r.1 nodes r.0
    pub table : IsTable ⦃e = T.node_eq⦄ r.1
    pub keeps : (m : NodeId) (i : ℕ) → node_at t i ≡ some m → node_at r.1 i ≡ some m

  unnamed-Lists :
      (d : LoroDoc) (t : Inodes NodeId) (n : NodeId) (nodes : List NodeId)
      (r : List Row × Inodes NodeId)
      → only_valid (Tree.name T d n) ≡ none
      → Lists d t nodes r
      → Lists d t (n ∷ nodes) r
  unnamed-Lists d t n nodes r h l = record {
    listed = unnamed n nodes r.0 h l.listed;
    table = l.table;
    keeps = l.keeps;
  }

  named-Lists :
      (d : LoroDoc) (t : Inodes NodeId) (n : NodeId) (nodes : List NodeId) (name : Str)
      → only_valid (Tree.name T d n) ≡ some name
      → IsTable ⦃e = T.node_eq⦄ t
      → let (i, t1) = Inodes.ino ⦃e = T.node_eq⦄ t n in
        (r : List Row × Inodes NodeId)
        → Lists d t1 nodes r
        → Lists d t (n ∷ nodes) ((i, type_of (is_dir (Tree.kind T d n)), name) ∷ r.0, r.1)
  unfolding Inodes.node
  named-Lists d t n nodes name h table r l =
      let sees = ino-Sees ⦃e = T.node_eq⦄ t n table in
      let (i, t1) = Inodes.ino ⦃e = T.node_eq⦄ t n in
      record {
        listed = named n i name nodes r.0 h (l.keeps n i sees.given) l.listed;
        table = l.table;
        keeps = λ m j k. l.keeps m j (sees.keeps m j k);
      }

  pub entries_of-Lists :
      (d : LoroDoc) (nodes : List NodeId) (t : Inodes NodeId)
      → IsTable ⦃e = T.node_eq⦄ t
      → Lists d t nodes (entries_of T d t nodes)
  unfolding entries_of
  entries_of-Lists d [] t table = record { listed = no_more; table = table; keeps = λ m i h. h }
  entries_of-Lists d (n ∷ nodes) t table = elim (Option-cases (only_valid (Tree.name T d n))) [
    | inl h ↦
        subst (Lists d t (n ∷ nodes)) (ground (arith, h))
          (unnamed-Lists d t n nodes _ h (entries_of-Lists d nodes t table))
    | inr (name, h) ↦
        let t1 = (Inodes.ino ⦃e = T.node_eq⦄ t n).1 in
        let sees = ino-Sees ⦃e = T.node_eq⦄ t n table in
        subst (Lists d t (n ∷ nodes)) (ground (arith, h))
          (named-Lists d t n nodes name h table _ (entries_of-Lists d nodes t1 sees.table))
  ]

  -- Numbers that are known are given again, and the table stays as it is.
  pub entries_of-again :
      (d : LoroDoc) (t : Inodes NodeId) (nodes : List NodeId) (rows : List Row)
      → IsTable ⦃e = T.node_eq⦄ t
      → Listed d t nodes rows
      → entries_of T d t nodes ≡ (rows, t)
  unfolding entries_of Inodes.ino Inodes.node
  entries_of-again d t _ _ table no_more = refl
  entries_of-again d t _ _ table (unnamed n nodes rows h l) =
      ground (arith, h, entries_of-again d t nodes rows table l)
  entries_of-again d t _ _ table (named n i name nodes rows h known l) =
      ground (arith, h, entries_of-again d t nodes rows table l, table.to_ino n i known)

  pub length-Listed :
      (d : LoroDoc) (t : Inodes NodeId) (nodes : List NodeId) (rows : List Row)
      → Listed d t nodes rows
      → length rows ≤ length nodes
  length-Listed d t _ _ no_more = omega arith
  length-Listed d t _ _ (unnamed n nodes rows h l) = omega (arith, length-Listed d t nodes rows l)
  length-Listed d t _ _ (named n i name nodes rows h k l) =
      omega (arith, length-Listed d t nodes rows l)

  -- The children at a number are the same by a table that keeps what was known.
  pub children-kept :
      (m : DocMount T) (table : Inodes NodeId) (ino : ℕ) (nodes : List NodeId)
      → ((n : NodeId) (i : ℕ) → node_at m.inodes i ≡ some n → node_at table i ≡ some n)
      → children T m ino ≡ some nodes
      → children T (record m { inodes = table }) ino ≡ some nodes
  unfolding children
  children-kept m table ino nodes keeps h = elim (Option-cases (node_at m.inodes ino)) [
    | inl unknown ↦ ground (arith, h, unknown)
    | inr (n, known) ↦ ground (arith, h, known, keeps n ino known)
  ]
