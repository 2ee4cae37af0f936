-- ===== src/Mount/Requests.antt =====
-- crates/eg/src/mount.rs: the kernel's requests that name a node by its number. A request is
-- answered by one reply; the reply's time to live, generation and handle are constants and left out.
-- The guards on the inode table and the write-back buffers are held within one call of theirs.
pub mod Paths
pub mod Serve
pub mod Revoked
pub mod Listing
pub mod Pages
pub mod Failure
use okayeg.Prelude.{
  ℕ, ◌+◌, Bool, true, false, Option, none, some, List, [], ◌∷◌, ◌++◌, Str, Bytes, Result, ok, err,
  lit, drop, find, if◌then◌else◌,
}
use okayeg.Prelude.Assoc.{insert}
use okayeg.TreeDoc.{TreeDoc}
use okayeg.Tree
use okayeg.Tree.{is_dir}
use okayeg.Fs.Slice.{read_bytes}
use okayeg.Fs.View.{has_name, only_valid}
use okayeg.Mount.Inodes
use okayeg.Mount.Inodes.{Inodes, root_ino}
use okayeg.Mount.Writeback
use okayeg.Mount.Writeback.{Errno, enoent, enotdir, eisdir, eacces, Writeback}
use okayeg.Mount.View.{
  DocMount, doc_watch, FileType, directory, regular_file, FileAttr, doc_of, node_of, attr_of,
  children, valid_text,
}

-- A row of `ReplyDirectory::add`.
pub record DirEntry : Type 0 where
  pub ino : ℕ
  pub offset : ℕ
  pub kind : FileType
  pub name : Str

pub data Reply : Type 0 where
  entry attr created : FileAttr → Reply
  bytes : Bytes → Reply
  written : ℕ → Reply
  listing : List DirEntry → Reply
  done : Reply
  error : Errno → Reply

-- The entries get their offsets, which are those of the entries behind them.
unfoldable pub numbered : ℕ → List (ℕ × FileType × Str) → List DirEntry
numbered i [] = []
numbered i ((ino, kind, name) ∷ entries) =
    record { ino = ino; offset = i + 1; kind = kind; name = name } ∷ numbered (i + 1) entries

-- The loop of `readdir`. `full` is the answer of `reply.add`: the kernel's buffer, with the entries
-- it has, does not take this one.
unfoldable pub fill :
    (List DirEntry → DirEntry → Bool) → List DirEntry → List DirEntry → List DirEntry
fill full taken [] = taken
fill full taken (e ∷ entries) =
    if full taken e then taken else fill full (taken ++ (e ∷ [])) entries

abbrev pub type_of : Bool → FileType
type_of true = directory
type_of false = regular_file

abbrev pub attr_reply : (FileAttr → Reply) → Option FileAttr → Reply
attr_reply reply none = error enoent
attr_reply reply (some a) = reply a

module _ (T : TreeDoc) where
  open T use {LoroDoc, NodeId}

  -- `none` is a panic, or a climb to the root without enough fuel.
  abbrev pub Outcome : Type 0
  Outcome = Option (Reply × DocMount T)

  abbrev pub with_writeback : DocMount T → Writeback T → DocMount T
  with_writeback m w = record m { writeback = w }

  abbrev pub with_doc : DocMount T → LoroDoc → DocMount T
  with_doc m d = with_writeback m (record m.writeback { doc = d })

  unfoldable pub denied : DocMount T → Bool
  denied m = m.revoked

  -- The mount after a commit at the time `wall`, which calls the subscription before it returns.
  unfoldable pub watched : DocMount T → ℕ → Writeback T → DocMount T
  unfolding doc_watch
  watched m wall w = record m {
    writeback = w;
    mtimes = doc_watch ⦃e = T.node_eq⦄ m.mtimes wall (m.subscription m.writeback.doc w.doc);
  }

  unfoldable pub committed : DocMount T → ℕ → DocMount T
  unfolding watched
  committed m wall =
      watched m wall (record m.writeback {
        doc = T.commit_doc m.writeback.doc;
        changed = m.writeback.changed + 1;
      })

  abbrev pub commit_node : DocMount T → ℕ → Option NodeId → DocMount T
  commit_node m wall none = m
  commit_node m wall (some node) = watched m wall (Writeback.commit T m.writeback node)

  unfoldable pub commit_ino : DocMount T → ℕ → ℕ → DocMount T
  unfolding Inodes.node Writeback.commit watched
  commit_ino m wall ino = commit_node m wall (node_of T m ino)

  -- The number of a node, and the mount that knows it.
  abbrev pub ino_of : DocMount T → NodeId → ℕ × DocMount T
  ino_of m node =
      let (number, table) = Inodes.ino ⦃e = T.node_eq⦄ m.inodes node in
      (number, record m { inodes = table })

  unfoldable pub entry_of : DocMount T → NodeId → Reply × DocMount T
  unfolding Inodes.ino attr_of
  entry_of m node = let (number, m1) = ino_of m node in (attr_reply entry (attr_of T m1 number), m1)

  abbrev pub found_entry : DocMount T → Option NodeId → Reply × DocMount T
  found_entry m none = (error enoent, m)
  found_entry m (some node) = entry_of m node

  abbrev pub lookup_in : DocMount T → Option Str → Option (List NodeId) → Reply × DocMount T
  lookup_in m none nodes = (error enoent, m)
  lookup_in m (some name) none = (error enoent, m)
  lookup_in m (some name) (some nodes) =
      found_entry m (find (λ n. has_name (Tree.name T (doc_of T m) n) name) nodes)

  unfoldable pub lookup : DocMount T → ℕ → Bytes → Reply × DocMount T
  unfolding children entry_of find Tree.name
  lookup m parent name = lookup_in m (valid_text T name) (children T m parent)

  unfoldable pub getattr : DocMount T → ℕ → Reply
  unfolding attr_of
  getattr m ino = attr_reply attr (attr_of T m ino)

  abbrev pub stamped : DocMount T → NodeId → ℕ → DocMount T
  stamped m node wall = record m { mtimes = insert ⦃e = T.node_eq⦄ node wall m.mtimes }

  abbrev pub resized :
      DocMount T → ℕ → ℕ → NodeId → Result Errno (Unit {0}) × Writeback T → Reply × DocMount T
  resized m wall ino node (err e, w) = (error e, with_writeback m w)
  resized m wall ino node (ok _, w) =
      let m1 = stamped (with_writeback m w) node wall in (getattr m1 ino, m1)

  abbrev pub resize_node : DocMount T → ℕ → ℕ → ℕ → ℕ → Option NodeId → Reply × DocMount T
  resize_node m now wall ino size none = (error enoent, m)
  resize_node m now wall ino size (some node) =
      resized m wall ino node (Writeback.truncate T m.writeback now node size)

  -- `now` is the monotonic clock's time, `wall` that of the wall clock. Only a size is set.
  unfoldable pub setattr : DocMount T → ℕ → ℕ → ℕ → Option ℕ → Reply × DocMount T
  unfolding denied Inodes.node Writeback.truncate getattr
  setattr m now wall ino none = (getattr m ino, m)
  setattr m now wall ino (some size) =
      if denied m then (error eacces, m) else resize_node m now wall ino size (node_of T m ino)

  -- The children with valid names, each with its number.
  unfoldable pub entries_of :
      LoroDoc → Inodes NodeId → List NodeId → List (ℕ × FileType × Str) × Inodes NodeId
  unfolding Tree.name Tree.kind Inodes.ino
  entries_of d table [] = ([], table)
  entries_of d table (n ∷ nodes) = elim (only_valid (Tree.name T d n)) [
    | none ↦ entries_of d table nodes
    | some name ↦
        let (number, t1) = Inodes.ino ⦃e = T.node_eq⦄ table n in
        let (rest, t2) = entries_of d t1 nodes in
        ((number, type_of (is_dir (Tree.kind T d n)), name) ∷ rest, t2)
  ]

  abbrev pub dots : ℕ → List (ℕ × FileType × Str)
  dots ino = (ino, directory, lit ".") ∷ (root_ino, directory, lit "..") ∷ []

  abbrev pub readdir_in :
      (List DirEntry → DirEntry → Bool)
      → DocMount T
      → ℕ
      → ℕ
      → Option (List NodeId)
      → Reply × DocMount T
  readdir_in full m ino offset none = (error enotdir, m)
  readdir_in full m ino offset (some nodes) =
      let (rest, table) = entries_of (doc_of T m) m.inodes nodes in
      (
        listing (fill full [] (drop offset (numbered 0 (dots ino ++ rest)))),
        record m { inodes = table },
      )

  unfoldable pub readdir :
      (List DirEntry → DirEntry → Bool) → DocMount T → ℕ → ℕ → Reply × DocMount T
  unfolding children entries_of fill numbered
  readdir full m ino offset = readdir_in full m ino offset (children T m ino)

  abbrev pub data_of : (Str → Option Bytes) → Option Bytes → Option Str → Option Reply
  data_of slice (some b) text = some (bytes b)
  data_of slice none none = some (error eisdir)
  data_of slice none (some s) = elim (slice s) [ none ↦ none | some b ↦ some (bytes b) ]

  abbrev pub read_node :
      (Str → ℕ → ℕ → Option (List Str)) → DocMount T → ℕ → ℕ → Option NodeId → Option Reply
  read_node slice_delta m offset size none = some (error enoent)
  read_node slice_delta m offset size (some node) =
      data_of (λ s. read_bytes slice_delta s offset size)
        (Writeback.read T m.writeback node offset size) (Tree.content T (doc_of T m) node)

  -- `none` is a panic.
  unfoldable pub read : (Str → ℕ → ℕ → Option (List Str)) → DocMount T → ℕ → ℕ → ℕ → Option Reply
  unfolding Inodes.node Writeback.read Tree.content read_bytes
  read slice_delta m ino offset size = read_node slice_delta m offset size (node_of T m ino)

  abbrev pub wrote : DocMount T → ℕ → NodeId → Option (Result Errno ℕ × Writeback T) → Outcome
  wrote m wall node none = none
  wrote m wall node (some (err e, w)) = some (error e, with_writeback m w)
  wrote m wall node (some (ok n, w)) = some (written n, stamped (with_writeback m w) node wall)

  abbrev pub write_node : DocMount T → ℕ → ℕ → ℕ → Bytes → Option NodeId → Outcome
  write_node m now wall offset new none = some (error enoent, m)
  write_node m now wall offset new (some node) =
      wrote m wall node (Writeback.write T m.writeback now node offset new)

  unfoldable pub write : DocMount T → ℕ → ℕ → ℕ → ℕ → Bytes → Outcome
  unfolding denied Inodes.node Writeback.write
  write m now wall ino offset new =
      if denied m
      then some (error eacces, m)
      else write_node m now wall offset new (node_of T m ino)

  unfoldable pub flush : DocMount T → ℕ → ℕ → Reply × DocMount T
  unfolding commit_ino
  flush m wall ino = (done, commit_ino m wall ino)

  unfoldable pub release : DocMount T → ℕ → ℕ → Reply × DocMount T
  unfolding commit_ino
  release m wall ino = (done, commit_ino m wall ino)

  unfoldable pub fsync : DocMount T → ℕ → ℕ → Reply × DocMount T
  unfolding commit_ino
  fsync m wall ino = (done, commit_ino m wall ino)
