-- ===== src/Mount/View.antt =====
-- crates/eg/src/mount.rs: `DocMount`, what the kernel sees of the document. The kernel's caches
-- are left out.
use okayeg.Prelude.{
  ℕ, ◌+◌, ◌-◌, ◌/◌, Eq, Bool, Option, none, some, List, [], ◌∷◌, ◌++◌, Str, Bytes, nat_eq, length,
  is_empty, if◌then◌else◌,
}
use okayeg.Prelude.Assoc.{Assoc, lookup, insert}
use okayeg.Prelude.Options.{◌>>=◌}
use okayeg.Utf8.{as_bytes, from_utf8}
use okayeg.TreeDoc.{TreeDoc}
use okayeg.Tree
use okayeg.Tree.{NodeKind, dir, file, boundary, is_dir}
use okayeg.Fs.Path.{
  FsError, invalid_path, not_found, not_a_directory, not_a_file, already_exists, not_empty,
  invalid_move,
}
use okayeg.Fs.View.{only_valid, path_of}
use okayeg.Mount.Inodes
use okayeg.Mount.Inodes.{Inodes, root_ino}
use okayeg.Mount.Writeback.{
  Errno, einval, enoent, enotdir, eisdir, eexist, enotempty, Writeback, len,
}

unfoldable pub errno : FsError → Errno
errno invalid_path = einval
errno not_found = enoent
errno not_a_directory = enotdir
errno not_a_file = eisdir
errno already_exists = eexist
errno not_empty = enotempty
errno invalid_move = einval

pub data FileType : Type 0 where
  directory regular_file : FileType

-- Times are numbers of the wall clock.
pub record FileAttr : Type 0 where
  pub ino : ℕ
  pub size : ℕ
  pub blocks : ℕ
  pub atime : ℕ
  pub mtime : ℕ
  pub ctime : ℕ
  pub crtime : ℕ
  pub kind : FileType
  pub perm : ℕ
  pub nlink : ℕ
  pub uid : ℕ
  pub gid : ℕ
  pub rdev : ℕ
  pub blksize : ℕ
  pub flags : ℕ

abbrev pub perm_nlink : FileType → ℕ × ℕ
perm_nlink directory = (0o755, 2)
perm_nlink regular_file = (0o644, 1)

-- `u64::div_ceil`
abbrev pub div_ceil : ℕ → ℕ → ℕ
div_ceil a b = (a + (b - 1)) / b

-- `okayeg::Change`
pub data Change (NodeId : Type 0) : Type 0 where
  created_node moved_node removed_node content : NodeId → Change NodeId

-- The times of the files after the callback of `spawn_doc_watch`, called at the time `wall`.
unfoldable pub doc_watch :
    {NodeId : Type 0} ⦃e : Eq NodeId⦄ → Assoc NodeId ℕ → ℕ → List (Change NodeId) → Assoc NodeId ℕ
doc_watch mtimes wall [] = mtimes
doc_watch mtimes wall (content node ∷ changes) = doc_watch (insert node wall mtimes) wall changes
doc_watch mtimes wall (_ ∷ changes) = doc_watch mtimes wall changes

module _ (T : TreeDoc) where
  open T use {NodeId}

  -- The document stands in the write-back state.
  pub record DocMount : Type 0 where
    pub inodes : Inodes NodeId
    pub writeback : Writeback T
    pub revoked : Bool
    pub mtimes : Assoc NodeId ℕ
    pub uid : ℕ
    pub gid : ℕ
    pub epoch : ℕ
    -- what `doc.fs().subscribe` reports while a document becomes another one by a commit; Loro's
    -- events are behind it, and a commit of nothing reports nothing
    pub subscription : T.LoroDoc → T.LoroDoc → List (Change NodeId)

  abbrev pub doc_of : DocMount → T.LoroDoc
  doc_of m = m.writeback.doc

  abbrev pub node_of : DocMount → ℕ → Option NodeId
  node_of m ino = Inodes.node ⦃e = T.node_eq⦄ m.inodes ino

  unfoldable pub attr : DocMount → ℕ → FileType → ℕ → ℕ → FileAttr
  attr m ino kind size mtime = record {
    ino = ino;
    size = size;
    blocks = div_ceil size 512;
    atime = mtime;
    mtime = mtime;
    ctime = mtime;
    crtime = m.epoch;
    kind = kind;
    perm = (perm_nlink kind).0;
    nlink = (perm_nlink kind).1;
    uid = m.uid;
    gid = m.gid;
    rdev = 0;
    blksize = 4096;
    flags = 0;
  }

  abbrev pub or_epoch : ℕ → Option ℕ → ℕ
  or_epoch epoch none = epoch
  or_epoch epoch (some t) = t

  -- The size of a file, that of its dirty buffer if it has one.
  abbrev pub or_text_len : Option ℕ → Option Str → Option ℕ
  or_text_len (some n) text = some n
  or_text_len none none = none
  or_text_len none (some s) = some (length (as_bytes s))

  abbrev pub attr_of_kind : DocMount → ℕ → NodeId → ℕ → NodeKind → Option FileAttr
  attr_of_kind m ino node mtime dir = some (attr m ino directory 0 mtime)
  attr_of_kind m ino node mtime _ =
      or_text_len (len T m.writeback node) (Tree.content T (doc_of m) node) >>= λ size.
      some (attr m ino regular_file size mtime)

  -- The attributes at a number, `none` if it is no live node's.
  unfoldable pub attr_of : DocMount → ℕ → Option FileAttr
  attr_of m ino =
      if nat_eq ino root_ino
      then some (attr m ino directory 0 m.epoch)
      else (node_of m ino >>= λ node. Tree.kind T (doc_of m) node >>= λ kind.
          attr_of_kind m ino node (or_epoch m.epoch (lookup ⦃e = T.node_eq⦄ node m.mtimes)) kind)

  unfoldable pub children : DocMount → ℕ → Option (List NodeId)
  children m ino =
      if nat_eq ino root_ino
      then some (T.roots (doc_of m))
      else (node_of m ino >>= λ node.
          if is_dir (Tree.kind T (doc_of m) node)
          then some (Tree.children T (doc_of m) node)
          else none)

  -- The path of a directory, where the climb to the root has `fuel` rounds. The outer `none` is a
  -- run out of fuel.
  unfoldable pub dir_path : ℕ → DocMount → ℕ → Option (Option Str)
  dir_path fuel m ino =
      if nat_eq ino root_ino
      then some (some [])
      else elim (node_of m ino) [ none ↦ some none | some node ↦ path_of T fuel (doc_of m) node ]

  abbrev pub under : Option Str → Str → Option Str
  under none name = none
  under (some path) name = some (if is_empty path then name else path ++ (b'/' ∷ name))

  abbrev pub child_path_of : ℕ → DocMount → ℕ → Option Str → Option (Option Str)
  child_path_of fuel m parent none = some none
  child_path_of fuel m parent (some name) = do path ← dir_path fuel m parent; some (under path name)

  -- The name of a file comes as bytes, which are no text if they are not UTF-8.
  abbrev pub valid_text : Bytes → Option Str
  valid_text name = only_valid (from_utf8 name)

  unfoldable pub child_path : ℕ → DocMount → ℕ → Bytes → Option (Option Str)
  child_path fuel m parent name = child_path_of fuel m parent (valid_text name)
