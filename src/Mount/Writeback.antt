-- ===== src/Mount/Writeback.antt =====
-- crates/eg/src/mount.rs: `Writeback`, the dirty buffers between `write` calls and edits of the
-- document. The locks are left out: each function runs under its lock from end to end. Sizes are
-- those of a 64-bit target, where a sum wraps as in a build for release.
-- The subscription that a commit calls stands with the mount, in Mount.Requests.
pub mod Contents
pub mod Session
use okayeg.Prelude.{
  ℕ, ◌+◌, ◌-◌, ◌%◌, ◌^◌, min, Bool, true, false, not, Option, none, some, List, [], ◌∷◌, Str, Bytes,
  Result, ok, err, ltb, leb, length, take, drop, if◌then◌else◌,
}
use okayeg.Prelude.Assoc.{Assoc, lookup, insert, erase}
use okayeg.Prelude.Vec.{resize, copy_at}
use okayeg.Utf8.{as_bytes, from_utf8_lossy}
use okayeg.TreeDoc.{TreeDoc}
use okayeg.Fs.Slice.{saturating_add}
use okayeg.Tree

pub data Errno : Type 0 where
  einval enoent enotdir eisdir eexist enotempty eacces : Errno

-- The bytes that `write` copies into.
unfoldable pub grown : ℕ → Bytes → Bytes
unfolding resize
grown end bytes = if ltb (length bytes) end then resize end bytes else bytes

-- What `write` does to the bytes. A sum that wraps ends in front of the offset, where the slice of
-- the bytes is a panic, `none`.
unfoldable pub splice : ℕ → Bytes → Bytes → Option Bytes
unfolding grown copy_at
splice offset new bytes =
    let end = (offset + length new) % 2 ^ 64 in
    if leb offset end then some (copy_at offset new (grown end bytes)) else none

-- The range that `read` returns, empty where it begins behind its end.
unfoldable pub read_range : ℕ → ℕ → Bytes → Bytes
read_range offset size bytes =
    let end = min (length bytes) (saturating_add offset size) in
    if leb offset end then take (end - offset) (drop offset bytes) else []

module _ (T : TreeDoc) where
  open T use {LoroDoc, NodeId, Frontiers}

  -- `last_write` is a time of the monotonic clock, in milliseconds.
  pub record Buffer : Type 0 where
    pub bytes : Bytes
    pub base : Frontiers
    pub last_write : ℕ

  -- `changed` counts the nudges that were sent.
  pub record Writeback : Type 0 where
    pub doc : LoroDoc
    pub buffers : Assoc NodeId Buffer
    pub changed : ℕ

  abbrev pub buffer_of : Writeback → NodeId → Option Buffer
  buffer_of w n = lookup ⦃e = T.node_eq⦄ n w.buffers

  abbrev pub put_buffer : Writeback → NodeId → Buffer → Writeback
  put_buffer w n buf = record w { buffers = insert ⦃e = T.node_eq⦄ n buf w.buffers }

  abbrev pub drop_buffer : Writeback → NodeId → Writeback
  drop_buffer w n = record w { buffers = erase ⦃e = T.node_eq⦄ n w.buffers }

  abbrev pub seed_from : Writeback → ℕ → Option Str → Result Errno Buffer
  seed_from w now none = err eisdir
  seed_from w now (some text) =
      ok (record { bytes = as_bytes text; base = T.state_frontiers w.doc; last_write = now })

  abbrev pub occupied : Option Buffer → Result Errno Buffer → Result Errno Buffer
  occupied (some buf) seed = ok buf
  occupied none seed = seed

  -- The file's buffer, seeded from the document if absent. The caller writes it back.
  unfoldable pub seeded : Writeback → ℕ → NodeId → Result Errno Buffer
  unfolding Tree.content as_bytes
  seeded w now n = occupied (buffer_of w n) (seed_from w now (Tree.content T w.doc n))

  abbrev pub edit_bytes :
      {A : Type 0}
      → Writeback
      → ℕ
      → NodeId
      → (Bytes → Bytes)
      → A
      → Result Errno Buffer
      → Result Errno A × Writeback
  edit_bytes w now n f a (err e) = (err e, w)
  edit_bytes w now n f a (ok buf) =
      (ok a, put_buffer w n (record buf { bytes = f buf.bytes; last_write = now }))

  abbrev pub spliced :
      Writeback → ℕ → NodeId → Buffer → ℕ → Option Bytes → Option (Result Errno ℕ × Writeback)
  spliced w now n buf count none = none
  spliced w now n buf count (some b) =
      some (ok count, put_buffer w n (record buf { bytes = b; last_write = now }))

  abbrev pub write_in :
      Writeback → ℕ → NodeId → ℕ → Bytes → Result Errno Buffer → Option (Result Errno ℕ × Writeback)
  write_in w now n offset new (err e) = some (err e, w)
  write_in w now n offset new (ok buf) =
      spliced w now n buf (length new % 2 ^ 32) (splice offset new buf.bytes)

  -- `none` is a panic.
  unfoldable pub write : Writeback → ℕ → NodeId → ℕ → Bytes → Option (Result Errno ℕ × Writeback)
  unfolding splice
  write w now n offset new = write_in w now n offset new (seeded w now n)

  unfoldable pub truncate : Writeback → ℕ → NodeId → ℕ → Result Errno (Unit {0}) × Writeback
  unfolding resize
  truncate w now n size = edit_bytes w now n (resize size) tt (seeded w now n)

  abbrev pub applied : Writeback → LoroDoc × Bool → Writeback
  applied w (d, true) = record w { doc = T.commit_doc d; changed = w.changed + 1 }
  applied w (d, false) = record w { doc = d }

  -- The edit of a buffer that was taken out, merged at its base. An edit that does not apply is
  -- dropped.
  unfoldable pub apply : Writeback → NodeId → Buffer → Writeback
  unfolding Tree.set_content_at from_utf8_lossy
  apply w n buf = applied w (Tree.set_content_at T w.doc n (from_utf8_lossy buf.bytes) buf.base)

  abbrev pub commit_buffer : Writeback → NodeId → Option Buffer → Writeback
  commit_buffer w n none = w
  commit_buffer w n (some buf) = apply (drop_buffer w n) n buf

  unfoldable pub commit : Writeback → NodeId → Writeback
  commit w n = commit_buffer w n (buffer_of w n)

  -- The nodes whose last write is long enough ago. An elapsed time stops at 0.
  unfoldable pub stale : ℕ → ℕ → Assoc NodeId Buffer → List NodeId
  stale now ceiling [] = []
  stale now ceiling ((n, buf) ∷ buffers) =
      let rest = stale now ceiling buffers in
      if leb ceiling (now - buf.last_write) then n ∷ rest else rest

  -- The loop of `commit_stale`. A node without a buffer is a panic, `none`.
  unfoldable pub commit_all : Writeback → List NodeId → Option Writeback
  commit_all w [] = some w
  commit_all w (n ∷ nodes) = elim (buffer_of w n) [
    | none ↦ none
    | some buf ↦ commit_all (apply (drop_buffer w n) n buf) nodes
  ]

  unfoldable pub commit_stale : Writeback → ℕ → ℕ → Option Writeback
  unfolding stale commit_all
  commit_stale w now ceiling = commit_all w (stale now ceiling w.buffers)

  abbrev pub read_buffer : Option Buffer → ℕ → ℕ → Option Bytes
  read_buffer none offset size = none
  read_buffer (some buf) offset size = some (read_range offset size buf.bytes)

  unfoldable pub read : Writeback → NodeId → ℕ → ℕ → Option Bytes
  unfolding read_range
  read w n offset size = read_buffer (buffer_of w n) offset size

  abbrev pub buffer_len : Option Buffer → Option ℕ
  buffer_len none = none
  buffer_len (some buf) = some (length buf.bytes)

  unfoldable pub len : Writeback → NodeId → Option ℕ
  len w n = buffer_len (buffer_of w n)

  unfoldable pub discard : Writeback → NodeId → Writeback
  discard w n = drop_buffer w n
