-- ===== src/Mount/Writeback/Session.antt =====
-- crates/eg/src/mount.rs: what a file's writes become when its buffer is committed.
use okayeg.Prelude.{ℕ, Option, none, some, List, [], ◌∷◌, Bytes, Result}
use okayeg.Prelude.Assoc.{Assoc, insert}
use okayeg.Prelude.Options.{◌>>=◌}
use okayeg.TreeDoc.{TreeDoc}
use okayeg.Tree
use okayeg.Mount.Writeback.{Errno, Buffer, Writeback, write, truncate, commit}
use okayeg.Mount.Writeback.Contents.{Edit, writing, truncating}

module _ (T : TreeDoc) (n : T.NodeId) where
  -- What happens while the file is dirty: an edit of it at some time, or a change of the document
  -- from elsewhere.
  pub data Act : Type 0 where
    editing : ℕ → Edit → Act
    becomes : T.LoroDoc → Act

  abbrev wrote : Option (Result Errno ℕ × Writeback T) → Option (Writeback T)
  wrote none = none
  wrote (some (_, w)) = some w

  -- `none` is a panic.
  abbrev pub edit : Writeback T → ℕ → Edit → Option (Writeback T)
  edit w now (writing offset new) = wrote (write T w now n offset new)
  edit w now (truncating size) = some (truncate T w now n size).1

  abbrev pub act : Writeback T → Act → Option (Writeback T)
  act w (editing now e) = edit w now e
  act w (becomes d) = some (record w { doc = d })

  abbrev pub acts : Writeback T → List Act → Option (Writeback T)
  acts w [] = some w
  acts w (a ∷ rest) = act w a >>= λ w1. acts w1 rest

  -- The acts, and a commit at their end.
  abbrev pub acts_committed : Writeback T → List Act → Option (Writeback T)
  acts_committed w done = acts w done >>= λ w1. some (commit T w1 n)

  abbrev pub edits_of : List Act → List Edit
  edits_of [] = []
  edits_of (editing now e ∷ rest) = e ∷ edits_of rest
  edits_of (becomes d ∷ rest) = edits_of rest

  abbrev pub last_doc : T.LoroDoc → List Act → T.LoroDoc
  last_doc d [] = d
  last_doc d (editing now e ∷ rest) = last_doc d rest
  last_doc d (becomes d' ∷ rest) = last_doc d' rest

  abbrev state : T.LoroDoc → ℕ → Assoc T.NodeId (Buffer T) → Writeback T
  state d changed m = record { doc = d; buffers = m; changed = changed }

  -- A state with this buffer for the file, over the buffers `others`.
  abbrev dirty : Assoc T.NodeId (Buffer T) → ℕ → T.LoroDoc → Buffer T → Writeback T
  dirty others changed d buf = record {
    doc = d;
    buffers = insert ⦃e = T.node_eq⦄ n buf others;
    changed = changed;
  }

  abbrev buffer : T.Frontiers → ℕ → Bytes → Buffer T
  buffer base now b = record { bytes = b; base = base; last_write = now }

  module _ (others : Assoc T.NodeId (Buffer T)) (changed : ℕ) where
    -- When the last edit was.
    abbrev last_write : ℕ → List Act → ℕ
    last_write now [] = now
    last_write now (editing later e ∷ rest) = last_write later rest
    last_write now (becomes d ∷ rest) = last_write now rest
