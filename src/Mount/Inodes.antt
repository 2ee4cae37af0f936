-- ===== src/Mount/Inodes.antt =====
-- crates/eg/src/mount.rs: `Inodes`, the numbers by which the kernel knows the nodes. The counter is
-- a `u64` that only a node seen for the first time advances, so it is not taken to wrap.
pub mod Table
use okayeg.Prelude.{ℕ, ◌+◌, Option, none, some, [], Eq, ℕ_eq}
use okayeg.Prelude.Assoc.{Assoc, lookup, insert}

pub record Inodes (N : Type 0) : Type 0 where
  pub by_ino : Assoc ℕ N
  pub by_node : Assoc N ℕ
  pub next : ℕ

abbrev pub root_ino : ℕ
root_ino = 1

unfoldable pub new : {N : Type 0} → Inodes N
new = record { by_ino = []; by_node = []; next = 2 }

module _ {N : Type 0} ⦃e : Eq N⦄ where
  abbrev pub assigned : Inodes N → N → Option ℕ → ℕ × Inodes N
  assigned t node (some ino) = (ino, t)
  assigned t node none = (
    t.next,
    record {
      by_ino = insert t.next node t.by_ino;
      by_node = insert node t.next t.by_node;
      next = t.next + 1;
    },
  )

  -- The number of a node, a new one at first sight.
  unfoldable pub ino : Inodes N → N → ℕ × Inodes N
  ino t node = assigned t node (lookup node t.by_node)

  unfoldable pub existing : Inodes N → N → Option ℕ
  existing t node = lookup node t.by_node

  unfoldable pub node : Inodes N → ℕ → Option N
  node t ino = lookup ino t.by_ino
