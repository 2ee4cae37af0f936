-- ===== src/Mount/Inodes/Table.antt =====
-- crates/eg/src/mount.rs: the two maps of `Inodes` stay inverse to each other.
use okayeg.Prelude.{
  ℕ, ◌<◌, ◌≡◌, ◌∙◌, refl, ap, true, Option, none, some, Eq, ℕ_eq, nat_eq, none_is_not_some, List,
  [], ◌∷◌, arith, if◌then◌else◌,
}
use okayeg.Prelude.Assoc.{lookup, insert, lookup-insert}
use okayeg.Mount.Inodes.{Inodes, root_ino, new, assigned, ino, existing, node}

module _ {N : Type 0} ⦃e : Eq N⦄ where
  -- The maps are inverse to each other, and their numbers lie behind the root's and below the
  -- counter.
  pub record IsTable (t : Inodes N) : Type 0 where
    pub to_node : (n : N) (i : ℕ) → lookup n t.by_node ≡ some i → lookup i t.by_ino ≡ some n
    pub to_ino : (n : N) (i : ℕ) → lookup i t.by_ino ≡ some n → lookup n t.by_node ≡ some i
    pub above_root : (n : N) (i : ℕ) → lookup n t.by_node ≡ some i → root_ino < i
    pub below_next : (n : N) (i : ℕ) → lookup n t.by_node ≡ some i → i < t.next
    pub next_above : root_ino < t.next

  pub new-IsTable : IsTable new
  unfolding new lookup
  new-IsTable = record {
    to_node = λ n i h. cc;
    to_ino = λ n i h. cc;
    above_root = λ n i h. elim (none_is_not_some h) [ ];
    below_next = λ n i h. elim (none_is_not_some h) [ ];
    next_above = omega arith;
  }

  module _ (t : Inodes N) (table : IsTable t) (fresh : N)
      (unseen : lookup fresh t.by_node ≡ none) where
    by_ino-step :
        (i : ℕ)
        → lookup i (insert t.next fresh t.by_ino)
          ≡ (if nat_eq i t.next then some fresh else lookup i t.by_ino)
    by_ino-step i = lookup-insert i t.next fresh t.by_ino

    unknown : (i : ℕ) (n : N) → lookup i t.by_ino ≡ some n → i < t.next
    unknown i n h = table.below_next n i (table.to_ino n i h)

    fresh_eq : (n : N) → e.eq n fresh ≡ true → lookup n t.by_node ≡ none
    fresh_eq n h = ap (λ (m : N). lookup m t.by_node) ((e.eq_iff n fresh).0 h) ∙ unseen

    assigned-IsTable : IsTable (assigned t fresh none).1
    assigned-IsTable = record {
      to_node = λ n i h. ground (
        arith,
        h,
        by_ino-step i,
        lookup-insert n fresh t.next t.by_node,
        e.eq_iff n fresh,
        table.to_node n i,
        table.below_next n i,
      );
      to_ino = λ n i h. ground (
        arith,
        h,
        by_ino-step i,
        lookup-insert n fresh t.next t.by_node,
        e.eq_iff n fresh,
        table.to_ino n i,
        fresh_eq n,
      );
      above_root = λ n i h. ground (
        arith,
        h,
        lookup-insert n fresh t.next t.by_node,
        table.above_root n i,
        table.next_above,
      );
      below_next =
          λ n i h. ground (arith, h, lookup-insert n fresh t.next t.by_node, table.below_next n i);
      next_above = omega (arith, table.next_above);
    }

    -- What was known stays known.
    assigned-keeps :
        (n : N) (i : ℕ)
        → lookup i t.by_ino ≡ some n
        → lookup i (assigned t fresh none).1.by_ino ≡ some n
    assigned-keeps n i h = ground (arith, h, by_ino-step i, unknown i n h)

    assigned-new : lookup t.next (assigned t fresh none).1.by_ino ≡ some fresh
    assigned-new = ground (arith, by_ino-step t.next)

  -- The table after one sight of a node.
  pub record Sees (t : Inodes N) (n : N) (r : ℕ × Inodes N) : Type 0 where
    pub table : IsTable r.1
    pub given : lookup r.0 r.1.by_ino ≡ some n
    pub keeps : (m : N) (i : ℕ) → lookup i t.by_ino ≡ some m → lookup i r.1.by_ino ≡ some m

  assigned-Sees :
      (t : Inodes N) (n : N) (o : Option ℕ)
      → IsTable t
      → lookup n t.by_node ≡ o
      → Sees t n (assigned t n o)
  assigned-Sees t n none table h = record {
    table = assigned-IsTable t table n h;
    given = assigned-new t table n h;
    keeps = assigned-keeps t table n h;
  }
  assigned-Sees t n (some i) table h = record {
    table = table;
    given = table.to_node n i h;
    keeps = λ m j k. k;
  }

  pub ino-Sees : (t : Inodes N) (n : N) → IsTable t → Sees t n (ino t n)
  unfolding ino
  ino-Sees t n table = assigned-Sees t n (lookup n t.by_node) table refl

  -- The table after nodes were looked up one after the other.
  unfoldable pub seen : Inodes N → List N → Inodes N
  seen t [] = t
  seen t (n ∷ ns) = seen (ino t n).1 ns

  seen-IsTable : (ns : List N) (t : Inodes N) → IsTable t → IsTable (seen t ns)
  unfolding seen
  seen-IsTable [] t table = table
  seen-IsTable (n ∷ ns) t table = seen-IsTable ns (ino t n).1 ((ino-Sees t n table).table)

  seen-keeps :
      (ns : List N) (t : Inodes N) (m : N) (i : ℕ)
      → IsTable t
      → lookup i t.by_ino ≡ some m
      → lookup i (seen t ns).by_ino ≡ some m
  unfolding seen
  seen-keeps [] t m i table h = h
  seen-keeps (n ∷ ns) t m i table h =
      let sees = ino-Sees t n table in seen-keeps ns (ino t n).1 m i sees.table (sees.keeps m i h)

  -- Whatever nodes are seen before and after, the number that a node is given at its first sight
  -- stays its number, is the number of no other node, and is not the root's.
  pub numbers_stay :
      (ns ms : List N) (n : N)
      → let (i, t) = ino (seen new ns) n in
        (node (seen t ms) i ≡ some n) × (existing (seen t ms) n ≡ some i) × (root_ino < i)
  unfolding node existing
  numbers_stay ns ms n =
      let sees = ino-Sees (seen new ns) n (seen-IsTable ns new new-IsTable) in
      let (i, t) = ino (seen new ns) n in
      let later : IsTable (seen t ms) = seen-IsTable ms t sees.table in
      let here : lookup i (seen t ms).by_ino ≡ some n = seen-keeps ms t n i sees.table sees.given in
      let there = later.to_ino n i here in (here, there, later.above_root n i there)
