-- ===== src/Tests/Rows.antt =====
-- A tree container that meets the laws of `IsTree`: the nodes as rows, with new numbers that pass
-- every number in use. Nothing is undone, and there is no history.
use okayeg.Prelude.{
  ℕ, suc, ◌+◌, ◌≤◌, ◌<◌, ◌≡◌, refl, ◌∙◌, sym, subst, ap, Bool, true, false, not, ◌&&◌, Option, none,
  some, List, [], ◌∷◌, ◌++◌, Str, Str_eq, ℕ_eq, nat_eq, zero, Bool-cases, inl, inr, length, str_beq,
  err, arith, if◌then◌else◌, contains, some_injective, is_some,
}
use okayeg.Replica.{Replica}
use okayeg.TreeDoc.{
  TreeDoc, TreeParent, node, root, deleted, MetaValue, string, text, IsTree, IsCreated, SameShape,
  child_list, place_eq, in_list, TreeParent_of,
}

-- `place` is `none` once the node is deleted. A node's number is its position.
pub record Row : Type 0 where
  pub place : Option (Option ℕ)
  pub meta : Str → Option MetaValue

abbrev pub Rows : Type 0
Rows = List Row

-- No history: every import is refused.
abbrev pub no_history : Replica
no_history = record {
  LoroDoc = Rows;
  Version = ℕ;
  LoroError = Unit;
  new = [];
  version_eq = ℕ_eq;
  no_version = 0;
  state_vv = λ d. 0;
  encode_vv = λ v. [];
  decode_vv = λ b. err tt;
  export_updates = λ d v. err tt;
  export_snapshot = λ d. err tt;
  import = λ d b. (d, err tt);
  commit_doc = λ d. d;
}

abbrev at_place : Option ℕ → Option (Option ℕ) → Bool
at_place none (some none) = true
at_place (some a) (some (some b)) = nat_eq a b
at_place _ _ = false

-- The numbers of the rows at a place, where the first row has the number `i`.
unfoldable pub listed_from : ℕ → Rows → Option ℕ → List ℕ
listed_from i [] q = []
listed_from i (r ∷ rows) q =
    let rest = listed_from (suc i) rows q in if at_place q r.place then i ∷ rest else rest

unfoldable pub row : Rows → ℕ → Option Row
row [] n = none
row (r ∷ rows) zero = some r
row (r ∷ rows) (suc n) = row rows n

abbrev pub field_of : Str → Option Row → Option MetaValue
field_of k none = none
field_of k (some r) = r.meta k

abbrev above : Option (Option ℕ) → TreeParent ℕ
above none = deleted
above (some none) = root
above (some (some p)) = node p

abbrev pub parent_in : Option Row → Option (TreeParent ℕ)
parent_in none = none
parent_in (some r) = some (above r.place)

abbrev pub written : (Str → Option MetaValue) → Str → MetaValue → Str → Option MetaValue
written meta k v j = if str_beq j k then some v else meta j

unfoldable pub write : Rows → ℕ → Str → MetaValue → Rows
write [] n k v = []
write (r ∷ rows) zero k v = record r { meta = written r.meta k v } ∷ rows
write (r ∷ rows) (suc n) k v = r ∷ write rows n k v

abbrev pub try_write : Rows → ℕ → Str → MetaValue → Option Rows
try_write d n k v = if is_some (row d n) then some (write d n k v) else none

unfoldable pub moved : Rows → ℕ → Option (Option ℕ) → Rows
moved [] n p = []
moved (r ∷ rows) zero p = record r { place = p } ∷ rows
moved (r ∷ rows) (suc n) p = r ∷ moved rows n p

abbrev pub new_row : Option ℕ → Row
new_row p = record { place = some p; meta = λ k. none }

abbrev pub rows_tree : TreeDoc
rows_tree = record {
  replica = no_history;
  NodeId = ℕ;
  node_eq = ℕ_eq;
  Frontiers = Unit;
  roots = λ d. listed_from 0 d none;
  children = λ d n. some (listed_from 0 d (some n));
  parent = λ d n. parent_in (row d n);
  create = λ d p. some (length d, d ++ (new_row p ∷ []));
  mov = λ d n p. some (moved d n (some p));
  delete = λ d n. some (moved d n none);
  is_node_deleted = λ d n. some (not (is_some (row d n)));
  has_meta = λ d n. is_some (row d n);
  meta_get = λ d n k. field_of k (row d n);
  meta_insert = λ d n k v. try_write d n k (string v);
  meta_insert_text = λ d n k. try_write d n k (text []);
  update_text = λ d n k v. try_write d n k (text v);
  state_frontiers = λ d. tt;
  fork_at = λ d f. some d;
}

unlisted_below :
    (i n : ℕ) (rows : Rows) (q : Option ℕ) → n < i → contains (listed_from i rows q) n ≡ false
unfolding listed_from contains
unlisted_below i n [] q h = refl
unlisted_below i n (r ∷ rows) q h = ground (arith, unlisted_below (suc i) n rows q)

unlisted_above :
    (i n : ℕ) (rows : Rows) (q : Option ℕ)
    → i + length rows ≤ n
    → contains (listed_from i rows q) n ≡ false
unfolding listed_from contains
unlisted_above i n [] q h = refl
unlisted_above i n (r ∷ rows) q h = ground (arith, unlisted_above (suc i) n rows q)

above_place : (q : Option ℕ) (p : Option (Option ℕ)) → at_place q p ≡ true → p ≡ some q
above_place none none h = cc
above_place none (some none) h = refl
above_place none (some (some b)) h = cc
above_place (some a) none h = cc
above_place (some a) (some none) h = cc
above_place (some a) (some (some b)) h = ground arith

above_some : (q : Option ℕ) → above (some q) ≡ TreeParent_of rows_tree q
above_some none = refl
above_some (some p) = refl

at_place-some : (q p : Option ℕ) → at_place q (some p) ≡ place_eq rows_tree q p
at_place-some none none = refl
at_place-some none (some p) = refl
at_place-some (some q) none = refl
at_place-some (some q) (some p) = refl

add_suc : (i n : ℕ) → i + suc n ≡ suc i + n
add_suc i n = omega arith

listed-parent :
    (i n : ℕ) (rows : Rows) (q : Option ℕ)
    → contains (listed_from i rows q) (i + n) ≡ true
    → parent_in (row rows n) ≡ some (TreeParent_of rows_tree q)
unfolding listed_from row contains
listed-parent i n [] q h = cc
listed-parent i zero (r ∷ rows) q h = elim (Bool-cases (at_place q r.place)) [
  | inl here ↦ ap (λ x. some (above x)) (above_place q r.place here) ∙ ap some (above_some q)
  | inr there ↦ ground (arith, unlisted_below (suc i) (i + 0) rows q)
]
listed-parent i (suc n) (r ∷ rows) q h = elim (Bool-cases (at_place q r.place)) [
  | inl here ↦ listed-parent (suc i) n rows q (ground arith)
  | inr there ↦ listed-parent (suc i) n rows q (ground arith)
]

listed-append :
    (i : ℕ) (rows : Rows) (p q : Option ℕ)
    → listed_from i (rows ++ (new_row p ∷ [])) q ≡ (
        if place_eq rows_tree q p
        then listed_from i rows q ++ ((i + length rows) ∷ [])
        else listed_from i rows q)
unfolding listed_from
listed-append i [] p q = ground (arith, at_place-some q p)
listed-append i (r ∷ rows) p q =
    ground (arith, listed-append (suc i) rows p q, add_suc i (length rows))

row-append :
    (rows : Rows) (p : Option ℕ) (n : ℕ) (k : Str)
    → field_of k (row (rows ++ (new_row p ∷ [])) n) ≡ field_of k (row rows n)
unfolding row
row-append [] p zero k = refl
row-append [] p (suc n) k = refl
row-append (r ∷ rows) p zero k = refl
row-append (r ∷ rows) p (suc n) k = row-append rows p n k

row-above : (rows : Rows) (k : Str) → field_of k (row rows (length rows)) ≡ none
unfolding row
row-above [] k = refl
row-above (r ∷ rows) k = row-above rows k

has_row-append :
    (rows : Rows) (p : Option ℕ) → is_some (row (rows ++ (new_row p ∷ [])) (length rows)) ≡ true
unfolding row
has_row-append [] p = refl
has_row-append (r ∷ rows) p = has_row-append rows p

child_list-rows : (d : Rows) (q : Option ℕ) → child_list rows_tree d q ≡ listed_from 0 d q
child_list-rows d none = refl
child_list-rows d (some q) = refl

rows-IsCreated :
    (d : Rows) (p : Option ℕ) → IsCreated rows_tree d p (length d) (d ++ (new_row p ∷ []))
rows-IsCreated d p = record {
  new_children = λ q. ground (
    arith,
    child_list-rows d q,
    child_list-rows (d ++ (new_row p ∷ [])) q,
    listed-append 0 d p q,
  );
  new_unlisted = λ q. rw child_list-rows (unlisted_above 0 (length d) d q (omega arith));
  new_meta = λ m k. row-append d p m k;
  new_no_meta = λ k. row-above d k;
  new_has_meta = has_row-append d p;
}

write-listed :
    (i : ℕ) (rows : Rows) (n : ℕ) (k : Str) (v : MetaValue) (q : Option ℕ)
    → listed_from i (write rows n k v) q ≡ listed_from i rows q
unfolding listed_from write
write-listed i [] n k v q = refl
write-listed i (r ∷ rows) zero k v q = refl
write-listed i (r ∷ rows) (suc n) k v q = ground (arith, write-listed (suc i) rows n k v q)

write-parent :
    (rows : Rows) (n m : ℕ) (k : Str) (v : MetaValue)
    → parent_in (row (write rows n k v) m) ≡ parent_in (row rows m)
unfolding row write
write-parent [] n m k v = refl
write-parent (r ∷ rows) zero zero k v = refl
write-parent (r ∷ rows) zero (suc m) k v = refl
write-parent (r ∷ rows) (suc n) zero k v = refl
write-parent (r ∷ rows) (suc n) (suc m) k v = write-parent rows n m k v

write-has :
    (rows : Rows) (n m : ℕ) (k : Str) (v : MetaValue)
    → is_some (row (write rows n k v) m) ≡ is_some (row rows m)
unfolding row write
write-has [] n m k v = refl
write-has (r ∷ rows) zero zero k v = refl
write-has (r ∷ rows) zero (suc m) k v = refl
write-has (r ∷ rows) (suc n) zero k v = refl
write-has (r ∷ rows) (suc n) (suc m) k v = write-has rows n m k v

write-field :
    (rows : Rows) (n m : ℕ) (k j : Str) (v : MetaValue)
    → is_some (row rows n) ≡ true
    → field_of j (row (write rows n k v) m)
      ≡ (if nat_eq m n && str_beq j k then some v else field_of j (row rows m))
unfolding row write
write-field [] n m k j v h = cc
write-field (r ∷ rows) zero zero k j v h = refl
write-field (r ∷ rows) zero (suc m) k j v h = ground arith
write-field (r ∷ rows) (suc n) zero k j v h = ground arith
write-field (r ∷ rows) (suc n) (suc m) k j v h = ground (arith, write-field rows n m k j v h)

listed_zero :
    (d : Rows) (q : Option ℕ) (n : ℕ)
    → in_list rows_tree (child_list rows_tree d q) n ≡ true
    → contains (listed_from 0 d q) (0 + n) ≡ true
listed_zero d q n h = ground (arith, child_list-rows d q)

write-SameShape :
    (d : Rows) (n : ℕ) (k : Str) (v : MetaValue) → SameShape rows_tree d (write d n k v)
write-SameShape d n k v = record {
  same_children =
      λ q. child_list-rows (write d n k v) q ∙ write-listed 0 d n k v q ∙ sym (child_list-rows d q);
  same_parent = λ m. write-parent d n m k v;
  same_has_meta = λ m. write-has d n m k v;
}

-- A write that succeeds is of a known node, and gives these rows.
try_write-inv :
    (d : Rows) (n : ℕ) (k : Str) (v : MetaValue) (d' : Rows)
    → try_write d n k v ≡ some d'
    → (is_some (row d n) ≡ true) × (write d n k v ≡ d')
try_write-inv d n k v d' h = ground arith

try_write-total :
    (d : Rows) (n : ℕ) (k : Str) (v : MetaValue)
    → is_some (row d n) ≡ true
    → (d' : Rows) × (try_write d n k v ≡ some d')
try_write-total d n k v h = (write d n k v, ground arith)

try_write-SameShape :
    (d : Rows) (n : ℕ) (k : Str) (v : MetaValue) (d' : Rows)
    → try_write d n k v ≡ some d'
    → SameShape rows_tree d d'
try_write-SameShape d n k v d' h =
    subst (SameShape rows_tree d) (try_write-inv d n k v d' h).1 (write-SameShape d n k v)

try_write-field :
    (d : Rows) (n : ℕ) (k : Str) (v : MetaValue) (d' : Rows)
    → try_write d n k v ≡ some d'
    → (m : ℕ) (j : Str)
    → field_of j (row d' m) ≡ (if nat_eq m n && str_beq j k then some v else field_of j (row d m))
try_write-field d n k v d' h m j =
    let (known, e) = try_write-inv d n k v d' h in
    subst
      (λ (x : Rows).
        field_of j (row x m) ≡ (if nat_eq m n && str_beq j k then some v else field_of j (row d m)))
      e (write-field d n m k j v known)

pub rows-IsTree : IsTree rows_tree
rows-IsTree = record {
  create_lem = λ d p n d' h.
      subst (λ (r : ℕ × Rows). IsCreated rows_tree d p r.0 r.1) (some_injective h)
        (rows-IsCreated d p);
  insert_total = λ d n k v. try_write-total d n k (string v);
  insert_shape = λ d n k v. try_write-SameShape d n k (string v);
  insert_meta = λ d n k v. try_write-field d n k (string v);
  insert_text_total = λ d n k. try_write-total d n k (text []);
  insert_text_shape = λ d n k. try_write-SameShape d n k (text []);
  insert_text_meta = λ d n k. try_write-field d n k (text []);
  parent_of_child = λ d q n h. listed-parent 0 n d q (listed_zero d q n h);
}
