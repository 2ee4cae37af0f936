-- ===== src/Tree.antt =====
-- crates/okayeg/src/tree.rs: the file tree held in a doc. A `FileTree` is a view of its doc, so
-- each operation takes the Loro document and, if it writes, returns the new one. A call that
-- panics (`expect` on an error of Loro) is `none`.
pub mod Created
use okayeg.Prelude.{
  ap, sym, ◌∙◌, ◌↔◌, some_injective, none_is_not_some, str_beq_iff, ℕ, zero, suc, ◌≡◌, refl, Bool,
  true, false, not, Option, none, some, List, [], ◌∷◌, ◌++◌, reverse, Str, lit, ◌==◌, Str_eq, ok,
  err, if◌then◌else◌, is_some,
}
use okayeg.Prelude.Options.{◌>>=◌}
use okayeg.TreeDoc.{TreeDoc, MetaValue, string, text, or_empty}

pub data NodeKind : Type 0 where
  file dir boundary : NodeKind

unfoldable pub as_str : NodeKind → Str
as_str file = lit "file"
as_str dir = lit "dir"
as_str boundary = lit "boundary"

unfoldable pub from_str : Str → Option NodeKind
from_str s =
    if s == lit "file"
    then some file
    else if s == lit "dir"
    then some dir
    else if s == lit "boundary"
    then some boundary
    else none

abbrev pub is_dir : Option NodeKind → Bool
is_dir (some dir) = true
is_dir _ = false

pub >>=-eq-some {ℓ κ} :
    {A : Type ℓ} {B : Type κ} (m : Option A) (f : A → Option B) {b : B}
    → (m >>= f) ≡ some b
    → (a : A) × (m ≡ some a) × (f a ≡ some b)
>>=-eq-some none f h = cc
>>=-eq-some (some a) f h = (a, refl, h)

-- `as_value()?.as_string()?`
abbrev as_string : MetaValue → Option Str
as_string (string s) = some s
as_string _ = none

-- `into_container().ok()?.into_text().ok()`, with the text that it holds
abbrev as_text : MetaValue → Option Str
as_text (text s) = some s
as_text _ = none

module _ (T : TreeDoc) where
  open T use {LoroDoc, NodeId, Frontiers}

  unfoldable pub string_field : LoroDoc → NodeId → Str → Option Str
  string_field d node key = do value ← T.meta_get d node key; as_string value

  unfoldable pub kind : LoroDoc → NodeId → Option NodeKind
  unfolding string_field from_str
  kind d node = do s ← string_field d node (lit "kind"); from_str s

  unfoldable pub name : LoroDoc → NodeId → Option Str
  unfolding string_field
  name d node = string_field d node (lit "name")

  -- The text that the handle reads.
  unfoldable pub content : LoroDoc → NodeId → Option Str
  content d node = do value ← T.meta_get d node (lit "content"); as_text value

  unfoldable pub reference : LoroDoc → NodeId → Option Str
  unfolding string_field
  reference d node = string_field d node (lit "ref")

  unfoldable pub children : LoroDoc → NodeId → List NodeId
  children d parent = or_empty (T.children d parent)

  unfoldable pub create_node : LoroDoc → Option NodeId → Str → NodeKind → Option (NodeId × LoroDoc)
  unfolding as_str
  create_node d parent name kind = do
    (node, d1) ← T.create d parent
    d2 ← T.meta_insert d1 node (lit "name") name
    d3 ← T.meta_insert d2 node (lit "kind") (as_str kind)
    some (node, d3)

  unfoldable pub create_file : LoroDoc → Option NodeId → Str → Option (NodeId × LoroDoc)
  unfolding create_node
  create_file d parent name = do
    (node, d1) ← create_node d parent name file
    d2 ← T.meta_insert_text d1 node (lit "content")
    some (node, d2)

  unfoldable pub create_dir : LoroDoc → Option NodeId → Str → Option (NodeId × LoroDoc)
  unfolding create_node
  create_dir d parent name = create_node d parent name dir

  unfoldable pub create_boundary : LoroDoc → Option NodeId → Str → Str → Option (NodeId × LoroDoc)
  unfolding create_node
  create_boundary d parent name reference = do
    (node, d1) ← create_node d parent name boundary
    d2 ← T.meta_insert d1 node (lit "ref") reference
    some (node, d2)

  unfoldable pub mov : LoroDoc → NodeId → Option NodeId → Option LoroDoc
  mov d node new_parent = T.mov d node new_parent

  -- A node without a metadata map is left alone.
  unfoldable pub rename : LoroDoc → NodeId → Str → Option LoroDoc
  rename d node name = if T.has_meta d node then T.meta_insert d node (lit "name") name else some d

  unfoldable pub delete : LoroDoc → NodeId → Option LoroDoc
  delete d node = T.delete d node

  abbrev or_same : LoroDoc → Option LoroDoc → LoroDoc
  or_same d none = d
  or_same d (some d') = d'

  -- An error of the update is ignored.
  unfoldable pub set_content : LoroDoc → NodeId → Str → LoroDoc × Bool
  unfolding content
  set_content d node new =
      if is_some (content d node)
      then (or_same d (T.update_text d node (lit "content") new), true)
      else (d, false)

  -- The last step of `set_content_at`: the fork's new updates, imported.
  abbrev merge_fork : LoroDoc → LoroDoc → LoroDoc × Bool
  merge_fork d fork = elim (T.export_updates (T.commit_doc fork) (T.state_vv d)) [
    | err _ ↦ (d, false)
    | ok u ↦ let (d', status) = T.import d u in (d', elim status [ ok _ ↦ true | err _ ↦ false ])
  ]

  unfoldable pub set_content_at : LoroDoc → NodeId → Str → Frontiers → LoroDoc × Bool
  unfolding content
  set_content_at d node new base =
      let edited : Option LoroDoc = T.fork_at d base >>= λ fork.
      content fork node >>= λ old. T.update_text fork node (lit "content") new in
      elim edited [ none ↦ (d, false) | some fork ↦ merge_fork d fork ]

  unfoldable pub content_at : LoroDoc → NodeId → Frontiers → Option Str
  unfolding content
  content_at d node base = do fork ← T.fork_at d base; content fork node

  unfoldable pub alive : LoroDoc → NodeId → Bool
  alive d node = elim (T.is_node_deleted d node) [ none ↦ false | some gone ↦ not gone ]

  -- The stack is kept with its top first: `extend` puts the last child on top.
  unfoldable pub walk_stack : ℕ → LoroDoc → List NodeId → Option (List (NodeId × Option NodeKind))
  walk_stack zero d stack = none
  walk_stack (suc fuel) d [] = some []
  walk_stack (suc fuel) d (node ∷ stack) =
      let k = kind d node in
      let rest =
        walk_stack fuel d (if is_dir k then reverse (children d node) ++ stack else stack) in
      elim rest [ none ↦ none | some out ↦ some ((node, k) ∷ out) ]

  -- `none` is a run out of fuel, the number of rounds of the loop.
  unfoldable pub walk : ℕ → LoroDoc → List NodeId → Option (List (NodeId × Option NodeKind))
  unfolding walk_stack
  walk fuel d roots = walk_stack fuel d (reverse roots)

test_of : NodeKind → Bool → Bool → Bool → Bool
test_of file x y z = x
test_of dir x y z = y
test_of boundary x y z = z

chosen :
    (x y z : Bool) (k : NodeKind)
    → (if x then some file else if y then some dir else if z then some boundary else none) ≡ some k
    → test_of k x y z ≡ true
unfolding test_of
chosen true y z k h = ap (λ j. test_of j true y z) (sym (some_injective h))
chosen false true z k h = ap (λ j. test_of j false true z) (sym (some_injective h))
chosen false false true k h = ap (λ j. test_of j false false true) (sym (some_injective h))
chosen false false false k h = elim (none_is_not_some h) [ ]

from_str-inv : (s : Str) (k : NodeKind) → from_str s ≡ some k → s ≡ as_str k
unfolding from_str as_str test_of
from_str-inv s file h = (str_beq_iff s (lit "file")).0 (chosen _ _ _ file h)
from_str-inv s dir h = (str_beq_iff s (lit "dir")).0 (chosen _ _ _ dir h)
from_str-inv s boundary h = (str_beq_iff s (lit "boundary")).0 (chosen _ _ _ boundary h)

pub from_str-as_str : (k : NodeKind) → from_str (as_str k) ≡ some k
unfolding from_str as_str
from_str-as_str file = refl
from_str-as_str dir = refl
from_str-as_str boundary = refl

-- A text reads as a kind exactly if it is the name of this kind.
pub from_str_iff : (s : Str) (k : NodeKind) → (from_str s ≡ some k) ↔ (s ≡ as_str k)
from_str_iff s k = (from_str-inv s k, λ h. ap from_str h ∙ from_str-as_str k)
