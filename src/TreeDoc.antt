-- ===== src/TreeDoc.antt =====
-- What crates/okayeg uses of the tree container "files" of a Loro document. Loro is not in the
-- repository, so the container is a record of operations, with its documented behaviour as laws.
use okayeg.Prelude.{
  ◌≡◌, Bool, true, false, ◌&&◌, Option, none, some, List, [], ◌∷◌, ◌++◌, Str, Eq, ◌==◌, Str_eq,
  contains, if◌then◌else◌,
}
use okayeg.Replica.{Replica}

-- `TreeParentId`
pub data TreeParent (N : Type 0) : Type 0 where
  node : N → TreeParent N
  root deleted unexist : TreeParent N

-- What a key of a node's metadata map holds: a string, a text container with its current text, or
-- something else.
pub data MetaValue : Type 0 where
  string : Str → MetaValue
  text : Str → MetaValue
  other : MetaValue

pub record TreeDoc : Type 1 where
  pub replica : Replica
  pub open replica use *
  pub NodeId : Type 0
  pub node_eq : Eq NodeId
  pub Frontiers : Type 0
  pub roots : LoroDoc → List NodeId
  pub children : LoroDoc → NodeId → Option (List NodeId)
  pub parent : LoroDoc → NodeId → Option (TreeParent NodeId)
  -- An operation that Loro refuses is `none`.
  pub create : LoroDoc → Option NodeId → Option (NodeId × LoroDoc)
  pub mov : LoroDoc → NodeId → Option NodeId → Option LoroDoc
  pub delete : LoroDoc → NodeId → Option LoroDoc
  pub is_node_deleted : LoroDoc → NodeId → Option Bool
  -- `get_meta(node).is_ok()`, and `get` and `insert` on that map; without a map `get` is `none`
  pub has_meta : LoroDoc → NodeId → Bool
  pub meta_get : LoroDoc → NodeId → Str → Option MetaValue
  pub meta_insert : LoroDoc → NodeId → Str → Str → Option LoroDoc
  -- `insert_container(key, LoroText::new())`
  pub meta_insert_text : LoroDoc → NodeId → Str → Option LoroDoc
  -- `LoroText::update` on the text container under the key
  pub update_text : LoroDoc → NodeId → Str → Str → Option LoroDoc
  pub state_frontiers : LoroDoc → Frontiers
  pub fork_at : LoroDoc → Frontiers → Option LoroDoc

abbrev pub or_empty : {A : Type 0} → Option (List A) → List A
or_empty none = []
or_empty (some l) = l

module _ (T : TreeDoc) where
  -- The nodes under a node, or at the top level.
  abbrev pub child_list : T.LoroDoc → Option T.NodeId → List T.NodeId
  child_list d none = T.roots d
  child_list d (some n) = or_empty (T.children d n)

  abbrev pub place_eq : Option T.NodeId → Option T.NodeId → Bool
  place_eq none none = true
  place_eq (some a) (some b) = T.node_eq.eq a b
  place_eq _ _ = false

  abbrev pub in_list : List T.NodeId → T.NodeId → Bool
  in_list l n = contains ⦃e = T.node_eq⦄ l n

  abbrev pub TreeParent_of : Option T.NodeId → TreeParent T.NodeId
  TreeParent_of none = root
  TreeParent_of (some p) = node p

  -- A write to the metadata leaves the shape of the tree alone.
  pub record SameShape (d d' : T.LoroDoc) : Type 0 where
    pub same_children : (q : Option T.NodeId) → child_list d' q ≡ child_list d q
    pub same_parent : (n : T.NodeId) → T.parent d' n ≡ T.parent d n
    pub same_has_meta : (n : T.NodeId) → T.has_meta d' n ≡ T.has_meta d n

  -- A new node is the last child of its place, is known nowhere before, and has an empty map.
  pub record IsCreated (d : T.LoroDoc) (place : Option T.NodeId) (n : T.NodeId) (d' : T.LoroDoc)
      : Type 0 where
    pub new_children :
        (q : Option T.NodeId)
        → child_list d' q
          ≡ (if place_eq q place then child_list d q ++ (n ∷ []) else child_list d q)
    pub new_unlisted : (q : Option T.NodeId) → in_list (child_list d q) n ≡ false
    pub new_meta : (m : T.NodeId) (k : Str) → T.meta_get d' m k ≡ T.meta_get d m k
    pub new_no_meta : (k : Str) → T.meta_get d n k ≡ none
    pub new_has_meta : T.has_meta d' n ≡ true

  pub record IsTree : Type 0 where
    pub create_lem :
        (d : T.LoroDoc) (place : Option T.NodeId) (n : T.NodeId) (d' : T.LoroDoc)
        → T.create d place ≡ some (n, d')
        → IsCreated d place n d'
    pub insert_total :
        (d : T.LoroDoc) (n : T.NodeId) (k v : Str)
        → T.has_meta d n ≡ true
        → (d' : T.LoroDoc) × (T.meta_insert d n k v ≡ some d')
    pub insert_shape :
        (d : T.LoroDoc) (n : T.NodeId) (k v : Str) (d' : T.LoroDoc)
        → T.meta_insert d n k v ≡ some d'
        → SameShape d d'
    pub insert_meta :
        (d : T.LoroDoc) (n : T.NodeId) (k v : Str) (d' : T.LoroDoc)
        → T.meta_insert d n k v ≡ some d'
        → (m : T.NodeId) (j : Str)
        → T.meta_get d' m j
          ≡ (if T.node_eq.eq m n && j == k then some (string v) else T.meta_get d m j)
    pub insert_text_total :
        (d : T.LoroDoc) (n : T.NodeId) (k : Str)
        → T.has_meta d n ≡ true
        → (d' : T.LoroDoc) × (T.meta_insert_text d n k ≡ some d')
    pub insert_text_shape :
        (d : T.LoroDoc) (n : T.NodeId) (k : Str) (d' : T.LoroDoc)
        → T.meta_insert_text d n k ≡ some d'
        → SameShape d d'
    pub insert_text_meta :
        (d : T.LoroDoc) (n : T.NodeId) (k : Str) (d' : T.LoroDoc)
        → T.meta_insert_text d n k ≡ some d'
        → (m : T.NodeId) (j : Str)
        → T.meta_get d' m j
          ≡ (if T.node_eq.eq m n && j == k then some (text []) else T.meta_get d m j)
    -- The parent of a listed child is the place that lists it.
    pub parent_of_child :
        (d : T.LoroDoc) (place : Option T.NodeId) (n : T.NodeId)
        → in_list (child_list d place) n ≡ true
        → T.parent d n ≡ some (TreeParent_of place)
