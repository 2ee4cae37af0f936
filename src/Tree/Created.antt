-- ===== src/Tree/Created.antt =====
-- crates/okayeg/src/tree.rs: what the creation of a node changes.
use okayeg.Prelude.{
  ◌≡◌, ◌∙◌, subst, some_injective, false, Option, none, some, [], ◌∷◌, ◌++◌, Str, lit, Str_eq,
  arith, if◌then◌else◌,
}
use okayeg.TreeDoc.{TreeDoc, IsTree, child_list, in_list, place_eq}
use okayeg.Tree.{
  NodeKind, file, dir, as_str, from_str-as_str, name, kind, content, create_node, create_file,
  create_dir, >>=-eq-some,
}

module _ (T : TreeDoc) where
  -- The tree has one node more: a child of `place`, listed last.
  pub record Adds (d : T.LoroDoc) (place : Option T.NodeId) (nm : Str) (k : NodeKind)
      (text : Option Str) (n : T.NodeId) (d' : T.LoroDoc) : Type 0 where
    pub added_children :
        (q : Option T.NodeId)
        → child_list T d' q
          ≡ (if place_eq T q place then child_list T d q ++ (n ∷ []) else child_list T d q)
    pub added_unlisted : (q : Option T.NodeId) → in_list T (child_list T d q) n ≡ false
    pub added_name :
        (m : T.NodeId) → name T d' m ≡ (if T.node_eq.eq m n then some nm else name T d m)
    pub added_kind :
        (m : T.NodeId) → kind T d' m ≡ (if T.node_eq.eq m n then some k else kind T d m)
    pub added_content :
        (m : T.NodeId) → content T d' m ≡ (if T.node_eq.eq m n then text else content T d m)

  module _ (L : IsTree T) (d d1 d2 d3 : T.LoroDoc) (place : Option T.NodeId) (nm : Str)
      (k : NodeKind) (n : T.NodeId) (made : T.create d place ≡ some (n, d1))
      (names : T.meta_insert d1 n (lit "name") nm ≡ some d2)
      (kinds : T.meta_insert d2 n (lit "kind") (as_str k) ≡ some d3) where
    node-Adds : Adds d place nm k none n d3
    unfolding name kind content
    node-Adds =
        let c = L.create_lem d place n d1 made in
        let s2 = L.insert_shape d1 n (lit "name") nm d2 names in
        let s3 = L.insert_shape d2 n (lit "kind") (as_str k) d3 kinds in
        let m2 = L.insert_meta d1 n (lit "name") nm d2 names in
        let m3 = L.insert_meta d2 n (lit "kind") (as_str k) d3 kinds in
        record {
          added_children = λ q. s3.same_children q ∙ s2.same_children q ∙ c.new_children q;
          added_unlisted = c.new_unlisted;
          added_name =
              λ m. ground (arith, m3 m (lit "name"), m2 m (lit "name"), c.new_meta m (lit "name"));
          added_kind = λ m. ground (
            arith,
            m3 m (lit "kind"),
            m2 m (lit "kind"),
            c.new_meta m (lit "kind"),
            from_str-as_str k,
          );
          added_content = λ m. ground (
            arith,
            m3 m (lit "content"),
            m2 m (lit "content"),
            c.new_meta m (lit "content"),
            c.new_no_meta (lit "content"),
            T.node_eq.eq_iff m n,
          );
        }

  -- The three calls that make a node, and the node that they return.
  Makes : T.LoroDoc → Option T.NodeId → Str → NodeKind → T.NodeId × T.LoroDoc → Type 0
  Makes d place nm k (n, d3) =
      (d1 : T.LoroDoc) × (d2 : T.LoroDoc) × (T.create d place ≡ some (n, d1))
      × (T.meta_insert d1 n (lit "name") nm ≡ some d2)
      × (T.meta_insert d2 n (lit "kind") (as_str k) ≡ some d3)

  create_node-Makes :
      (d : T.LoroDoc) (place : Option T.NodeId) (nm : Str) (k : NodeKind) (r : T.NodeId × T.LoroDoc)
      → create_node T d place nm k ≡ some r
      → Makes d place nm k r
  unfolding create_node Makes
  create_node-Makes d place nm k r h =
      let ((n, d1), e1, h1) = >>=-eq-some (T.create d place) _ h in
      let (d2, e2, h2) = >>=-eq-some (T.meta_insert d1 n (lit "name") nm) _ h1 in
      let (d3, e3, h3) = >>=-eq-some (T.meta_insert d2 n (lit "kind") (as_str k)) _ h2 in
      subst (Makes d place nm k) (some_injective h3) (d1, d2, e1, e2, e3)

  module _ (L : IsTree T) where
    create_node-Adds :
        (d : T.LoroDoc) (place : Option T.NodeId) (nm : Str) (k : NodeKind) (n : T.NodeId)
        (d' : T.LoroDoc)
        → create_node T d place nm k ≡ some (n, d')
        → Adds d place nm k none n d'
    unfolding Makes
    create_node-Adds d place nm k n d' h =
        let (d1, d2, e1, e2, e3) = create_node-Makes d place nm k (n, d') h in
        node-Adds L d d1 d2 d' place nm k n e1 e2 e3

    pub create_dir-Adds :
        (d : T.LoroDoc) (place : Option T.NodeId) (nm : Str) (n : T.NodeId) (d' : T.LoroDoc)
        → create_dir T d place nm ≡ some (n, d')
        → Adds d place nm dir none n d'
    unfolding create_dir
    create_dir-Adds d place nm n d' h = create_node-Adds d place nm dir n d' h

    insert_text-Adds :
        (d d1 d' : T.LoroDoc) (place : Option T.NodeId) (nm : Str) (n : T.NodeId)
        → Adds d place nm file none n d1
        → T.meta_insert_text d1 n (lit "content") ≡ some d'
        → Adds d place nm file (some []) n d'
    unfolding name kind content
    insert_text-Adds d d1 d' place nm n a e =
        let s = L.insert_text_shape d1 n (lit "content") d' e in
        let w = L.insert_text_meta d1 n (lit "content") d' e in
        record {
          added_children = λ q. s.same_children q ∙ a.added_children q;
          added_unlisted = a.added_unlisted;
          added_name = λ m. ground (arith, w m (lit "name"), a.added_name m);
          added_kind = λ m. ground (arith, w m (lit "kind"), a.added_kind m);
          added_content = λ m. ground (arith, w m (lit "content"), a.added_content m);
        }

    pub create_file-Adds :
        (d : T.LoroDoc) (place : Option T.NodeId) (nm : Str) (r : T.NodeId × T.LoroDoc)
        → create_file T d place nm ≡ some r
        → Adds d place nm file (some []) r.0 r.1
    unfolding create_file
    create_file-Adds d place nm r h =
        let ((n, d1), e1, h1) = >>=-eq-some (create_node T d place nm file) _ h in
        let (d2, e2, h2) = >>=-eq-some (T.meta_insert_text d1 n (lit "content")) _ h1 in
        subst (λ (q : T.NodeId × T.LoroDoc). Adds d place nm file (some []) q.0 q.1)
          (some_injective h2)
          (insert_text-Adds d d1 d2 place nm n (create_node-Adds d place nm file n d1 e1) e2)
