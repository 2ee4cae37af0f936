-- ===== src/Fs/Edit/Keeps.antt =====
-- crates/okayeg/src/fs.rs: what a node that was added leaves as it was.
use okayeg.Prelude.{
  ◌≡◌, refl, ap, true, false, not, Option, none, some, List, [], ◌∷◌, Str, find, ok, arith,
  contains-find, find-agree, find-append, find-append_some, Option-cases, inl, inr, Str_eq,
  ne_of_contains, beq_refl,
}
use okayeg.TreeDoc.{TreeDoc, child_list, place_eq}
use okayeg.Tree
use okayeg.Tree.{NodeKind, file, dir, is_dir}
use okayeg.Tree.Created.{Adds}
use okayeg.Fs.View.{has_name, child_named, blocks, resolve_from}
use okayeg.Fs.Edit.{descend}

module _ (T : TreeDoc) (d : T.LoroDoc) (place : Option T.NodeId) (nm : Str) (k : NodeKind)
    (text : Option Str) (n : T.NodeId) (d' : T.LoroDoc) (a : Adds T d place nm k text n d') where
  same_name :
      (c : Str) (m : T.NodeId)
      → T.node_eq.eq m n ≡ false
      → has_name (Tree.name T d m) c ≡ has_name (Tree.name T d' m) c
  same_name c m h = ground (arith, a.added_name m)

  old_node :
      (p : Option T.NodeId) (c : Str) (m : T.NodeId)
      → child_named T d p c ≡ some m
      → T.node_eq.eq m n ≡ false
  unfolding child_named
  old_node p c m h =
      ne_of_contains ⦃e = T.node_eq⦄ (child_list T d p) m n
        (contains-find ⦃e = T.node_eq⦄ _ (child_list T d p) m h) (a.added_unlisted p)

  found_before :
      (p : Option T.NodeId) (c : Str)
      → find (λ m. has_name (Tree.name T d m) c) (child_list T d p)
        ≡ find (λ m. has_name (Tree.name T d' m) c) (child_list T d p)
  found_before p c =
      find-agree ⦃e = T.node_eq⦄ _ _ n (child_list T d p) (same_name c) (a.added_unlisted p)

  pub child_named-keeps :
      (p : Option T.NodeId) (c : Str) (m : T.NodeId)
      → child_named T d p c ≡ some m
      → child_named T d' p c ≡ some m
  unfolding child_named
  child_named-keeps p c m h = ground (
    arith,
    a.added_children p,
    found_before p c,
    find-append_some (λ m. has_name (Tree.name T d' m) c) (child_list T d p) (n ∷ []) m,
  )

  pub kind-keeps :
      (p : Option T.NodeId) (c : Str) (m : T.NodeId)
      → child_named T d p c ≡ some m
      → Tree.kind T d' m ≡ Tree.kind T d m
  kind-keeps p c m h = ground (arith, old_node p c m h, a.added_kind m)

  place_eq_refl : (p : Option T.NodeId) → place_eq T p p ≡ true
  place_eq_refl none = refl
  place_eq_refl (some p) = beq_refl ⦃e = T.node_eq⦄ p

  pub child_named-new : child_named T d place nm ≡ none → child_named T d' place nm ≡ some n
  unfolding child_named find
  child_named-new h = ground (
    arith,
    a.added_children place,
    place_eq_refl place,
    found_before place nm,
    a.added_name n,
    find-append (λ m. has_name (Tree.name T d' m) nm) (child_list T d place) (n ∷ []),
    beq_refl ⦃e = T.node_eq⦄ n,
    beq_refl {A = Str} nm,
  )

  pub resolve_from-keeps :
      (cur : Option T.NodeId) (cs : List Str) (r : Option T.NodeId)
      → blocks T d' cur ≡ blocks T d cur
      → resolve_from T d cur cs ≡ ok r
      → resolve_from T d' cur cs ≡ ok r
  unfolding resolve_from
  resolve_from-keeps cur [] r b h = h
  resolve_from-keeps cur (c ∷ cs) r b h = elim (Option-cases (child_named T d cur c)) [
    | inl gone ↦ ground arith
    | inr (m, found) ↦ ground (
      arith,
      child_named-keeps cur c m found,
      resolve_from-keeps (some m) cs r (ap (λ k. not (is_dir k)) (kind-keeps cur c m found)),
    )
  ]

  pub descend-keeps :
      (cur : Option T.NodeId) (cs : List Str) (r : Option T.NodeId)
      → descend T d cur cs ≡ ok r
      → descend T d' cur cs ≡ ok r
  unfolding descend
  descend-keeps cur [] r h = h
  descend-keeps cur (c ∷ cs) r h = elim (Option-cases (child_named T d cur c)) [
    | inl gone ↦ ground arith
    | inr (m, found) ↦ ground (
      arith,
      child_named-keeps cur c m found,
      kind-keeps cur c m found,
      descend-keeps (some m) cs r,
    )
  ]
