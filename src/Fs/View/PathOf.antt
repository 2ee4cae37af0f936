-- ===== src/Fs/View/PathOf.antt =====
-- crates/okayeg/src/fs.rs: `path_of` takes a node back to the path that resolves to it.
use okayeg.Prelude.{
  ℕ, suc, ◌+◌, ◌-◌, ◌≤◌, ◌≡◌, ◌∙◌, sym, ap, subst, true, Option, none, some, List, [], ◌∷◌, ◌++◌,
  Str, Str_eq, str_beq_iff, find-some, contains-find, length, inl, inr, Option-cases, ok, arith,
  ok_injective, some_injective, append-nil,
}
use okayeg.TreeDoc.{TreeDoc, IsTree, TreeParent_of, child_list}
use okayeg.Tree
use okayeg.Fs.Path.{valid_name, components, join}
use okayeg.Fs.Path.RoundTrip.{AllValid, components-valid}
use okayeg.Fs.View.{has_name, child_named, resolve_from, resolve, climb, path_of}

has_name-eq : (o : Option Str) (c : Str) → has_name o c ≡ true → o ≡ some c
has_name-eq none c h = cc
has_name-eq (some s) c h = ap some ((str_beq_iff s c).0 h)

zero-add_length : (n : ℕ) → 0 + n ≡ n
zero-add_length n = omega arith

length_shift : (cs : List Str) (fuel : ℕ) → suc (length cs) + fuel ≡ length cs + suc fuel
length_shift cs fuel = omega arith

module _ (T : TreeDoc) (L : IsTree T) (d : T.LoroDoc) where
  child_named-name :
      (p : Option T.NodeId) (c : Str) (m : T.NodeId)
      → child_named T d p c ≡ some m
      → Tree.name T d m ≡ some c
  unfolding child_named
  child_named-name p c m h =
      has_name-eq (Tree.name T d m) c
        (find-some (λ n. has_name (Tree.name T d n) c) (child_list T d p) m h)

  child_named-parent :
      (p : Option T.NodeId) (c : Str) (m : T.NodeId)
      → child_named T d p c ≡ some m
      → T.parent d m ≡ some (TreeParent_of T p)
  unfolding child_named
  child_named-parent p c m h =
      L.parent_of_child d p m
        (contains-find ⦃e = T.node_eq⦄ (λ n. has_name (Tree.name T d n) c) (child_list T d p) m h)

  -- One round of the climb, from a child of a node and from a root.
  climb_child :
      (fuel : ℕ) (parts : List Str) (p : T.NodeId) (c : Str) (m : T.NodeId)
      → valid_name c ≡ true
      → child_named T d (some p) c ≡ some m
      → climb T (suc fuel) d parts m ≡ climb T fuel d (c ∷ parts) p
  unfolding climb
  climb_child fuel parts p c m v h =
      ground (arith, child_named-name (some p) c m h, child_named-parent (some p) c m h)

  climb_root :
      (fuel : ℕ) (parts : List Str) (c : Str) (m : T.NodeId)
      → valid_name c ≡ true
      → child_named T d none c ≡ some m
      → climb T (suc fuel) d parts m ≡ some (some (c ∷ parts))
  unfolding climb
  climb_root fuel parts c m v h =
      ground (arith, child_named-name none c m h, child_named-parent none c m h)

  climb-resolve_from :
      (p n : T.NodeId) (cs parts : List Str) (fuel : ℕ)
      → AllValid cs
      → resolve_from T d (some p) cs ≡ ok (some n)
      → climb T (length cs + fuel) d parts n ≡ climb T fuel d (cs ++ parts) p
  unfolding resolve_from
  climb-resolve_from p n [] parts fuel v h =
      ap (λ k. climb T k d parts n) (zero-add_length fuel)
      ∙ ap (climb T fuel d parts) (sym (some_injective (ok_injective h)))
  climb-resolve_from p n (c ∷ cs) parts fuel (vc, v) h =
      elim (Option-cases (child_named T d (some p) c)) [
        | inl gone ↦ ground arith
        | inr (m, found) ↦
            let more = climb-resolve_from m n cs parts (suc fuel) v (ground arith) in
            ap (λ k. climb T k d parts n) (length_shift cs fuel)
            ∙ more
            ∙ climb_child fuel (cs ++ parts) p c m vc found
      ]

  climb-resolve_root :
      (n : T.NodeId) (c : Str) (cs : List Str) (fuel : ℕ)
      → AllValid (c ∷ cs)
      → resolve_from T d none (c ∷ cs) ≡ ok (some n)
      → climb T (length (c ∷ cs) + fuel) d [] n ≡ some (some (c ∷ cs))
  unfolding resolve_from
  climb-resolve_root n c cs fuel (vc, v) h = elim (Option-cases (child_named T d none c)) [
    | inl gone ↦ ground arith
    | inr (m, found) ↦
        let more = climb-resolve_from m n cs [] (suc fuel) v (ground arith) in
        ap (λ k. climb T k d [] n) (length_shift cs fuel)
        ∙ more
        ∙ climb_root fuel (cs ++ []) c m vc found
        ∙ ap (λ l. some (some (c ∷ l))) (append-nil cs)
  ]

  resolve_of_components :
      (path : Str) (cs : List Str) (n : T.NodeId)
      → components path ≡ ok cs
      → resolve T d path ≡ ok n
      → resolve_from T d none cs ≡ ok (some n)
  unfolding resolve
  resolve_of_components path cs n split h = ground arith

  -- In a tree that keeps its laws, a node that a path resolves to has the path of the same
  -- components, joined by single slashes, and the climb to the root takes no more rounds than
  -- there are components.
  pub path_of-resolve :
      (path : Str) (cs : List Str) (n : T.NodeId) (fuel : ℕ)
      → components path ≡ ok cs
      → resolve T d path ≡ ok n
      → length cs ≤ fuel
      → path_of T fuel d n ≡ some (some (join cs))
  unfolding path_of
  path_of-resolve path [] n fuel split h enough =
      unfold resolve_from in cc (resolve_of_components path [] n split h)
  path_of-resolve path (c ∷ cs) n fuel split h enough =
      let climbed =
        climb-resolve_root n c cs (fuel - length (c ∷ cs)) (components-valid path (c ∷ cs) split)
          (resolve_of_components path (c ∷ cs) n split h) in
      let all : length (c ∷ cs) + (fuel - length (c ∷ cs)) ≡ fuel = omega arith in
      cc (subst (λ k. climb T k d [] n ≡ some (some (c ∷ cs))) all climbed)
