-- ===== src/Fs/Edit/Creation.antt =====
-- crates/okayeg/src/fs.rs: a path that was created resolves to its new node, and every other path
-- resolves as before.
use okayeg.Prelude.{
  ◌≡◌, refl, ◌∙◌, ap, false, Option, none, some, List, [], ◌∷◌, ◌++◌, Str, ok, arith, Option-cases,
  inl, inr, ok_injective, Result-cases, Str_eq, beq_refl,
}
use okayeg.TreeDoc.{TreeDoc, IsTree}
use okayeg.Tree
use okayeg.Tree.{NodeKind, file, dir, is_dir}
use okayeg.Tree.Created.{Adds, create_file-Adds, create_dir-Adds}
use okayeg.Fs.Path.{components}
use okayeg.Fs.View.{child_named, blocks, resolve_from, resolve}
use okayeg.Fs.Edit.{split_last, create_at, descend, split_parent, create_file, create_dir}
use okayeg.Fs.Edit.Keeps.{child_named-new, resolve_from-keeps, descend-keeps}

module _ (T : TreeDoc) (d : T.LoroDoc) where
  -- A descent that succeeds is a resolution that goes on from the directory it reached.
  resolve_from-descend :
      (cur : Option T.NodeId) (cs rest : List Str) (r : Option T.NodeId)
      → blocks T d cur ≡ false
      → descend T d cur cs ≡ ok r
      → (resolve_from T d cur (cs ++ rest) ≡ resolve_from T d r rest) × (blocks T d r ≡ false)
  unfolding resolve_from descend
  resolve_from-descend cur [] rest r b h = (ap (λ q. resolve_from T d q rest) (ok_injective h), cc)
  resolve_from-descend cur (c ∷ cs) rest r b h = elim (Option-cases (child_named T d cur c)) [
    | inl gone ↦ ground arith
    | inr (m, found) ↦ ground (arith, resolve_from-descend (some m) cs rest r)
  ]

split_last-none {ℓ} : {A : Type ℓ} (xs : List A) → split_last xs ≡ none → xs ≡ []
unfolding split_last
split_last-none [] h = refl
split_last-none (x ∷ xs) h = ground arith

split_last-append {ℓ} :
    {A : Type ℓ} (xs : List A) (x : A) (rest : List A)
    → split_last xs ≡ some (x, rest)
    → xs ≡ rest ++ (x ∷ [])
unfolding split_last
split_last-append [] x rest h = cc
split_last-append (y ∷ ys) x rest h = elim (Option-cases (split_last ys)) [
  | inl e ↦ ground (arith, split_last-none ys e)
  | inr ((l, r), e) ↦ ground (arith, split_last-append ys l r e)
]

module _ (T : TreeDoc) where
  abbrev Make : Type 0
  Make = T.LoroDoc → Option T.NodeId → Str → Option (T.NodeId × T.LoroDoc)

  -- What a creation that succeeded has found.
  record Made (make : Make) (d : T.LoroDoc) (path : Str) (n : T.NodeId) (d' : T.LoroDoc)
      : Type 0 where
    above : List Str
    name : Str
    place : Option T.NodeId
    split : components path ≡ ok (above ++ (name ∷ []))
    reached : descend T d none above ≡ ok place
    fresh : child_named T d place name ≡ none
    made : make d place name ≡ some (n, d')

  Made-of :
      (make : Make) (d : T.LoroDoc) (path : Str) (n : T.NodeId) (d' : T.LoroDoc)
      → create_at T make d (split_parent T d path) ≡ some (ok n, d')
      → Made make d path n d'
  unfolding split_parent
  Made-of make d path n d' h = elim (Result-cases (components path)) [
    | inr (e, bad) ↦ ground arith
    | inl (cs, good) ↦ elim (Option-cases (split_last cs)) [
      | inl e ↦ ground arith
      | inr ((name, above), e) ↦ elim (Result-cases (descend T d none above)) [
        | inr (x, f) ↦ ground arith
        | inl (place, f) ↦ record {
          above = above;
          name = name;
          place = place;
          split = ground (arith, split_last-append cs name above e);
          reached = f;
          fresh = ground arith;
          made = ground arith;
        }
      ]
    ]
  ]

  -- What a creation at a path leaves behind: the path resolves to the new node, which has the
  -- kind and the text, and every path that resolved before resolves to the same node.
  pub record IsPlaced (d : T.LoroDoc) (path : Str) (k : NodeKind) (text : Option Str) (n : T.NodeId)
      (d' : T.LoroDoc) : Type 0 where
    pub placed : resolve T d' path ≡ ok n
    pub placed_kind : Tree.kind T d' n ≡ some k
    pub placed_text : Tree.content T d' n ≡ text
    pub others_stay : (q : Str) (m : T.NodeId) → resolve T d q ≡ ok m → resolve T d' q ≡ ok m

  resolve-keeps :
      (d d' : T.LoroDoc) (place : Option T.NodeId) (nm : Str) (k : NodeKind) (text : Option Str)
      (n : T.NodeId)
      → Adds T d place nm k text n d'
      → (q : Str) (m : T.NodeId) → resolve T d q ≡ ok m
      → resolve T d' q ≡ ok m
  unfolding resolve
  resolve-keeps d d' place nm k text n a q m h = elim (Result-cases (components q)) [
    | inr (e, bad) ↦ ground arith
    | inl (cs, good) ↦ elim (Result-cases (resolve_from T d none cs)) [
      | inr (e, f) ↦ ground arith
      | inl (r, f) ↦ ground (arith, resolve_from-keeps T d place nm k text n d' a none cs r refl f)
    ]
  ]

  resolve_of_walk :
      (d : T.LoroDoc) (path : Str) (cs : List Str) (n : T.NodeId)
      → components path ≡ ok cs
      → resolve_from T d none cs ≡ ok (some n)
      → resolve T d path ≡ ok n
  unfolding resolve
  resolve_of_walk d path cs n split walked = ground arith

  resolve_from-last :
      (d : T.LoroDoc) (place : Option T.NodeId) (name : Str) (n : T.NodeId)
      → blocks T d place ≡ false
      → child_named T d place name ≡ some n
      → resolve_from T d place (name ∷ []) ≡ ok (some n)
  unfolding resolve_from
  resolve_from-last d place name n b h = ground arith

  Made-IsPlaced :
      (make : Make) (d : T.LoroDoc) (path : Str) (k : NodeKind) (text : Option Str) (n : T.NodeId)
      (d' : T.LoroDoc) (m : Made make d path n d')
      → Adds T d m.place m.name k text n d'
      → IsPlaced d path k text n d'
  Made-IsPlaced make d path k text n d' m a =
      let below = descend-keeps T d m.place m.name k text n d' a none m.above m.place m.reached in
      let (walked, open_at) =
        resolve_from-descend T d' none m.above (m.name ∷ []) m.place refl below in
      let last = child_named-new T d m.place m.name k text n d' a m.fresh in
      record {
        placed =
            resolve_of_walk d' path (m.above ++ (m.name ∷ [])) n m.split
              (walked ∙ resolve_from-last d' m.place m.name n open_at last);
        placed_kind = ground (arith, a.added_kind n, beq_refl ⦃e = T.node_eq⦄ n);
        placed_text = ground (arith, a.added_content n, beq_refl ⦃e = T.node_eq⦄ n);
        others_stay = resolve-keeps d d' m.place m.name k text n a;
      }

  -- In a tree that keeps its laws, a file that was created at a path is what the path resolves to
  -- from then on, with no text, and every path that resolved before resolves to the same node.
  pub create_file-IsPlaced :
      IsTree T
      → (d : T.LoroDoc) (path : Str) (n : T.NodeId) (d' : T.LoroDoc)
      → create_file T d path ≡ some (ok n, d')
      → IsPlaced d path file (some []) n d'
  unfolding create_file
  create_file-IsPlaced L d path n d' h =
      let m = Made-of (Tree.create_file T) d path n d' h in
      Made-IsPlaced (Tree.create_file T) d path file (some []) n d' m
        (create_file-Adds T L d m.place m.name (n, d') m.made)

  -- In a tree that keeps its laws, a directory that was created at a path is what the path
  -- resolves to from then on, without a text, and every path that resolved before resolves to the
  -- same node.
  pub create_dir-IsPlaced :
      IsTree T
      → (d : T.LoroDoc) (path : Str) (n : T.NodeId) (d' : T.LoroDoc)
      → create_dir T d path ≡ some (ok n, d')
      → IsPlaced d path dir none n d'
  unfolding create_dir
  create_dir-IsPlaced L d path n d' h =
      let m = Made-of (Tree.create_dir T) d path n d' h in
      Made-IsPlaced (Tree.create_dir T) d path dir none n d' m
        (create_dir-Adds T L d m.place m.name n d' m.made)
