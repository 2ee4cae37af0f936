-- ===== src/Trust/Change.antt =====
-- crates/eg/src/trust.rs: what a change to the trust set does to every peer's permissions.
use okayeg.Prelude.{
  ◌≡◌, refl, ◌∙◌, ap, sym, Bool, true, false, ◌&&◌, ◌||◌, not, Option, none, some, List, [], ◌∷◌,
  Str, Eq, ◌==◌, arith, contains, if◌then◌else◌, some_injective,
}
use okayeg.Prelude.Assoc.{lookup, insert, lookup-insert, lookup-erase}
use okayeg.Prelude.Options.{◌>>=◌}
use okayeg.Sync.Msg.{Perms}
use okayeg.Trust.{
  GrantData, Trust, Access, access_pull, access_push, Access_eq, TrustAction, add, remove, list,
  perms_from, drop_one, drop_all, then_some, or_insert, perms_of, keep_or_remove, drop_from, perms,
  set, forget, drop_perms, Report, addition, removal, reported, perform,
}

-- Whether a command line names a right.
abbrev pub names_pull : List Access → Bool
names_pull [] = false
names_pull (access_pull ∷ access) = true
names_pull (access_push ∷ access) = names_pull access

abbrev pub names_push : List Access → Bool
names_push [] = false
names_push (access_push ∷ access) = true
names_push (access_pull ∷ access) = names_push access

-- The rights that a command line names, both if it names none.
abbrev pub rights : List Access → Perms
rights [] = record { pull = true; push = true }
rights (a ∷ access) = record { pull = names_pull (a ∷ access); push = names_push (a ∷ access) }

-- The permissions without the named ones.
abbrev pub without : Perms → List Access → Perms
without p access = record {
  pull = p.pull && not (names_pull access);
  push = p.push && not (names_push access);
}

-- Nothing is left of a peer that may neither pull nor push.
abbrev pub some_left : Perms → Option Perms
some_left p = if p.pull || p.push then some p else none

contains-pull : (access : List Access) → contains access access_pull ≡ names_pull access
unfolding contains
contains-pull [] = refl
contains-pull (access_pull ∷ access) = refl
contains-pull (access_push ∷ access) = contains-pull access

contains-push : (access : List Access) → contains access access_push ≡ names_push access
unfolding contains
contains-push [] = refl
contains-push (access_push ∷ access) = refl
contains-push (access_pull ∷ access) = contains-push access

pub perms_from-rights : (access : List Access) → perms_from access ≡ rights access
unfolding perms_from
perms_from-rights [] = refl
perms_from-rights (a ∷ access) =
    ground (arith, contains-pull (a ∷ access), contains-push (a ∷ access))

drop_all-pull :
    (p : Perms) (access : List Access)
    → (drop_all p access).pull ≡ (p.pull && not (names_pull access))
unfolding drop_all
drop_all-pull p [] = ground arith
drop_all-pull p (access_pull ∷ access) =
    ground (arith, drop_all-pull (drop_one p access_pull) access)
drop_all-pull p (access_push ∷ access) =
    ground (arith, drop_all-pull (drop_one p access_push) access)

drop_all-push :
    (p : Perms) (access : List Access)
    → (drop_all p access).push ≡ (p.push && not (names_push access))
unfolding drop_all
drop_all-push p [] = ground arith
drop_all-push p (access_pull ∷ access) =
    ground (arith, drop_all-push (drop_one p access_pull) access)
drop_all-push p (access_push ∷ access) =
    ground (arith, drop_all-push (drop_one p access_push) access)

drop_all-without : (p : Perms) (access : List Access) → drop_all p access ≡ without p access
drop_all-without p access = ground (arith, drop_all-pull p access, drop_all-push p access)

perms_from-some :
    (a : Access) (access : List Access)
    → ((perms_from (a ∷ access)).pull || (perms_from (a ∷ access)).push) ≡ true
unfolding perms_from contains
perms_from-some access_pull access = refl
perms_from-some access_push access = ground arith

then_some-perms_from :
    (access : List Access) → then_some (perms_from access) ≡ some (perms_from access)
then_some-perms_from [] = unfold perms_from in refl
then_some-perms_from (a ∷ access) = ground (arith, perms_from-some a access)

-- What is left of a peer's permissions, after a removal that names these ones; none of them is all.
unfoldable pub left : Option Perms → List Access → Option Perms
left none access = none
left (some p) [] = none
left (some p) (a ∷ access) = some_left (without p (a ∷ access))

left_all : (o : Option Perms) → left o [] ≡ none
unfolding left
left_all none = refl
left_all (some p) = refl

left-then_some :
    (p : Perms) (a : Access) (access : List Access)
    → left (then_some p) (a ∷ access) ≡ then_some (drop_all p (a ∷ access))
unfolding left
left-then_some p a access =
    ground (arith, drop_all-pull p (a ∷ access), drop_all-push p (a ∷ access))

perms_of-if :
    (b : Bool) (g : GrantData) (o : Option GrantData)
    → perms_of (if b then some g else o) ≡ (if b then then_some g.perms else perms_of o)
perms_of-if true g o = refl
perms_of-if false g o = refl

or_insert-perms : (o : Option GrantData) (p : Perms) → (or_insert o p).perms ≡ p
or_insert-perms none p = refl
or_insert-perms (some g) p = refl

module _ {EndpointId : Type 0} ⦃e : Eq EndpointId⦄ where
  perms-insert :
      (t : Trust EndpointId) (id j : EndpointId) (g : GrantData)
      → perms (record { peers = insert id g t.peers }) j
        ≡ (if j == id then then_some g.perms else perms t j)
  unfolding perms
  perms-insert t id j g =
      ap perms_of (lookup-insert j id g t.peers) ∙ perms_of-if (j == id) g (lookup j t.peers)

  perms-set :
      (t : Trust EndpointId) (id j : EndpointId) (p : Perms)
      → perms (set t id p) j ≡ (if j == id then then_some p else perms t j)
  unfolding set
  perms-set t id j p =
      perms-insert t id j (or_insert (lookup id t.peers) p)
      ∙ ap (λ (q : Perms). if j == id then then_some q else perms t j)
          (or_insert-perms (lookup id t.peers) p)

  pub perms-forget :
      (t : Trust EndpointId) (id j : EndpointId)
      → perms (forget t id) j ≡ (if j == id then none else perms t j)
  unfolding perms forget
  perms-forget t id j = ground (arith, lookup-erase j id t.peers)

  pub perms-keep_or_remove :
      (t : Trust EndpointId) (id j : EndpointId) (g : GrantData)
      → perms (keep_or_remove t id g).1 j ≡ (if j == id then then_some g.perms else perms t j)
  perms-keep_or_remove t id j g = ground (arith, perms-insert t id j g, perms-forget t id j)

  pub perms-absent :
      (t : Trust EndpointId) (id j : EndpointId)
      → lookup id t.peers ≡ none
      → e.eq j id ≡ true
      → perms t j ≡ none
  unfolding perms
  perms-absent t id j h same =
      ap (λ (k : EndpointId). perms_of (lookup k t.peers)) ((e.eq_iff j id).0 same) ∙ ap perms_of h

  perms-drop_from :
      (t : Trust EndpointId) (id j : EndpointId) (a : Access) (access : List Access)
      (o : Option GrantData)
      → lookup id t.peers ≡ o
      → perms (drop_from t id (a ∷ access) o).1 j
        ≡ (if j == id then left (perms_of o) (a ∷ access) else perms t j)
  unfolding left
  perms-drop_from t id j a access none h = ground (arith, perms-absent t id j h)
  perms-drop_from t id j a access (some g) h =
      perms-keep_or_remove t id j (record g { perms = drop_all g.perms (a ∷ access) })
      ∙ ap (λ (q : Option Perms). if j == id then q else perms t j)
          (sym (left-then_some g.perms a access))

  perms-drop_perms :
      (t : Trust EndpointId) (id j : EndpointId) (a : Access) (access : List Access)
      → perms (drop_perms t id (a ∷ access)).1 j
        ≡ (if j == id then left (perms t id) (a ∷ access) else perms t j)
  unfolding perms drop_perms
  perms-drop_perms t id j a access = perms-drop_from t id j a access (lookup id t.peers) refl

  -- Whether a peer as it is written on the command line is this one.
  abbrev pub names : Option EndpointId → EndpointId → Bool
  names none j = false
  names (some id) j = j == id

  -- What a peer may do after an action, of what every peer could do before.
  abbrev pub granted :
      (Str → Option EndpointId)
      → TrustAction
      → (EndpointId → Option Perms)
      → EndpointId
      → Option Perms
  granted from_str (add peer access) old j =
      if names (from_str peer) j then some (rights access) else old j
  granted from_str (remove peer access) old j =
      if names (from_str peer) j then left (old j) access else old j
  granted from_str list old j = old j

  pub added :
      (t : Trust EndpointId) (id j : EndpointId) (access : List Access)
      → perms (set t id (perms_from access)) j
        ≡ (if j == id then some (perms_from access) else perms t j)
  added t id j access =
      ground (arith, perms-set t id j (perms_from access), then_some-perms_from access)

  left-at :
      (t : Trust EndpointId) (id j : EndpointId) (access : List Access)
      → e.eq j id ≡ true
      → left (perms t id) access ≡ left (perms t j) access
  left-at t id j access h =
      ap (λ (k : EndpointId). left (perms t k) access) (sym ((e.eq_iff j id).0 h))

  removal-eq :
      (t : Trust EndpointId) (id j : EndpointId) (access : List Access)
      → perms (removal t id access).1 j ≡ (if j == id then left (perms t j) access else perms t j)
  removal-eq t id j [] = ground (arith, perms-forget t id j, left_all (perms t j))
  removal-eq t id j (a ∷ access) =
      ground (arith, perms-drop_perms t id j a access, left-at t id j (a ∷ access))

  reported-set : (id : EndpointId) (r : Option Perms × Trust EndpointId) → (reported id r).0 ≡ r.1
  reported-set id (none, t) = refl
  reported-set id (some p, t) = refl

  performed-add :
      (t : Trust EndpointId) (j : EndpointId) (access : List Access) (o : Option EndpointId)
      (t' : Trust EndpointId) (r : Report EndpointId)
      → (o >>= λ id. some (addition t id access)) ≡ some (t', r)
      → perms t' j ≡ (if names o j then some (rights access) else perms t j)
  performed-add t j access none t' r h = cc
  performed-add t j access (some id) t' r h =
      ap (λ (q : Trust EndpointId). perms q j)
        (sym (ap (λ (q : Trust EndpointId × Report EndpointId). q.0) (some_injective h)))
      ∙ added t id j access
      ∙ ap (λ (p : Perms). if j == id then some p else perms t j) (perms_from-rights access)

  performed-remove :
      (t : Trust EndpointId) (j : EndpointId) (access : List Access) (o : Option EndpointId)
      (t' : Trust EndpointId) (r : Report EndpointId)
      → (o >>= λ id. some (reported id (removal t id access))) ≡ some (t', r)
      → perms t' j ≡ (if names o j then left (perms t j) access else perms t j)
  performed-remove t j access none t' r h = cc
  performed-remove t j access (some id) t' r h =
      ap (λ (q : Trust EndpointId × Report EndpointId). perms q.0 j) (sym (some_injective h))
      ∙ ap (λ (q : Trust EndpointId). perms q j) (reported-set id (removal t id access))
      ∙ removal-eq t id j access

  -- An action changes the permissions of the peer it names and of no other: `add` sets them to
  -- those it lists, all of them if it lists none, `remove` takes those away that it lists, all of
  -- them if it lists none, and `list` changes nothing.
  pub perms-perform :
      (from_str : Str → Option EndpointId) (t t' : Trust EndpointId) (action : TrustAction)
      (r : Report EndpointId)
      → perform from_str t action ≡ some (t', r)
      → (j : EndpointId) → perms t' j ≡ granted from_str action (perms t) j
  unfolding perform
  perms-perform from_str t t' (add peer access) r h j =
      performed-add t j access (from_str peer) t' r h
  perms-perform from_str t t' (remove peer access) r h j =
      performed-remove t j access (from_str peer) t' r h
  perms-perform from_str t t' list r h j = cc
