-- ===== src/Trust/Reported.antt =====
-- crates/eg/src/trust.rs: a change to the trust set does what it reports.
use okayeg.Prelude.{
  ◌≡◌, refl, Option, none, some, List, [], ◌∷◌, Str, Eq, arith, none_is_not_some, some_injective,
  beq_refl, subst,
}
use okayeg.Prelude.Assoc.{lookup}
use okayeg.Prelude.Options.{◌>>=◌}
use okayeg.Sync.Msg.{Perms}
use okayeg.Trust.Change.{added, perms-absent, perms-keep_or_remove, perms-forget}
use okayeg.Trust.{
  GrantData, Trust, Access, Access_eq, TrustAction, add, remove, list, drop_all, keep_or_remove,
  drop_from, perms, drop_perms, Report, may, removed, listed, addition, removal, reported, perform,
}

module _ {EndpointId : Type 0} ⦃e : Eq EndpointId⦄ where
  -- What a report claims of the set before and the set after.
  abbrev pub Says : Trust EndpointId → Trust EndpointId → Report EndpointId → Type 0
  Says t t' (may id p) = perms t' id ≡ some p
  Says t t' (removed id) = perms t' id ≡ none
  Says t t' listed = t' ≡ t

  keep_or_remove-eq :
      (t : Trust EndpointId) (id : EndpointId) (g : GrantData)
      → perms (keep_or_remove t id g).1 id ≡ (keep_or_remove t id g).0
  keep_or_remove-eq t id g = ground (arith, perms-keep_or_remove t id id g, beq_refl id)

  drop_from-eq :
      (t : Trust EndpointId) (id : EndpointId) (access : List Access) (o : Option GrantData)
      → lookup id t.peers ≡ o
      → perms (drop_from t id access o).1 id ≡ (drop_from t id access o).0
  drop_from-eq t id access none h = perms-absent t id id h (beq_refl id)
  drop_from-eq t id access (some g) h =
      keep_or_remove-eq t id (record g { perms = drop_all g.perms access })

  removal-says :
      (t : Trust EndpointId) (id : EndpointId) (access : List Access)
      → perms (removal t id access).1 id ≡ (removal t id access).0
  removal-says t id [] = ground (arith, perms-forget t id id, beq_refl id)
  removal-says t id (a ∷ access) =
      unfold drop_perms in drop_from-eq t id (a ∷ access) (lookup id t.peers) refl

  reported-Says :
      (t : Trust EndpointId) (id : EndpointId) (q : Option Perms × Trust EndpointId)
      → perms q.1 id ≡ q.0
      → Says t (reported id q).0 (reported id q).1
  reported-Says t id (none, t') h = h
  reported-Says t id (some p, t') h = h

  said-add :
      (t : Trust EndpointId) (access : List Access) (o : Option EndpointId) (t' : Trust EndpointId)
      (r : Report EndpointId)
      → (o >>= λ id. some (addition t id access)) ≡ some (t', r)
      → Says t t' r
  said-add t access none t' r h = elim (none_is_not_some h) [ ]
  said-add t access (some id) t' r h =
      subst (λ (q : Trust EndpointId × Report EndpointId). Says t q.0 q.1) (some_injective h)
        (ground (arith, added t id id access, beq_refl id))

  said-remove :
      (t : Trust EndpointId) (access : List Access) (o : Option EndpointId) (t' : Trust EndpointId)
      (r : Report EndpointId)
      → (o >>= λ id. some (reported id (removal t id access))) ≡ some (t', r)
      → Says t t' r
  said-remove t access none t' r h = elim (none_is_not_some h) [ ]
  said-remove t access (some id) t' r h =
      subst (λ (q : Trust EndpointId × Report EndpointId). Says t q.0 q.1) (some_injective h)
        (reported-Says t id (removal t id access) (removal-says t id access))

  -- What is reported of an action is so: a peer has the permissions it is said to have, has none
  -- if it is said to be removed, and a listing has changed nothing.
  pub perform-Says :
      (from_str : Str → Option EndpointId) (t t' : Trust EndpointId) (action : TrustAction)
      (r : Report EndpointId)
      → perform from_str t action ≡ some (t', r)
      → Says t t' r
  unfolding perform
  perform-Says from_str t t' (add peer access) r h = said-add t access (from_str peer) t' r h
  perform-Says from_str t t' (remove peer access) r h = said-remove t access (from_str peer) t' r h
  perform-Says from_str t t' list r h =
      subst (λ (q : Trust EndpointId × Report EndpointId). Says t q.0 q.1) (some_injective h) refl
