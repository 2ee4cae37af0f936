-- ===== src/Trust.antt =====
-- crates/eg/src/trust.rs: who a repository syncs with, and what each peer may do.
pub mod Change
pub mod File
pub mod Reported
use okayeg.Prelude.{
  ℕ, ◌≡◌, ◌↔◌, refl, Bool, true, false, ◌&&◌, ◌||◌, not, Option, none, some, List, [], ◌∷◌, Str,
  lit, Eq, ◌==◌, arith, contains, is_empty, if◌then◌else◌,
}
use okayeg.Prelude.Options.{◌>>=◌}
use okayeg.Prelude.Assoc.{Assoc, lookup, insert, erase}
use okayeg.Sync.Msg.{Perms, all_perms}

pub record GrantData : Type 0 where
  pub perms : Perms
  pub label : Option Str

-- The set is a `HashMap` by the endpoint's id.
pub record Trust (EndpointId : Type 0) : Type 0 where
  pub peers : Assoc EndpointId GrantData

pub data Access : Type 0 where
  access_pull access_push : Access

abbrev pub access_beq : Access → Access → Bool
access_beq access_pull access_pull = true
access_beq access_push access_push = true
access_beq _ _ = false

pub access_beq_iff : (a b : Access) → (access_beq a b ≡ true) ↔ (a ≡ b)
access_beq_iff access_pull access_pull = (λ h. refl, λ h. refl)
access_beq_iff access_pull access_push = (λ h. cc, λ h. cc)
access_beq_iff access_push access_pull = (λ h. cc, λ h. cc)
access_beq_iff access_push access_push = (λ h. refl, λ h. refl)

instance abbrev pub Access_eq : Eq Access
Access_eq = record { eq = access_beq; eq_iff = access_beq_iff }

pub data TrustAction : Type 0 where
  add remove : Str → List Access → TrustAction
  list : TrustAction

-- An empty list is full access.
unfoldable pub perms_from : List Access → Perms
unfolding contains
perms_from [] = all_perms
perms_from (a ∷ access) = record {
  pull = contains (a ∷ access) access_pull;
  push = contains (a ∷ access) access_push;
}

abbrev pub drop_one : Perms → Access → Perms
drop_one p access_pull = record p { pull = false }
drop_one p access_push = record p { push = false }

unfoldable pub drop_all : Perms → List Access → Perms
drop_all p [] = p
drop_all p (a ∷ access) = drop_all (drop_one p a) access

-- `(perms.pull || perms.push).then_some(perms)`
abbrev pub then_some : Perms → Option Perms
then_some p = if p.pull || p.push then some p else none

abbrev pub or_insert : Option GrantData → Perms → GrantData
or_insert none p = record { perms = p; label = none }
or_insert (some g) p = record g { perms = p }

-- What `eg trust` reports of a change.
pub data Report (EndpointId : Type 0) : Type 0 where
  may : EndpointId → Perms → Report EndpointId
  removed : EndpointId → Report EndpointId
  listed : Report EndpointId

abbrev pub perms_of : Option GrantData → Option Perms
perms_of none = none
perms_of (some g) = then_some g.perms

module _ {EndpointId : Type 0} ⦃e : Eq EndpointId⦄ where
  unfoldable pub perms : Trust EndpointId → EndpointId → Option Perms
  perms t id = perms_of (lookup id t.peers)

  -- An existing label is kept.
  unfoldable pub set : Trust EndpointId → EndpointId → Perms → Trust EndpointId
  set t id p = record { peers = insert id (or_insert (lookup id t.peers) p) t.peers }

  unfoldable pub forget : Trust EndpointId → EndpointId → Trust EndpointId
  forget t id = record { peers = erase id t.peers }

  abbrev pub keep_or_remove :
      Trust EndpointId → EndpointId → GrantData → Option Perms × Trust EndpointId
  keep_or_remove t id g =
      if g.perms.pull || g.perms.push
      then (some g.perms, record { peers = insert id g t.peers })
      else (none, forget t id)

  abbrev pub drop_from :
      Trust EndpointId
      → EndpointId
      → List Access
      → Option GrantData
      → Option Perms × Trust EndpointId
  drop_from t id access none = (none, t)
  drop_from t id access (some g) =
      keep_or_remove t id (record g { perms = drop_all g.perms access })

  -- The permissions that remain, and the set.
  unfoldable pub drop_perms :
      Trust EndpointId → EndpointId → List Access → Option Perms × Trust EndpointId
  drop_perms t id access = drop_from t id access (lookup id t.peers)

  abbrev pub addition :
      Trust EndpointId → EndpointId → List Access → Trust EndpointId × Report EndpointId
  addition t id access = let p = perms_from access in (set t id p, may id p)

  abbrev pub removal : Trust EndpointId → EndpointId → List Access → Option Perms × Trust EndpointId
  removal t id [] = (none, forget t id)
  removal t id (a ∷ access) = drop_perms t id (a ∷ access)

  abbrev pub reported :
      EndpointId → Option Perms × Trust EndpointId → Trust EndpointId × Report EndpointId
  reported id (none, t) = (t, removed id)
  reported id (some p, t) = (t, may id p)

  -- The change of `perform_action`, where `from_str` reads an endpoint's id.
  unfoldable pub perform :
      (Str → Option EndpointId)
      → Trust EndpointId
      → TrustAction
      → Option (Trust EndpointId × Report EndpointId)
  perform from_str t (add peer access) = do id ← from_str peer; some (addition t id access)
  perform from_str t (remove peer access) = do
    id ← from_str peer
    some (reported id (removal t id access))
  perform from_str t list = some (t, listed)
