-- ===== src/Sync/Exchange/Round.antt =====
-- The nine configurations that a two-sided sync of crates/okayeg/src/sync.rs goes through, as an
-- invariant of every delivery.
pub mod Converge
use okayeg.Prelude.{
  ◌≡◌, refl, ap, ◌∙◌, sym, subst, ◌≢◌, ok_injective, ℕ, ◌+◌, ◌<◌, Bool, Bool-cases, ◌&&◌, inl, inr,
  true, false, Bytes, List, [], ◌∷◌, ◌++◌, Result, ok, err, arith, if◌then◌else◌,
}
use okayeg.Replica.{Replica, Converges}
use okayeg.Doc
use okayeg.Doc.{Doc}
use okayeg.Sync.Msg.{Msg, have, updates, Perms, encode, decode}
use okayeg.Sync.Driver.{
  Sync, State, await_have, await_updates, done, Outcome, import_no_orphans, on, gated, start,
}
use okayeg.Sync.Exchange.{
  Pair, opening, swapped, swap_back, deliver_a, deliver_b, Reach, here, by_a, by_b,
}

module _ (R : Replica) where
  -- The document of a side after it has taken the other's reply.
  abbrev final : Doc R → Perms → Bytes → Doc R
  final own perms u = if perms.push then record own { inner = (R.import own.inner u).0 } else own

  abbrev side : State → Doc R → Perms → Bytes → Sync R
  side done d p u = record { doc = final d p u; state = done; perms = p }
  side s d p u = record { doc = d; state = s; perms = p }

  -- The frames on their way to a side in state `s`, from a side in state `t` that sent `h` first
  -- and `u` in reply.
  abbrev incoming : State → State → Bytes → Bytes → List Bytes
  incoming await_have await_have h u = h ∷ []
  incoming await_have _ h u = h ∷ u ∷ []
  incoming await_updates await_have h u = []
  incoming await_updates _ h u = u ∷ []
  incoming done _ h u = []

  -- No side is done before the other has replied.
  abbrev Together : State → State → Type 0
  Together done await_have = ⊥
  Together await_have done = ⊥
  Together _ _ = Unit

  abbrev next : State → State → State
  next await_have t = await_updates
  next await_updates await_have = await_updates
  next await_updates t = done
  next done t = done

  abbrev opener : Doc R → Bytes
  opener d = encode (have (R.encode_vv (R.state_vv d.inner)))

module _ (R : Replica) (C : Converges R) where
  -- What a side that grants `p` replies to the other: what the other lacks, or nothing.
  reply_of : Doc R → Perms → Doc R → Bytes
  reply_of own p other =
      (C.exports own.inner (if p.pull then R.state_vv other.inner else R.state_vv own.inner)).0

  reply-exported :
      (own : Doc R) (p : Perms) (other : Doc R)
      → R.export_updates own.inner (if p.pull then R.state_vv other.inner else R.state_vv own.inner)
        ≡ ok (reply_of own p other)
  unfolding reply_of
  reply-exported own p other =
      (C.exports own.inner (if p.pull then R.state_vv other.inner else R.state_vv own.inner)).1

  -- The content after a side that grants `p.push` has taken the reply of one that grants `q.pull`.
  abbrev pub merged : Doc R → Perms → Doc R → Perms → C.Content
  merged own p other q =
      if p.push && q.pull
      then C.join (C.content own.inner) (C.content other.inner)
      else C.content own.inner

  reply-imported :
      (own other : Doc R) (q : Perms)
      → ((R.import own.inner (reply_of other q own)).1 ≡ ok false)
        × (C.content (R.import own.inner (reply_of other q own)).0 ≡ (
            if q.pull
            then C.join (C.content own.inner) (C.content other.inner)
            else C.content own.inner))
  reply-imported own other q = elim (Bool-cases q.pull) [
    | inl e ↦
        let (fits, content, _) =
          C.import_missing other.inner own.inner (R.state_vv own.inner) (reply_of other q own)
            (C.includes_self own.inner) (simp e at (reply-exported other q own)) in
        (fits, simp e content)
    | inr e ↦
        let (fits, content) =
          C.import_nothing other.inner own.inner (reply_of other q own)
            (simp e at (reply-exported other q own)) in
        (fits, simp e content)
  ]

module _ (R : Replica) (C : Converges R) (da : Doc R) (pa : Perms) (db : Doc R) (pb : Perms) where
  abbrev round : State → State → Pair R
  round sa sb = record {
    a = side R sa da pa (reply_of R C db pb da);
    b = side R sb db pb (reply_of R C da pa db);
    to_a = incoming R sa sb (opener R db) (encode (updates (reply_of R C db pb da)));
    to_b = incoming R sb sa (opener R da) (encode (updates (reply_of R C da pa db)));
  }

  deliver_a-round :
      (sa sb : State) → Together R sa sb → deliver_a R (round sa sb) ≡ ok (round (next R sa sb) sb)
  unfolding deliver_a
  deliver_a-round await_have await_have h =
      ground (arith, C.decode_encode (R.state_vv db.inner), reply-exported R C da pa db)
  deliver_a-round await_have await_updates h =
      ground (arith, C.decode_encode (R.state_vv db.inner), reply-exported R C da pa db)
  deliver_a-round await_have done h = absurd h
  deliver_a-round await_updates await_have h = refl
  deliver_a-round await_updates await_updates h = ground (arith, (reply-imported R C da db pb).0)
  deliver_a-round await_updates done h = ground (arith, (reply-imported R C da db pb).0)
  deliver_a-round done await_have h = absurd h
  deliver_a-round done await_updates h = refl
  deliver_a-round done done h = refl

  -- The round that a pair is in.
  IsRound : Pair R → Type 0
  IsRound p = (sa : State) × (sb : State) × Together R sa sb × (p ≡ round sa sb)

  Together-next : (sa sb : State) → Together R sa sb → Together R (next R sa sb) sb
  Together-next await_have await_have h = tt
  Together-next await_have await_updates h = tt
  Together-next await_have done h = absurd h
  Together-next await_updates await_have h = tt
  Together-next await_updates await_updates h = tt
  Together-next await_updates done h = tt
  Together-next done await_have h = absurd h
  Together-next done await_updates h = tt
  Together-next done done h = tt

  deliver_a-IsRound : (p : Pair R) → IsRound p → (q : Pair R) × (deliver_a R p ≡ ok q) × IsRound q
  unfolding IsRound
  deliver_a-IsRound p (sa, sb, h, e) = (
    round (next R sa sb) sb,
    ap (deliver_a R) e ∙ deliver_a-round sa sb h,
    (next R sa sb, sb, Together-next sa sb h, refl),
  )

Together-comm : (R : Replica) (sa sb : State) → Together R sa sb → Together R sb sa
Together-comm R await_have await_have h = tt
Together-comm R await_have await_updates h = tt
Together-comm R await_have done h = absurd h
Together-comm R await_updates await_have h = tt
Together-comm R await_updates await_updates h = tt
Together-comm R await_updates done h = tt
Together-comm R done await_have h = absurd h
Together-comm R done await_updates h = tt
Together-comm R done done h = tt

module _ (R : Replica) where
  -- How many frames the two sides still have to take.
  abbrev left_at : State → ℕ
  left_at await_have = 2
  left_at await_updates = 1
  left_at done = 0

  abbrev pub frames_left : Pair R → ℕ
  frames_left p = left_at p.a.state + left_at p.b.state

  -- A delivery succeeds, and takes a frame from what is left if there was one.
  abbrev pub IsSafe : (Pair R → Outcome R (Pair R)) → List Bytes → Pair R → Type 0
  IsSafe deliver channel p =
      (q : Pair R) × (deliver p ≡ ok q) × (channel ≢ [] → frames_left q < frames_left p)

module _ (R : Replica) (C : Converges R) where
  swapped-IsRound :
      (da : Doc R) (pa : Perms) (db : Doc R) (pb : Perms) (p : Pair R)
      → IsRound R C da pa db pb p
      → IsRound R C db pb da pa (swapped R p)
  unfolding IsRound
  swapped-IsRound da pa db pb p (sa, sb, h, e) = (sb, sa, Together-comm R sa sb h, ap (swapped R) e)

module _ (R : Replica) (C : Converges R) (da : Doc R) (pa : Perms) (db : Doc R) (pb : Perms) where
  deliver_b-IsRound :
      (p : Pair R)
      → IsRound R C da pa db pb p
      → (q : Pair R) × (deliver_b R p ≡ ok q) × IsRound R C da pa db pb q
  unfolding deliver_b
  deliver_b-IsRound p r =
      let (q, e, s) =
        deliver_a-IsRound R C db pb da pa (swapped R p) (swapped-IsRound R C da pa db pb p r) in
      (swapped R q, ap (swap_back R) e, swapped-IsRound R C db pb da pa q s)

  opening-IsRound : IsRound R C da pa db pb (opening R da pa db pb)
  unfolding IsRound opening
  opening-IsRound = (await_have, await_have, tt, refl)

  Reach-IsRound : {p : Pair R} → Reach R (opening R da pa db pb) p → IsRound R C da pa db pb p
  Reach-IsRound here = opening-IsRound
  Reach-IsRound (by_a {q = q} r e) =
      let (q', e', s) = deliver_a-IsRound R C da pa db pb q (Reach-IsRound r) in
      subst (IsRound R C da pa db pb) (ok_injective (sym e' ∙ e)) s
  Reach-IsRound (by_b {q = q} r e) =
      let (q', e', s) = deliver_b-IsRound q (Reach-IsRound r) in
      subst (IsRound R C da pa db pb) (ok_injective (sym e' ∙ e)) s

  deliver_a-round-IsSafe :
      (sa sb : State)
      → Together R sa sb
      → IsSafe R (deliver_a R) (round R C da pa db pb sa sb).to_a (round R C da pa db pb sa sb)
  deliver_a-round-IsSafe sa sb h = (
    round R C da pa db pb (next R sa sb) sb,
    deliver_a-round R C da pa db pb sa sb h,
    fewer sa sb h,
  )
    where
      fewer :
          (sa sb : State)
          → Together R sa sb
          → (round R C da pa db pb sa sb).to_a ≢ []
          → frames_left R (round R C da pa db pb (next R sa sb) sb)
            < frames_left R (round R C da pa db pb sa sb)
      fewer await_have await_have h busy = omega arith
      fewer await_have await_updates h busy = omega arith
      fewer await_have done h busy = absurd h
      fewer await_updates await_have h busy = absurd (busy refl)
      fewer await_updates await_updates h busy = omega arith
      fewer await_updates done h busy = omega arith
      fewer done await_have h busy = absurd h
      fewer done await_updates h busy = absurd (busy refl)
      fewer done done h busy = absurd (busy refl)

  quiet :
      (sa sb : State)
      → Together R sa sb
      → (round R C da pa db pb sa sb).to_a ≡ []
      → (round R C da pa db pb sa sb).to_b ≡ []
      → (sa ≡ done) × (sb ≡ done)
  quiet await_have await_have h qa qb = cc
  quiet await_have await_updates h qa qb = cc
  quiet await_have done h qa qb = absurd h
  quiet await_updates await_have h qa qb = cc
  quiet await_updates await_updates h qa qb = cc
  quiet await_updates done h qa qb = cc
  quiet done await_have h qa qb = absurd h
  quiet done await_updates h qa qb = cc
  quiet done done h qa qb = (refl, refl)
