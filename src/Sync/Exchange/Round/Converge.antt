-- ===== src/Sync/Exchange/Round/Converge.antt =====
-- Every interleaving of a two-sided sync of crates/okayeg/src/sync.rs ends, without an error, in
-- the merge that the permissions allow.
use okayeg.Prelude.{◌≡◌, ap, ◌∙◌, sym, subst, [], arith, ◌≤◌}
use okayeg.Replica.{Replica, Converges}
use okayeg.Doc.{Doc}
use okayeg.Sync.Msg.{Perms}
use okayeg.Sync.Driver.{State, await_have, await_updates, done}
use okayeg.Sync.Exchange.{Pair, Reach, opening, swapped, deliver_a, deliver_b, swap_back}
use okayeg.Sync.Exchange.Round.{
  IsRound, IsSafe, round, merged, frames_left, left_at, quiet, deliver_a-round-IsSafe,
  Reach-IsRound, swapped-IsRound, reply-imported, reply_of, final,
}

module _ (R : Replica) (C : Converges R) (da : Doc R) (pa : Perms) (db : Doc R) (pb : Perms) where
  round-IsSafe : (p : Pair R) → IsRound R C da pa db pb p → IsSafe R (deliver_a R) p.to_a p
  unfolding IsRound
  round-IsSafe p (sa, sb, h, e) =
      subst (λ q. IsSafe R (deliver_a R) q.to_a q) (sym e)
        (deliver_a-round-IsSafe R C da pa db pb sa sb h)

  final-content : C.content (final R da pa (reply_of R C db pb da)).inner ≡ merged R C da pa db pb
  final-content = ground (arith, (reply-imported R C da db pb).1)

module _ (R : Replica) where
  left_at-le : (s : State) → left_at R s ≤ 2
  left_at-le await_have = omega arith
  left_at-le await_updates = omega arith
  left_at-le done = omega arith

module _ (R : Replica) (C : Converges R) (da : Doc R) (pa : Perms) (db : Doc R) (pb : Perms) where
  -- Whatever the interleaving and the permissions, no delivery of a one-round sync between two
  -- documents of a convergent replica fails, and each delivery of a frame leaves fewer frames to
  -- take, of which there are four at the opening.
  pub deliveries-IsSafe :
      {p : Pair R}
      → Reach R (opening R da pa db pb) p
      → IsSafe R (deliver_a R) p.to_a p × IsSafe R (deliver_b R) p.to_b p × (frames_left R p ≤ 4)
  unfolding deliver_b
  deliveries-IsSafe {p} r =
      let inv = Reach-IsRound R C da pa db pb r in
      let (q, e, f) =
        round-IsSafe R C db pb da pa (swapped R p) (swapped-IsRound R C da pa db pb p inv) in
      (
        round-IsSafe R C da pa db pb p inv,
        (swapped R q, ap (swap_back R) e, λ busy. omega (arith, f busy)),
        omega (arith, left_at-le R p.a.state, left_at-le R p.b.state),
      )

  -- Over a convergent replica, in every interleaving, once no frame is under way both sides are
  -- done, and each has the join of both contents if it grants `push` and the other grants `pull`,
  -- and its own content otherwise.
  pub exchange_converges :
      {p : Pair R}
      → Reach R (opening R da pa db pb) p
      → p.to_a ≡ []
      → p.to_b ≡ []
      → (p.a.state ≡ done)
        × (p.b.state ≡ done)
        × (C.content p.a.doc.inner ≡ merged R C da pa db pb)
        × (C.content p.b.doc.inner ≡ merged R C db pb da pa)
  unfolding IsRound
  exchange_converges {p} r qa qb =
      let (sa, sb, h, e) = Reach-IsRound R C da pa db pb r in
      let (ea, eb) =
        quiet R C da pa db pb sa sb h (ap (λ (q : Pair R). q.to_a) (sym e) ∙ qa)
          (ap (λ (q : Pair R). q.to_b) (sym e) ∙ qb) in
      let e' : p ≡ round R C da pa db pb done done =
        e ∙ ap (λ s. round R C da pa db pb s sb) ea ∙ ap (round R C da pa db pb done) eb in
      (
        ap (λ (q : Pair R). q.a.state) e',
        ap (λ (q : Pair R). q.b.state) e',
        ap (λ (q : Pair R). C.content q.a.doc.inner) e' ∙ final-content R C da pa db pb,
        ap (λ (q : Pair R). C.content q.b.doc.inner) e' ∙ final-content R C db pb da pa,
      )
