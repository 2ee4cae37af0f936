-- ===== src/Sync/Driver/Gate.antt =====
-- crates/okayeg/src/sync.rs: what the permissions of a one-round sync withhold, and its order.
use okayeg.Prelude.{
  ◌≡◌, refl, ◌∙◌, ap, inl, inr, Result-cases, false, Bytes, List, [], ◌∷◌, ok, err, arith,
}
use okayeg.Replica.{Replica, Converges}
use okayeg.Doc
use okayeg.Doc.{Doc}
use okayeg.Sync.Msg.{Msg, have, updates, ephemeral, Perms}
use okayeg.Sync.Driver.{Sync, await_have, await_updates, done, Step, send, Outcome, on, gated}

module _ (R : Replica) where
  -- The driver after a list of messages, whatever it answered to each.
  unfoldable pub after : Sync R → List Msg → Sync R
  after s [] = s
  after s (m ∷ ms) = after (on R s m).1 ms

  pub perms-on : (s : Sync R) (m : Msg) → (on R s m).1.perms ≡ s.perms
  unfolding on
  perms-on s m = ground arith

  pub doc-on : (s : Sync R) (m : Msg) → s.perms.push ≡ false → (on R s m).1.doc ≡ s.doc
  unfolding on
  doc-on s m h = ground arith

  -- A peer without `push` never changes the document of the side that it syncs with, whatever
  -- messages it sends and in whatever order, also where some of them are answered by errors.
  pub doc-after_no_push :
      (s : Sync R) (ms : List Msg) → s.perms.push ≡ false → (after s ms).doc ≡ s.doc
  unfolding after
  doc-after_no_push s [] h = refl
  doc-after_no_push s (m ∷ ms) h =
      doc-after_no_push (on R s m).1 ms (cc (perms-on s m)) ∙ doc-on s m h

  -- A driver that has finished, or was never opened, has accepted exactly this many messages.
  unfoldable pub accepted : Sync R → List Msg → Outcome R (Sync R)
  accepted s [] = ok s
  accepted s (m ∷ ms) =
      let rest = accepted (on R s m).1 ms in elim (on R s m).0 [ err e ↦ err e | ok _ ↦ rest ]

  refused_when_done :
      (s : Sync R) (ms : List Msg) (t : Sync R) → s.state ≡ done → accepted s ms ≡ ok t → ms ≡ []
  unfolding accepted on
  refused_when_done s [] t d h = refl
  refused_when_done s (m ∷ ms) t d h = ground arith

  state-on_updates :
      (s : Sync R) (u : Bytes) (x : Step)
      → s.state ≡ await_updates
      → (on R s (updates u)).0 ≡ ok x
      → (on R s (updates u)).1.state ≡ done
  unfolding on
  state-on_updates s u x w h = ground arith

  state-on_have :
      (s : Sync R) (vv : Bytes) (x : Step)
      → s.state ≡ await_have
      → (on R s (have vv)).0 ≡ ok x
      → (on R s (have vv)).1.state ≡ await_updates
  unfolding on
  state-on_have s vv x w h = ground arith

  updates_when_awaited :
      (s : Sync R) (ms : List Msg) (t : Sync R)
      → s.state ≡ await_updates
      → accepted s ms ≡ ok t
      → t.state ≡ done
      → (u : Bytes) × (ms ≡ updates u ∷ [])
  unfolding accepted
  updates_when_awaited s [] t w h d = cc
  updates_when_awaited s (have vv ∷ ms) t w h d = unfold on in ground arith
  updates_when_awaited s (ephemeral u ∷ ms) t w h d = unfold on in ground arith
  updates_when_awaited s (updates u ∷ ms) t w h d = elim (Result-cases (on R s (updates u)).0) [
    | inl (x, e) ↦ (
      u,
      ap (λ l. updates u ∷ l)
          (refused_when_done (on R s (updates u)).1 ms t (state-on_updates s u x w e) (cc)),
    )
    | inr (x, e) ↦ cc
  ]

  -- A driver that accepts every message of a list and then is done was fed exactly two messages:
  -- the peer's version, then the peer's updates.
  pub accepted_in_order :
      (doc : Doc R) (perms : Perms) (ms : List Msg) (t : Sync R)
      → accepted (gated R doc perms) ms ≡ ok t
      → t.state ≡ done
      → (vv : Bytes) × (u : Bytes) × (ms ≡ have vv ∷ updates u ∷ [])
  unfolding accepted gated
  accepted_in_order doc perms [] t h d = cc
  accepted_in_order doc perms (updates u ∷ ms) t h d = unfold on in ground arith
  accepted_in_order doc perms (ephemeral u ∷ ms) t h d = unfold on in ground arith
  accepted_in_order doc perms (have vv ∷ ms) t h d =
      elim (Result-cases (on R (gated R doc perms) (have vv)).0) [
        | inl (x, e) ↦
            let (u, rest) =
              updates_when_awaited (on R (gated R doc perms) (have vv)).1 ms t
                (state-on_have (gated R doc perms) vv x refl e) (cc) d in
            (vv, u, ap (λ l. have vv ∷ l) rest)
        | inr (x, e) ↦ cc
      ]

  -- Over a convergent replica, a reply to a peer without `pull` changes the content of no document
  -- that imports it.
  pub reply_no_pull :
      (C : Converges R) (s t : Sync R) (vv u : Bytes) (e : R.LoroDoc)
      → s.perms.pull ≡ false
      → on R s (have vv) ≡ (ok (send (updates u)), t)
      → ((R.import e u).1 ≡ ok false) × (C.content (R.import e u).0 ≡ C.content e)
  unfolding on Doc.updates_since
  reply_no_pull C s t vv u e h sent = C.import_nothing s.doc.inner e u (ground arith)
