-- ===== src/Sync/Live/Stream.antt =====
-- crates/okayeg/src/sync.rs: what a live session sends over its lifetime.
use okayeg.Prelude.{
  ◌≡◌, refl, sym, subst, true, false, Bytes, List, [], ◌∷◌, ◌++◌, Option, none, some, ok, err, inl,
  inr, Bool-cases, arith,
}
use okayeg.Replica.{Replica, Converges}
use okayeg.Doc.{Doc}
use okayeg.Sync.Msg.{Msg, have, updates}
use okayeg.Sync.Driver.{Outcome}
use okayeg.Sync.Live.{LiveSync, Live, pending, on, catch_up}

-- What happens to a session: a message of the peer, a nudge, or a change of the document from
-- elsewhere (a local edit, another session).
pub data Event (R : Replica) : Type 0 where
  message : Msg → Event R
  nudge : Event R
  edit : Doc R → Event R

module _ (R : Replica) where
  abbrev pub sent_by : Outcome R Live → Option Msg
  sent_by (err e) = none
  sent_by (ok l) = l.send

  abbrev pub sent_pending : Outcome R (Option Msg) → Option Msg
  sent_pending (err e) = none
  sent_pending (ok m) = m

  -- What the session sends to the peer, one entry for each event.
  unfoldable pub sends : LiveSync R → Doc R → List (Event R) → List (Option Msg)
  sends s doc [] = []
  sends s doc (message m ∷ es) =
      let (out, s', doc') = on R s doc m in sent_by out ∷ sends s' doc' es
  sends s doc (nudge ∷ es) = let (out, s') = pending R s doc in sent_pending out ∷ sends s' doc es
  sends s doc (edit doc' ∷ es) = none ∷ sends s doc' es

  abbrev pub AllNone : List (Option Msg) → Type 0
  AllNone [] = Unit
  AllNone (m ∷ ms) = (m ≡ none) × AllNone ms

  pub quiet-on :
      (s : LiveSync R) (doc : Doc R) (m : Msg)
      → s.perms.pull ≡ false
      → (sent_by (on R s doc m).0 ≡ none) × ((on R s doc m).1.perms.pull ≡ false)
  unfolding on
  quiet-on s doc m h = ground arith

  pub quiet-pending :
      (s : LiveSync R) (doc : Doc R)
      → s.perms.pull ≡ false
      → (sent_pending (pending R s doc).0 ≡ none) × ((pending R s doc).1.perms.pull ≡ false)
  unfolding pending
  quiet-pending s doc h = ground arith

  -- A peer without `pull` is sent nothing over the whole session, whatever it sends and however
  -- the document changes.
  pub sends_nothing_without_pull :
      (s : LiveSync R) (doc : Doc R) (es : List (Event R))
      → s.perms.pull ≡ false
      → AllNone (sends s doc es)
  unfolding sends
  sends_nothing_without_pull s doc [] h = tt
  sends_nothing_without_pull s doc (message m ∷ es) h =
      let (out, s', doc') = on R s doc m in
      let (q, k) = quiet-on s doc m h in (q, sends_nothing_without_pull s' doc' es k)
  sends_nothing_without_pull s doc (nudge ∷ es) h =
      let (out, s') = pending R s doc in
      let (q, k) = quiet-pending s doc h in (q, sends_nothing_without_pull s' doc es k)
  sends_nothing_without_pull s doc (edit doc' ∷ es) h =
      (refl, sends_nothing_without_pull s doc' es h)

  pending_same :
      (s : LiveSync R) (doc : Doc R)
      → s.perms.pull ≡ true
      → R.version_eq.eq (R.state_vv doc.inner) s.acked ≡ true
      → pending R s doc ≡ (ok none, s)
  unfolding pending
  pending_same s doc p same = ground arith

  pending_new :
      (s : LiveSync R) (doc : Doc R) (u : Bytes)
      → s.perms.pull ≡ true
      → R.version_eq.eq (R.state_vv doc.inner) s.acked ≡ false
      → R.export_updates doc.inner s.acked ≡ ok u
      → pending R s doc ≡ (ok (some (updates u)), record s { acked = R.state_vv doc.inner })
  unfolding pending
  pending_new s doc u p new sent = ground arith

module _ (R : Replica) (C : Converges R) where
  -- The peer's document after it has imported what was sent, if anything was.
  abbrev pub delivered : R.LoroDoc → Outcome R (Option Msg) → R.LoroDoc
  delivered e (ok (some (updates u))) = (R.import e u).0
  delivered e _ = e

  -- A session and a peer that imports every batch, after a nudge at each of the documents.
  unfoldable pub stream : LiveSync R → R.LoroDoc → List (Doc R) → LiveSync R × R.LoroDoc
  stream s e [] = (s, e)
  stream s e (doc ∷ docs) = let (out, s') = pending R s doc in stream s' (delivered e out) docs

  -- The peer has what the mark says.
  abbrev pub IsMarked : LiveSync R → R.LoroDoc → Type 0
  IsMarked s e = (s.perms.pull ≡ true) × C.Includes e s.acked

  -- The mark is the document's version, and the peer's content became the join.
  abbrev Caught : R.LoroDoc → Doc R → Outcome R (Option Msg) × LiveSync R → Type 0
  Caught e doc (out, s) =
      (s.perms.pull ≡ true)
      × (s.acked ≡ R.state_vv doc.inner)
      × C.Includes (delivered e out) (R.state_vv doc.inner)
      × (C.content (delivered e out) ≡ C.join (C.content e) (C.content doc.inner))

  pending-Caught :
      (s : LiveSync R) (e : R.LoroDoc) (doc : Doc R) → IsMarked s e → Caught e doc (pending R s doc)
  pending-Caught s e doc (p, i) =
      elim (Bool-cases (R.version_eq.eq (R.state_vv doc.inner) s.acked)) [
        | inl same ↦
            let at = (R.version_eq.eq_iff (R.state_vv doc.inner) s.acked).0 same in
            let known : C.Includes e (R.state_vv doc.inner) = subst (C.Includes e) (sym at) i in
            subst (Caught e doc) (sym (pending_same R s doc p same))
              (p, sym at, known, sym (C.join_includes doc.inner e known))
        | inr new ↦
            let (u, sent) = C.exports doc.inner s.acked in
            let (fits, content, known) = C.import_missing doc.inner e s.acked u i sent in
            subst (Caught e doc) (sym (pending_new R s doc u p new sent)) (p, refl, known, content)
      ]

  Caught-IsMarked :
      (e : R.LoroDoc) (doc : Doc R) (r : Outcome R (Option Msg) × LiveSync R)
      → Caught e doc r
      → IsMarked r.1 (delivered e r.0)
  Caught-IsMarked e doc r (p, at, known, _) =
      (p, subst (C.Includes (delivered e r.0)) (sym at) known)

  -- The peer has everything of this document, and the session's mark says so.
  abbrev pub HasAll : LiveSync R × R.LoroDoc → Doc R → Type 0
  HasAll (s, e) doc =
      (s.acked ≡ R.state_vv doc.inner)
      × C.Includes e (R.state_vv doc.inner)
      × (C.join (C.content e) (C.content doc.inner) ≡ C.content e)

  stream-HasAll :
      (s : LiveSync R) (e : R.LoroDoc) (docs : List (Doc R)) (doc : Doc R)
      → IsMarked s e
      → HasAll (stream s e (docs ++ doc ∷ [])) doc
  unfolding stream
  stream-HasAll s e [] doc m =
      let (p, at, known, content) = pending-Caught s e doc m in
      (at, known, C.join_includes doc.inner (delivered e (pending R s doc).0) known)
  stream-HasAll s e (d ∷ docs) doc m =
      stream-HasAll (pending R s d).1 (delivered e (pending R s d).0) docs doc
        (Caught-IsMarked e d (pending R s d) (pending-Caught s e d m))

  -- The peer's document after it has imported the answer to its opening message.
  abbrev pub opened : R.LoroDoc → Outcome R Live → R.LoroDoc
  opened e (ok l) = delivered e (ok l.send)
  opened e (err _) = e

  on-opening :
      (s : LiveSync R) (doc : Doc R) (v : R.Version)
      → on R s doc (have (R.encode_vv v)) ≡ catch_up R doc (pending R (record s { acked = v }) doc)
  unfolding on
  on-opening s doc v = rw C.decode_encode

  opened-IsMarked :
      (e : R.LoroDoc) (doc : Doc R) (r : Outcome R (Option Msg) × LiveSync R)
      → Caught e doc r
      → IsMarked (catch_up R doc r).1 (opened e (catch_up R doc r).0)
  opened-IsMarked e doc (ok m, s) c = Caught-IsMarked e doc (ok m, s) c
  opened-IsMarked e doc (err x, s) c = Caught-IsMarked e doc (err x, s) c

  -- Over a convergent replica, a session that grants `pull` and has taken the opening message of a
  -- peer, and is nudged at each document of a list that its own document becomes, leaves a peer
  -- that imports every batch with all of the last of them, and its mark at that document's
  -- version.
  pub live_catches_up :
      (s : LiveSync R) (doc0 : Doc R) (e : R.LoroDoc) (docs : List (Doc R)) (doc : Doc R)
      → s.perms.pull ≡ true
      → let (out, s', _) = on R s doc0 (have (R.encode_vv (R.state_vv e))) in
        HasAll (stream s' (opened e out) (docs ++ doc ∷ [])) doc
  live_catches_up s doc0 e docs doc p =
      let s0 = record s { acked = R.state_vv e } in
      let start : IsMarked s0 e = (p, C.includes_self e) in
      subst (λ r. HasAll (stream r.1 (opened e r.0) (docs ++ doc ∷ [])) doc)
        (sym (on-opening s doc0 (R.state_vv e)))
        (stream-HasAll _ _ docs doc
          (opened-IsMarked e doc0 (pending R s0 doc0) (pending-Caught s0 e doc0 start)))
