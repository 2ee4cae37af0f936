-- ===== src/Net/Held/Rights.antt =====
-- crates/okayeg-net/src/lib.rs: what a held session does over its lifetime for a peer that may not
-- pull, or not push.
use okayeg.Prelude.{
  ◌≡◌, refl, ap, ◌∙◌, subst, Bool, true, false, Option, none, some, List, [], ◌∷◌, Str, Bytes, ok,
  err, Option-cases, inl, inr, if◌then◌else◌, some_injective, none_is_not_some, arith,
}
use okayeg.Replica.{Replica}
use okayeg.Doc.{Doc}
use okayeg.Presence.{Ephemeral}
use okayeg.Sync.Msg.{Msg, ephemeral, Perms}
use okayeg.Sync.Driver
use okayeg.Sync.Live
use okayeg.Sync.Live.{LiveSync, Live}
use okayeg.Sync.Live.Stream.{sent_pending, quiet-pending}
use okayeg.Net.Held.{
  Received, item, lagged, closed, PresenceLink, continues, ends, write_msg, on_relay, on_nudge,
  push_gap, Event, frame, relayed, nudge, doc_becomes, store_becomes, turn, on_relay_arm, opened,
  fresh, then_turn, rounds, drive_live,
}
use okayeg.Net.Held.Gate.{
  State, Round, conn, Harmless, have_sent, nothing_sent, IsHarmless, Keeps, write-Keeps,
  write_some-Keeps, presence-Keeps, on_frame-Keeps, over, pending-perms,
}

module _ (R : Replica) (P : Ephemeral) (encode_all : P.Store → Bytes) where
  abbrev pub next_doc : Doc R → Event R P encode_all → Doc R
  next_doc d (doc_becomes d') = d'
  next_doc d _ = d

  -- The document as the other sessions made it last.
  abbrev pub doc_after : Doc R → List (Event R P encode_all) → Doc R
  doc_after d [] = d
  doc_after d (e ∷ events) = doc_after (next_doc d e) events

  abbrev Holds : Perms → Doc R → Round R P encode_all → Type 0
  Holds = Keeps R P encode_all

  abbrev going : State R P encode_all → Round R P encode_all
  going c = continues c

  module _ (p : Perms) (d : Doc R) where
    if-Keeps :
        (b : Bool) (t u : Round R P encode_all)
        → Holds p d t
        → Holds p d u
        → Holds p d (if b then t else u)
    if-Keeps true t u k l = k
    if-Keeps false t u k l = l

    on_relay-Keeps :
        (c : State R P encode_all) (link : PresenceLink R P encode_all) (r : Received (Str × Bytes))
        → Holds p d (going c)
        → Holds p d (on_relay R P encode_all c link r)
    unfolding on_relay
    on_relay-Keeps c link (item (origin, b)) k =
        if-Keeps _ _ _ (presence-Keeps R P encode_all p d c b k) k
    on_relay-Keeps c link lagged k =
        presence-Keeps R P encode_all p d c (encode_all link.presence) k
    on_relay-Keeps c link closed k = record { perms = k.perms; doc = k.doc; sent = k.sent }

    push_gap-Keeps :
        (c : State R P encode_all) (o : Driver.Outcome R (Option Msg) × LiveSync R)
        → o.1.perms ≡ p
        → (p.pull ≡ false → sent_pending R o.0 ≡ none)
        → Holds p d (going c)
        → Holds p d (push_gap R P encode_all c o)
    push_gap-Keeps c (err e, s) same quiet k = record { perms = same; doc = k.doc; sent = k.sent }
    push_gap-Keeps c (ok m, s) same quiet k =
        write_some-Keeps R P encode_all p d (record c { live = s }) m quiet
          (record { perms = same; doc = k.doc; sent = k.sent })

    gap-Keeps :
        (c : State R P encode_all)
        → Holds p d (going c)
        → Holds p d (push_gap R P encode_all c (Live.pending R c.live c.doc))
    gap-Keeps c k =
        push_gap-Keeps c (Live.pending R c.live c.doc)
          (pending-perms R P encode_all c.live c.doc ∙ k.perms)
          (λ h. (quiet-pending R c.live c.doc (ap (λ (q : Perms). q.pull) k.perms ∙ h)).0) k

    on_nudge-Keeps :
        (c : State R P encode_all) (r : Received (Unit {0}))
        → Holds p d (going c)
        → Holds p d (on_nudge R P encode_all c r)
    unfolding on_nudge
    on_nudge-Keeps c (item _) k = gap-Keeps c k
    on_nudge-Keeps c lagged k = gap-Keeps c k
    on_nudge-Keeps c closed k = over R P encode_all p d c (ok tt) k

    arm-Keeps :
        (c : State R P encode_all) (b : Bool) (o : Option (PresenceLink R P encode_all))
        (r : Received (Str × Bytes)) (t : Round R P encode_all)
        → Holds p d (going c)
        → on_relay_arm R P encode_all c b o r ≡ some t
        → Holds p d t
    arm-Keeps c false o r t k e = elim (none_is_not_some e) [ ]
    arm-Keeps c true none r t k e = elim (none_is_not_some e) [ ]
    arm-Keeps c true (some link) r t k e =
        subst (Holds p d) (some_injective e) (on_relay-Keeps c link r k)

  turn-Keeps :
      (p : Perms) (d : Doc R) (c : State R P encode_all) (e : Event R P encode_all)
      (t : Round R P encode_all)
      → Holds p d (going c)
      → turn R P encode_all c e ≡ some t
      → Holds p (next_doc d e) t
  unfolding turn
  turn-Keeps p d c (frame r) t k h =
      subst (Holds p d) (some_injective h) (on_frame-Keeps R P encode_all p d c r k)
  turn-Keeps p d c (relayed r) t k h = arm-Keeps p d c c.subscribed c.link r t k h
  turn-Keeps p d c (nudge r) t k h = subst (Holds p d) (some_injective h) (on_nudge-Keeps p d c r k)
  turn-Keeps p d c (doc_becomes d') t k h =
      subst (Holds p d') (some_injective h)
        (record { perms = k.perms; doc = λ q. refl; sent = k.sent })
  turn-Keeps p d c (store_becomes s) t k h =
      subst (Holds p d) (some_injective h) (record { perms = k.perms; doc = k.doc; sent = k.sent })

  rounds-Keeps :
      (events : List (Event R P encode_all)) (p : Perms) (d : Doc R) (t u : Round R P encode_all)
      → Holds p d t
      → rounds R P encode_all t events ≡ some u
      → Holds p (doc_after d events) u
  unfolding rounds
  rounds-Keeps [] p d t u k h = subst (Holds p d) (some_injective h) k
  rounds-Keeps (e ∷ events) p d (ends r c) u k h = elim (none_is_not_some h) [ ]
  rounds-Keeps (e ∷ events) p d (continues c) u k h =
      elim (Option-cases (turn R P encode_all c e)) [
        | inl stuck ↦ ground (arith, stuck, h)
        | inr (t, step) ↦
            rounds-Keeps events p (next_doc d e) t u (turn-Keeps p d c e t k step)
              (ground (arith, step, h))
      ]

  snapshot-Keeps :
      (p : Perms) (d : Doc R) (link : PresenceLink R P encode_all) (t : Round R P encode_all)
      → Holds p d t
      → Holds p d (
          then_turn R P encode_all t
            (λ c. write_msg R P encode_all c (ephemeral (encode_all link.presence))))
  snapshot-Keeps p d link (ends r c) k = k
  snapshot-Keeps p d link (continues c) k =
      presence-Keeps R P encode_all p d c (encode_all link.presence) k

  start-Keeps :
      (p : Perms) (d : Doc R) (link : Option (PresenceLink R P encode_all)) (b : Bool)
      → Holds p d (write_msg R P encode_all (fresh R P encode_all d p link b) (Live.start R d))
  unfolding IsHarmless Live.start Live.new
  start-Keeps p d link b =
      write-Keeps R P encode_all p d (fresh R P encode_all d p link b) (Live.start R d)
        (λ h. λ x f harmless e. have_sent x f _ harmless e)
        (record { perms = refl; doc = λ q. refl; sent = λ q. nothing_sent })

  opened-Keeps :
      (p : Perms) (d : Doc R) (link : Option (PresenceLink R P encode_all))
      → Holds p d (opened R P encode_all d p link)
  opened-Keeps p d none = start-Keeps p d none false
  opened-Keeps p d (some link) = snapshot-Keeps p d link _ (start-Keeps p d (some link) true)

  drive_live-Keeps :
      (p : Perms) (d : Doc R) (link : Option (PresenceLink R P encode_all))
      (events : List (Event R P encode_all)) (t : Round R P encode_all)
      → drive_live R P encode_all d p link events ≡ some t
      → Holds p (doc_after d events) t
  unfolding drive_live
  drive_live-Keeps p d link events t h =
      rounds-Keeps events p d (opened R P encode_all d p link) t (opened-Keeps p d link) h

  -- A peer without push never changes the document by a session that is held open, whatever frames,
  -- relayed updates and nudges the session takes up and in whatever order, also where it ends by an
  -- error: the document is as the other sessions left it.
  pub held_without_push :
      (p : Perms) (d : Doc R) (link : Option (PresenceLink R P encode_all))
      (events : List (Event R P encode_all)) (t : Round R P encode_all)
      → p.push ≡ false
      → drive_live R P encode_all d p link events ≡ some t
      → (conn R P encode_all t).doc ≡ doc_after d events
  held_without_push p d link events t no_push h = (drive_live-Keeps p d link events t h).doc no_push

  -- A peer without pull is sent nothing but frames of versions and of presence by a session that is
  -- held open, whatever the session takes up: no updates of the document.
  pub held_without_pull :
      (p : Perms) (d : Doc R) (link : Option (PresenceLink R P encode_all))
      (events : List (Event R P encode_all)) (t : Round R P encode_all)
      → p.pull ≡ false
      → drive_live R P encode_all d p link events ≡ some t
      → Harmless R P encode_all (conn R P encode_all t).sent
  held_without_pull p d link events t no_pull h =
      (drive_live-Keeps p d link events t h).sent no_pull
