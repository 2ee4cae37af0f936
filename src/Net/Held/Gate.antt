-- ===== src/Net/Held/Gate.antt =====
-- crates/okayeg-net/src/lib.rs: what a held session does for a peer that may not pull, or not push.
use okayeg.Prelude.{
  ◌≡◌, sym, ap, ◌∙◌, subst, Bool, true, false, Option, none, some, [], ◌++◌, Bytes, Result, ok, err,
  Result-cases, inl, inr, none_is_not_some, arith,
}
use okayeg.Replica.{Replica}
use okayeg.Doc.{Doc}
use okayeg.Presence.{Ephemeral}
use okayeg.Sync.Msg
use okayeg.Sync.Msg.{Msg, have, updates, ephemeral, Perms}
use okayeg.Sync.Live
use okayeg.Sync.Live.{LiveSync, Live}
use okayeg.Sync.Live.Stream.{sent_by, quiet-on}
use okayeg.Net.Frame.{Error, write_frame}
use okayeg.Net.Control.{decode_frame}
use okayeg.Net.Held.{
  PresenceLink, Connection, Turn, continues, ends, wrote, write_msg, write_some, nudge_if,
  after_live, on_ephemeral, on_msg, on_decoded, on_frame,
}

module _ (R : Replica) (P : Ephemeral) (encode_all : P.Store → Bytes) where
  abbrev pub conn : Turn R P encode_all → Connection R P encode_all
  conn (continues c) = c
  conn (ends r c) = c

  -- Bytes that are frames of versions and of presence, and of nothing else.
  pub data Harmless : Bytes → Type 0 where
    nothing_sent : Harmless []
    have_sent :
        (b f vv : Bytes)
        → Harmless b
        → write_frame {E = R.LoroError} (Msg.encode (have vv)) ≡ ok f
        → Harmless (b ++ f)
    presence_sent :
        (b f p : Bytes)
        → Harmless b
        → write_frame {E = R.LoroError} (Msg.encode (ephemeral p)) ≡ ok f
        → Harmless (b ++ f)

  abbrev pub State : Type 0
  State = Connection R P encode_all

  abbrev pub Round : Type 0
  Round = Turn R P encode_all

  -- What a round keeps, of a session with these permissions over this document.
  pub record Keeps (p : Perms) (d : Doc R) (t : Round) : Type 0 where
    pub perms : (conn t).live.perms ≡ p
    pub doc : p.push ≡ false → (conn t).doc ≡ d
    pub sent : p.pull ≡ false → Harmless (conn t).sent

  unfoldable pub IsHarmless : Msg → Type 0
  IsHarmless m =
      (b f : Bytes)
      → Harmless b
      → write_frame {E = R.LoroError} (Msg.encode m) ≡ ok f
      → Harmless (b ++ f)

  module _ (p : Perms) (d : Doc R) where
    pub write-Keeps :
        (c : State) (m : Msg)
        → (p.pull ≡ false → IsHarmless m)
        → Keeps p d (continues c)
        → Keeps p d (write_msg R P encode_all c m)
    unfolding write_msg IsHarmless
    write-Keeps c m safe k = elim (Result-cases (write_frame {E = R.LoroError} (Msg.encode m))) [
      | inl (f, e) ↦
          subst (λ r. Keeps p d (wrote R P encode_all c r)) (sym e)
            (record { perms = k.perms; doc = k.doc; sent = λ h. safe h c.sent f (k.sent h) e })
      | inr (bad, e) ↦
          subst (λ r. Keeps p d (wrote R P encode_all c r)) (sym e)
            (record { perms = k.perms; doc = k.doc; sent = k.sent })
    ]

    pub write_some-Keeps :
        (c : State) (o : Option Msg)
        → (p.pull ≡ false → o ≡ none)
        → Keeps p d (continues c)
        → Keeps p d (write_some R P encode_all c o)
    write_some-Keeps c none none_sent k = k
    write_some-Keeps c (some m) none_sent k =
        write-Keeps c m (λ h. elim (none_is_not_some (sym (none_sent h))) [ ]) k

    pub presence-Keeps :
        (c : State) (b : Bytes)
        → Keeps p d (continues c)
        → Keeps p d (write_msg R P encode_all c (ephemeral b))
    unfolding IsHarmless
    presence-Keeps c b k =
        write-Keeps c (ephemeral b) (λ h. λ x f harmless e. presence_sent x f b harmless e) k

    nudge_if-Keeps : (b : Bool) (t : Round) → Keeps p d t → Keeps p d (nudge_if R P encode_all b t)
    nudge_if-Keeps b (ends r c) k = k
    nudge_if-Keeps true (continues c) k = record { perms = k.perms; doc = k.doc; sent = k.sent }
    nudge_if-Keeps false (continues c) k = k

    after_live-Keeps :
        (c : State) (a : Live.After R)
        → a.1.perms ≡ p
        → (p.push ≡ false → a.2 ≡ d)
        → (p.pull ≡ false → sent_by R a.0 ≡ none)
        → Keeps p d (continues c)
        → Keeps p d (after_live R P encode_all c a)
    after_live-Keeps c (err e, s, d') same doc quiet k = record {
      perms = same;
      doc = doc;
      sent = k.sent;
    }
    after_live-Keeps c (ok out, s, d') same doc quiet k = nudge_if-Keeps out.changed _ (
        write_some-Keeps (record c { live = s; doc = d' }) out.send quiet
          (record { perms = same; doc = doc; sent = k.sent }))

  live-perms : (s : LiveSync R) (doc : Doc R) (m : Msg) → (Live.on R s doc m).1.perms ≡ s.perms
  unfolding Live.on
  live-perms s doc m = ground arith

  live-doc :
      (s : LiveSync R) (doc : Doc R) (m : Msg) → s.perms.push ≡ false → (Live.on R s doc m).2 ≡ doc
  unfolding Live.on
  live-doc s doc m h = ground (arith, h)

  pub pending-perms : (s : LiveSync R) (doc : Doc R) → (Live.pending R s doc).1.perms ≡ s.perms
  unfolding Live.pending
  pending-perms s doc = ground arith

  module _ (p : Perms) (d : Doc R) where
    live-Keeps :
        (c : State) (m : Msg)
        → Keeps p d (continues c)
        → Keeps p d (after_live R P encode_all c (Live.on R c.live c.doc m))
    live-Keeps c m k =
        after_live-Keeps p d c (Live.on R c.live c.doc m) (live-perms c.live c.doc m ∙ k.perms)
          (λ h. live-doc c.live c.doc m (ap (λ (q : Perms). q.push) k.perms ∙ h) ∙ k.doc h)
          (λ h. (quiet-on R c.live c.doc m (ap (λ (q : Perms). q.pull) k.perms ∙ h)).0) k

    on_ephemeral-Keeps :
        (c : State) (b : Bytes) (o : Option (PresenceLink R P encode_all))
        → Keeps p d (continues c)
        → Keeps p d (on_ephemeral R P encode_all c b o)
    on_ephemeral-Keeps c b none k = k
    on_ephemeral-Keeps c b (some link) k = record { perms = k.perms; doc = k.doc; sent = k.sent }

    on_msg-Keeps :
        (c : State) (m : Msg) → Keeps p d (continues c) → Keeps p d (on_msg R P encode_all c m)
    unfolding on_msg
    on_msg-Keeps c (ephemeral b) k = on_ephemeral-Keeps c b c.link k
    on_msg-Keeps c (have vv) k = live-Keeps c (have vv) k
    on_msg-Keeps c (updates u) k = live-Keeps c (updates u) k

    pub over :
        (c : State) (r : Result (Error R.LoroError) (Unit {0}))
        → Keeps p d (continues c)
        → Keeps p d (ends r c)
    over c r k = record { perms = k.perms; doc = k.doc; sent = k.sent }

    on_decoded-Keeps :
        (c : State) (r : Result (Error R.LoroError) Msg)
        → Keeps p d (continues c)
        → Keeps p d (on_decoded R P encode_all c r)
    on_decoded-Keeps c (err e) k = over c (err e) k
    on_decoded-Keeps c (ok m) k = on_msg-Keeps c m k

    pub on_frame-Keeps :
        (c : State) (r : Result (Error R.LoroError) Bytes)
        → Keeps p d (continues c)
        → Keeps p d (on_frame R P encode_all c r)
    on_frame-Keeps c (err e) k = over c (err e) k
    on_frame-Keeps c (ok f) k = on_decoded-Keeps c (decode_frame f) k
