-- ===== src/Net/Held/Relay.antt =====
-- crates/okayeg-net/src/lib.rs: what a held session puts on the relay.
use okayeg.Prelude.{
  ◌≡◌, refl, sym, ◌∙◌, subst, Bool, true, false, Option, none, some, List, [], ◌∷◌, Str, Bytes,
  Result, ok, err, All, All-append, keep-All, Option-cases, some_injective, none_is_not_some, inl,
  inr, arith,
}
use okayeg.Replica.{Replica}
use okayeg.Doc.{Doc}
use okayeg.Presence
use okayeg.Presence.{Ephemeral, owns_key, apply_owned, may_write}
use okayeg.Presence.Wire.{IsPostcard, Entry, from_bytes}
use okayeg.Presence.Filter.{apply_from-Applied}
use okayeg.Sync.Msg.{Msg, have, updates, ephemeral, Perms}
use okayeg.Sync.Live
use okayeg.Net.Frame.{Error}
use okayeg.Net.Control.{decode_frame}
use okayeg.Net.Held.{
  Received, PresenceLink, continues, ends, write_msg, after_live, survivors, apply, fan_out,
  on_ephemeral, on_msg, on_decoded, on_frame, on_relay, on_nudge, Event, frame, relayed, nudge,
  doc_becomes, store_becomes, with_store, turn, on_relay_arm, opened, rounds, drive_live,
}
use okayeg.Net.Held.Gate.{State, Round, conn}

module _ (R : Replica) (P : Ephemeral) (encode_all : P.Store → Bytes) where
  abbrev Link : Type 0
  Link = PresenceLink R P encode_all

  -- An update on the relay: under the namespace of the session's peer, and with no entry that the
  -- peer may not write.
  abbrev pub IsScoped : Option Str → Str × Bytes → Type 0
  IsScoped owner (ns, sane) =
      (owner ≡ some ns)
      × ((entries : List (Entry)) × (from_bytes P.postcard sane ≡ some entries)
          × All (λ (e : Entry). owns_key ns e.key ≡ true) entries)

  abbrev pub AllScoped : Option Str → Option Link → Type 0
  AllScoped owner none = Unit
  AllScoped owner (some link) = (link.owner ≡ owner) × All (IsScoped owner) link.relay

  same-write :
      (c : State R P encode_all) (m : Msg)
      → (conn R P encode_all (write_msg R P encode_all c m)).link ≡ c.link
  unfolding write_msg
  same-write c m = ground arith

  same-live :
      (c : State R P encode_all) (a : Live.After R)
      → (conn R P encode_all (after_live R P encode_all c a)).link ≡ c.link
  unfolding write_msg
  same-live c a = ground arith

  same-relay :
      (c : State R P encode_all) (l : Link) (r : Received (Str × Bytes))
      → (conn R P encode_all (on_relay R P encode_all c l r)).link ≡ c.link
  unfolding on_relay write_msg
  same-relay c l r = ground arith

  same-nudge :
      (c : State R P encode_all) (r : Received (Unit {0}))
      → (conn R P encode_all (on_nudge R P encode_all c r)).link ≡ c.link
  unfolding on_nudge write_msg
  same-nudge c r = ground arith

  module _ (laws : IsPostcard P.postcard) (owner : Option Str) where
    sane-IsScoped :
        (s s' : P.Store) (bytes sane : Bytes) (ns : Str)
        → apply_owned P s bytes (some ns) ≡ (ok (some sane), s')
        → owner ≡ some ns
        → IsScoped owner (ns, sane)
    unfolding apply_owned
    sane-IsScoped s s' bytes sane ns h same =
        let (entries, (before, after, some_kept, applied)) =
          apply_from-Applied P laws s s' bytes sane (may_write P (some ns)) h in
        (same, (_, after, keep-All (λ (e : Entry). owns_key ns e.key) entries))

    fan_out-Scoped :
        (link : Link) (bytes : Bytes) (o : Option Str) (r : Presence.Outcome P)
        → link.owner ≡ o
        → apply_owned P link.presence bytes o ≡ r
        → AllScoped owner (some link)
        → AllScoped owner (some (fan_out R P encode_all o (survivors R P encode_all link r)))
    fan_out-Scoped link bytes none (err e, s) same h k = k
    fan_out-Scoped link bytes none (ok sane, s) same h k = k
    fan_out-Scoped link bytes (some ns) (err e, s) same h k = k
    fan_out-Scoped link bytes (some ns) (ok none, s) same h k = k
    fan_out-Scoped link bytes (some ns) (ok (some sane), s) same h k =
        let scoped = sane-IsScoped link.presence s bytes sane ns h (sym k.0 ∙ same) in
        (k.0, All-append (IsScoped owner) link.relay ((ns, sane) ∷ []) k.1 (scoped, tt))

    Scoped : Round R P encode_all → Type 0
    Scoped t = AllScoped owner (conn R P encode_all t).link

    on_ephemeral-Scoped :
        (c : State R P encode_all) (bytes : Bytes) (o : Option Link)
        → c.link ≡ o
        → AllScoped owner o
        → Scoped (on_ephemeral R P encode_all c bytes o)
    unfolding Scoped apply
    on_ephemeral-Scoped c bytes none same k = subst (AllScoped owner) (sym same) k
    on_ephemeral-Scoped c bytes (some link) same k =
        fan_out-Scoped link bytes link.owner (apply_owned P link.presence bytes link.owner) refl
          refl k

    module _ (c : State R P encode_all) (k : AllScoped owner c.link) where
      kept-Scoped : (t : Round R P encode_all) → (conn R P encode_all t).link ≡ c.link → Scoped t
      unfolding Scoped
      kept-Scoped t same = subst (AllScoped owner) (sym same) k

      on_msg-Scoped : (m : Msg) → Scoped (on_msg R P encode_all c m)
      unfolding on_msg
      on_msg-Scoped (ephemeral b) = on_ephemeral-Scoped c b c.link refl k
      on_msg-Scoped (have vv) = kept-Scoped _ (same-live c (Live.on R c.live c.doc (have vv)))
      on_msg-Scoped (updates u) = kept-Scoped _ (same-live c (Live.on R c.live c.doc (updates u)))

      on_decoded-Scoped :
          (r : Result (Error R.LoroError) Msg) → Scoped (on_decoded R P encode_all c r)
      on_decoded-Scoped (err e) = kept-Scoped (ends (err e) c) refl
      on_decoded-Scoped (ok m) = on_msg-Scoped m

      on_frame-Scoped :
          (r : Result (Error R.LoroError) Bytes) → Scoped (on_frame R P encode_all c r)
      on_frame-Scoped (err e) = kept-Scoped (ends (err e) c) refl
      on_frame-Scoped (ok f) = on_decoded-Scoped (decode_frame f)

      arm-Scoped :
          (b : Bool) (o : Option Link) (r : Received (Str × Bytes)) (t : Round R P encode_all)
          → on_relay_arm R P encode_all c b o r ≡ some t
          → Scoped t
      arm-Scoped false o r t e = elim (none_is_not_some e) [ ]
      arm-Scoped true none r t e = elim (none_is_not_some e) [ ]
      arm-Scoped true (some link) r t e =
          subst Scoped (some_injective e)
            (kept-Scoped (on_relay R P encode_all c link r) (same-relay c link r))

      with_store-Scoped :
          (o : Option Link) (s : P.Store)
          → AllScoped owner o
          → AllScoped owner (with_store R P encode_all o s)
      with_store-Scoped none s h = h
      with_store-Scoped (some link) s h = h

      turn-Scoped :
          (e : Event R P encode_all) (t : Round R P encode_all)
          → turn R P encode_all c e ≡ some t
          → Scoped t
      unfolding turn Scoped
      turn-Scoped (frame r) t h = subst Scoped (some_injective h) (on_frame-Scoped r)
      turn-Scoped (relayed r) t h = arm-Scoped c.subscribed c.link r t h
      turn-Scoped (nudge r) t h =
          subst Scoped (some_injective h)
            (kept-Scoped (on_nudge R P encode_all c r) (same-nudge c r))
      turn-Scoped (doc_becomes d) t h = subst Scoped (some_injective h) k
      turn-Scoped (store_becomes s) t h =
          subst Scoped (some_injective h) (with_store-Scoped c.link s k)

    rounds-Scoped :
        (events : List (Event R P encode_all)) (t u : Round R P encode_all)
        → Scoped t
        → rounds R P encode_all t events ≡ some u
        → Scoped u
    unfolding rounds Scoped
    rounds-Scoped [] t u k h = subst Scoped (some_injective h) k
    rounds-Scoped (e ∷ events) (ends r c) u k h = elim (none_is_not_some h) [ ]
    rounds-Scoped (e ∷ events) (continues c) u k h = elim (Option-cases (turn R P encode_all c e)) [
      | inl stuck ↦ ground (arith, stuck, h)
      | inr (t, step) ↦
          rounds-Scoped events t u (turn-Scoped c k e t step) (ground (arith, step, h))
    ]

  opened-link :
      (p : Perms) (d : Doc R) (o : Option Link)
      → (conn R P encode_all (opened R P encode_all d p o)).link ≡ o
  unfolding write_msg
  opened-link p d none = ground arith
  opened-link p d (some link) = ground arith

  -- Where postcard reads its primitives back as it writes them: whatever a session that is held
  -- open, and has put nothing on the relay before, puts there is under the namespace of its peer and
  -- has no entry that this peer may not write, whatever the peer sends; a session with the host puts
  -- nothing there.
  pub relayed_is_scoped :
      (laws : IsPostcard P.postcard) (p : Perms) (d : Doc R) (link : Link)
      (events : List (Event R P encode_all)) (t : Round R P encode_all)
      → link.relay ≡ []
      → drive_live R P encode_all d p (some link) events ≡ some t
      → AllScoped link.owner (conn R P encode_all t).link
  unfolding drive_live Scoped
  relayed_is_scoped laws p d link events t fresh_relay h =
      let at_first : AllScoped link.owner (some link) =
        (refl, subst (All (IsScoped link.owner)) (sym fresh_relay) tt) in
      rounds-Scoped laws link.owner events (opened R P encode_all d p (some link)) t
        (subst (AllScoped link.owner) (sym (opened-link p d (some link))) at_first) h
