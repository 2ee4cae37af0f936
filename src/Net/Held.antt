-- ===== src/Net/Held.antt =====
-- crates/okayeg-net/src/lib.rs: `drive_live`, a sync session that is held open, with its tie into
-- the shared store of presence. A round of its loop is one `Event`, the arm of `select!` that is
-- ready; other sessions change the shared document and store between the rounds.
pub mod Gate
pub mod Rights
pub mod Relay
use okayeg.Prelude.{
  ℕ, ◌+◌, Bool, true, false, not, Option, none, some, List, [], ◌∷◌, ◌++◌, Str, Str_eq, Bytes,
  Result, ok, err, ◌==◌, if◌then◌else◌,
}
use okayeg.Replica.{Replica}
use okayeg.Doc.{Doc}
use okayeg.Presence
use okayeg.Presence.{Ephemeral, apply_owned}
use okayeg.Sync.Msg
use okayeg.Sync.Msg.{Msg, have, updates, ephemeral, Perms}
use okayeg.Sync.Driver
use okayeg.Sync.Live
use okayeg.Sync.Live.{LiveSync, Live}
use okayeg.Net.Frame.{Error, protocol, write_frame}
use okayeg.Net.Control.{decode_frame}

-- `Result` of `broadcast::Receiver::recv`
pub data Received (A : Type 0) : Type 0 where
  item : A → Received A
  lagged closed : Received A

-- `encode_all` is the snapshot of a store.
module _ (R : Replica) (P : Ephemeral) (encode_all : P.Store → Bytes) where
  abbrev pub NetError : Type 0
  NetError = Error R.LoroError

  -- `PresenceLink`, with the updates that were sent on the relay.
  pub record PresenceLink : Type 0 where
    pub presence : P.Store
    pub relay : List (Str × Bytes)
    pub owner : Option Str

  abbrev pub survivors : PresenceLink → Presence.Outcome P → Option Bytes × PresenceLink
  survivors link (err e, s) = (none, record link { presence = s })
  survivors link (ok sane, s) = (sane, record link { presence = s })

  -- `PresenceLink::apply`
  unfoldable pub apply : PresenceLink → Bytes → Option Bytes × PresenceLink
  unfolding apply_owned
  apply link bytes = survivors link (apply_owned P link.presence bytes link.owner)

  -- `subscribed` is whether the relay is listened to, `sent` what went to the peer, and `changed`
  -- counts the nudges that the session fired.
  pub record Connection : Type 0 where
    pub live : LiveSync R
    pub doc : Doc R
    pub link : Option PresenceLink
    pub subscribed : Bool
    pub sent : Bytes
    pub changed : ℕ

  -- The loop goes on, or has ended.
  pub data Turn : Type 0 where
    continues : Connection → Turn
    ends : Result NetError (Unit {0}) → Connection → Turn

  abbrev pub wrote : Connection → Result NetError Bytes → Turn
  wrote c (err e) = ends (err e) c
  wrote c (ok frame) = continues (record c { sent = c.sent ++ frame })

  unfoldable pub write_msg : Connection → Msg → Turn
  unfolding write_frame Msg.encode
  write_msg c m = wrote c (write_frame (Msg.encode m))

  abbrev pub write_some : Connection → Option Msg → Turn
  write_some c none = continues c
  write_some c (some m) = write_msg c m

  abbrev pub nudge_if : Bool → Turn → Turn
  nudge_if b (ends r c) = ends r c
  nudge_if false (continues c) = continues c
  nudge_if true (continues c) = continues (record c { changed = c.changed + 1 })

  -- The survivors of a namespaced peer go on the relay.
  abbrev pub fan_out : Option Str → Option Bytes × PresenceLink → PresenceLink
  fan_out (some ns) (some sane, link) = record link { relay = link.relay ++ ((ns, sane) ∷ []) }
  fan_out (some ns) (none, link) = link
  fan_out none (_, link) = link

  abbrev pub on_ephemeral : Connection → Bytes → Option PresenceLink → Turn
  on_ephemeral c bytes none = continues c
  on_ephemeral c bytes (some link) =
      continues (record c { link = some (fan_out link.owner (apply link bytes)) })

  abbrev pub after_live : Connection → Live.After R → Turn
  after_live c (err e, s, d) = ends (err (protocol e)) (record c { live = s; doc = d })
  after_live c (ok out, s, d) =
      nudge_if out.changed (write_some (record c { live = s; doc = d }) out.send)

  unfoldable pub on_msg : Connection → Msg → Turn
  unfolding apply Live.on write_msg
  on_msg c (ephemeral bytes) = on_ephemeral c bytes c.link
  on_msg c (have vv) = after_live c (Live.on R c.live c.doc (have vv))
  on_msg c (updates u) = after_live c (Live.on R c.live c.doc (updates u))

  abbrev pub on_decoded : Connection → Result NetError Msg → Turn
  on_decoded c (err e) = ends (err e) c
  on_decoded c (ok m) = on_msg c m

  abbrev pub on_frame : Connection → Result NetError Bytes → Turn
  on_frame c (err e) = ends (err e) c
  on_frame c (ok frame) = on_decoded c (decode_frame frame)

  abbrev pub is_own : Option Str → Str → Bool
  is_own none origin = false
  is_own (some owner) origin = owner == origin

  unfoldable pub on_relay : Connection → PresenceLink → Received (Str × Bytes) → Turn
  unfolding write_msg
  on_relay c link (item (origin, bytes)) =
      if not (is_own link.owner origin) then write_msg c (ephemeral bytes) else continues c
  on_relay c link lagged = write_msg c (ephemeral (encode_all link.presence))
  on_relay c link closed = continues (record c { subscribed = false })

  abbrev pub push_gap : Connection → Driver.Outcome R (Option Msg) × LiveSync R → Turn
  push_gap c (err e, s) = ends (err (protocol e)) (record c { live = s })
  push_gap c (ok m, s) = write_some (record c { live = s }) m

  unfoldable pub on_nudge : Connection → Received (Unit {0}) → Turn
  unfolding Live.pending write_msg
  on_nudge c closed = ends (ok tt) c
  on_nudge c (item _) = push_gap c (Live.pending R c.live c.doc)
  on_nudge c lagged = push_gap c (Live.pending R c.live c.doc)

  -- What `select!` takes up: a frame of the peer, an item of the relay, a nudge; or what other
  -- sessions do between two rounds.
  pub data Event : Type 0 where
    frame : Result NetError Bytes → Event
    relayed : Received (Str × Bytes) → Event
    nudge : Received (Unit {0}) → Event
    doc_becomes : Doc R → Event
    store_becomes : P.Store → Event

  -- The arm of the relay is closed without a subscription (`none`); a subscription without a link is
  -- a panic.
  abbrev pub on_relay_arm :
      Connection → Bool → Option PresenceLink → Received (Str × Bytes) → Option Turn
  on_relay_arm c false link r = none
  on_relay_arm c true none r = none
  on_relay_arm c true (some link) r = some (on_relay c link r)

  abbrev pub with_store : Option PresenceLink → P.Store → Option PresenceLink
  with_store none s = none
  with_store (some link) s = some (record link { presence = s })

  unfoldable pub turn : Connection → Event → Option Turn
  unfolding decode_frame on_msg on_relay on_nudge
  turn c (frame r) = some (on_frame c r)
  turn c (relayed r) = on_relay_arm c c.subscribed c.link r
  turn c (nudge r) = some (on_nudge c r)
  turn c (doc_becomes d) = some (continues (record c { doc = d }))
  turn c (store_becomes s) = some (continues (record c { link = with_store c.link s }))

  abbrev pub fresh : Doc R → Perms → Option PresenceLink → Bool → Connection
  fresh doc perms link subscribed = record {
    live = Live.new R perms;
    doc = doc;
    link = link;
    subscribed = subscribed;
    sent = [];
    changed = 0;
  }

  abbrev pub then_turn : Turn → (Connection → Turn) → Turn
  then_turn (ends r c) go = ends r c
  then_turn (continues c) go = go c

  -- What is sent before the loop: the version, and a snapshot of the store.
  abbrev pub opened : Doc R → Perms → Option PresenceLink → Turn
  opened doc perms none = write_msg (fresh doc perms none false) (Live.start R doc)
  opened doc perms (some link) =
      then_turn (write_msg (fresh doc perms (some link) true) (Live.start R doc))
        (λ c. write_msg c (ephemeral (encode_all link.presence)))

  -- The loop over what happens; it is not over when the events are.
  unfoldable pub rounds : Turn → List Event → Option Turn
  rounds t [] = some t
  rounds (ends r c) (e ∷ events) = none
  rounds (continues c) (e ∷ events) = elim (turn c e) [ none ↦ none | some t ↦ rounds t events ]

  unfoldable pub drive_live : Doc R → Perms → Option PresenceLink → List Event → Option Turn
  unfolding rounds turn write_msg Live.new Live.start
  drive_live doc perms link events = rounds (opened doc perms link) events
