-- ===== src/Tests/HeldRuns.antt =====
-- A run of a session that is held open, over the register and the presence of a store of bytes.
use okayeg.Prelude.{ℕ, ◌≡◌, refl, false, Option, none, some, List, [], ◌∷◌, Bytes, ok, lit}
use okayeg.Presence.{owns_key, strip_prefix, sane_bytes, apply_from}
use okayeg.Prelude.{keep}
use okayeg.Presence.Wire.{to_allocvec}
use okayeg.Doc.{Doc}
use okayeg.Sync.Msg.{Perms, encode, updates, ephemeral}
use okayeg.Net.Held.{
  Turn, continues, Event, frame, relayed, nudge, doc_becomes, item, lagged, PresenceLink, fresh,
  drive_live,
}
use okayeg.Net.Held.Gate.{conn, Harmless}
use okayeg.Net.Held.Rights.{doc_after, held_without_push, held_without_pull}
use okayeg.Net.Held.Relay.{AllScoped, relayed_is_scoped}
use okayeg.Tests.Register.{register}
use okayeg.Tests.PresenceRuns.{kept_bytes, both, a_alone, entry_b}
use okayeg.Tests.Postcards.{small-IsPostcard}

abbrev doc : ℕ → Doc register
doc n = record { inner = n; comment_seq = 0 }

abbrev no_rights : Perms
no_rights = record { pull = false; push = false }

abbrev snapshot : Bytes → Bytes
snapshot s = s

-- The peer may write what is under the key `a`.
abbrev link : PresenceLink register kept_bytes snapshot
link = record { presence = []; relay = []; owner = some (lit "a") }

-- Updates of the peer, its presence at the keys `a` and `b`, relayed updates of another peer and of
-- its own, a change of the document, a nudge, and a relay that lags behind.
abbrev events : List (Event register kept_bytes snapshot)
events =
    frame (ok (encode (updates (9 ∷ 0 ∷ []))))
    ∷ frame (ok (encode (ephemeral both)))
    ∷ relayed (item (lit "b", 1 ∷ entry_b))
    ∷ relayed (item (lit "a", a_alone))
    ∷ doc_becomes (doc 7)
    ∷ nudge (item tt)
    ∷ relayed lagged
    ∷ []

abbrev ended : Option (Turn register kept_bytes snapshot) → Turn register kept_bytes snapshot
ended none = continues (fresh register kept_bytes snapshot (doc 5) no_rights none false)
ended (some t) = t

abbrev last : Turn register kept_bytes snapshot
last = ended (drive_live register kept_bytes snapshot (doc 5) no_rights (some link) events)

ran : drive_live register kept_bytes snapshot (doc 5) no_rights (some link) events ≡ some last
unfolding drive_live apply_from keep owns_key sane_bytes strip_prefix to_allocvec
ran = refl

held_without_push_example :
    (conn register kept_bytes snapshot last).doc
    ≡ doc_after register kept_bytes snapshot (doc 5) events
held_without_push_example =
    held_without_push register kept_bytes snapshot no_rights (doc 5) (some link) events last refl
      ran

held_without_pull_example :
    Harmless register kept_bytes snapshot (conn register kept_bytes snapshot last).sent
held_without_pull_example =
    held_without_pull register kept_bytes snapshot no_rights (doc 5) (some link) events last refl
      ran

relayed_is_scoped_example :
    AllScoped register kept_bytes snapshot
      (some (lit "a"))
      (conn register kept_bytes snapshot last).link
relayed_is_scoped_example =
    relayed_is_scoped register kept_bytes snapshot small-IsPostcard no_rights (doc 5) link events
      last refl ran

-- One update is relayed, of the key `a` alone.
on_the_relay :
    (conn register kept_bytes snapshot last).link
    ≡ some (record { presence = a_alone; relay = (lit "a", a_alone) ∷ []; owner = some (lit "a") })
unfolding drive_live apply_from keep owns_key sane_bytes strip_prefix to_allocvec
on_the_relay = refl
