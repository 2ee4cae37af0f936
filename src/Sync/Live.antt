-- ===== src/Sync/Live.antt =====
-- crates/okayeg/src/sync.rs: `LiveSync`, a sync session that is held open.
pub mod Stream
use okayeg.Prelude.{
  Bool, true, false, not, Bytes, Option, none, some, Result, ok, err, ◌==◌, if◌then◌else◌,
}
use okayeg.Replica.{Replica}
use okayeg.Doc
use okayeg.Doc.{Doc}
use okayeg.Sync.Msg.{Msg, have, updates, ephemeral, SyncError, loro, Perms}
use okayeg.Sync.Driver.{Outcome, import_no_orphans}

pub record LiveSync (R : Replica) : Type 0 where
  pub perms : Perms
  -- How far the peer is believed to be caught up.
  pub acked : R.Version

pub record Live : Type 0 where
  pub send : Option Msg
  pub changed : Bool

module _ (R : Replica) where
  unfoldable pub new : Perms → LiveSync R
  new perms = record { perms = perms; acked = R.no_version }

  unfoldable pub start : Doc R → Msg
  unfolding Doc.version
  start doc = have (R.encode_vv (Doc.version R doc))

  abbrev send_updates :
      LiveSync R → R.Version → Result R.LoroError Bytes → Outcome R (Option Msg) × LiveSync R
  send_updates s ver (err e) = (err (loro e), s)
  send_updates s ver (ok u) = (ok (some (updates u)), record s { acked = ver })

  -- The updates that the peer lacks since the last send, and the mark advanced.
  unfoldable pub pending : LiveSync R → Doc R → Outcome R (Option Msg) × LiveSync R
  unfolding Doc.version Doc.updates_since
  pending s doc =
      if not s.perms.pull
      then (ok none, s)
      else let ver = Doc.version R doc in
        if R.version_eq.eq ver s.acked
        then (ok none, s)
        else send_updates s ver (Doc.updates_since R doc s.acked)

  -- The session and the document after a message, and what to do; changes stay where the result
  -- is an error.
  abbrev pub After : Type 0
  After = Outcome R Live × LiveSync R × Doc R

  abbrev catch_up : Doc R → Outcome R (Option Msg) × LiveSync R → After
  catch_up doc (err e, s) = (err e, s, doc)
  catch_up doc (ok m, s) = (ok (record { send = m; changed = false }), s, doc)

  abbrev on_have : LiveSync R → Doc R → Result R.LoroError R.Version → After
  on_have s doc (err e) = (err (loro e), s, doc)
  on_have s doc (ok v) = catch_up doc (pending (record s { acked = v }) doc)

  abbrev imported : LiveSync R → Doc R → Doc R × Outcome R (Unit {0}) → After
  imported s doc (doc', err e) = (err e, s, doc')
  imported s doc (doc', ok _) = (
    ok (record {
      send = none;
      changed = not (R.version_eq.eq (Doc.version R doc') (Doc.version R doc));
    }),
    s,
    doc',
  )

  unfoldable pub on : LiveSync R → Doc R → Msg → After
  unfolding pending import_no_orphans
  on s doc (have vv) = on_have s doc (R.decode_vv vv)
  on s doc (updates bytes) =
      let taken = imported s doc (import_no_orphans R doc bytes) in
      if s.perms.push then taken else (ok (record { send = none; changed = false }), s, doc)
  on s doc (ephemeral _) = (ok (record { send = none; changed = false }), s, doc)
