-- ===== src/Sync/Driver.antt =====
-- crates/okayeg/src/sync.rs: `Sync`, one side of a sync exchange against a single peer.
pub mod Gate
use okayeg.Prelude.{Bool, true, false, Bytes, Result, ok, err, if◌then◌else◌}
use okayeg.Replica.{Replica}
use okayeg.Doc
use okayeg.Doc.{Doc}
use okayeg.Sync.Msg.{
  Msg, have, updates, ephemeral, SyncError, out_of_order, orphaned, loro, Perms, all_perms,
}

pub data Step : Type 0 where
  send : Msg → Step
  finish : Step

pub data State : Type 0 where
  await_have await_updates done : State

pub record Sync (R : Replica) : Type 0 where
  pub doc : Doc R
  pub state : State
  pub perms : Perms

module _ (R : Replica) where
  abbrev pub Outcome : Type 0 → Type 0
  Outcome A = Result (SyncError R.LoroError) A

  -- The test on `pending` after an import that did not fail.
  abbrev refuse_pending : Result R.LoroError Bool → Outcome (Unit {0})
  refuse_pending (err e) = err (loro e)
  refuse_pending (ok true) = err orphaned
  refuse_pending (ok false) = ok tt

  -- The document is changed also where the result is an error.
  unfoldable pub import_no_orphans : Doc R → Bytes → Doc R × Outcome (Unit {0})
  unfolding Doc.import
  import_no_orphans doc bytes =
      let (doc', status) = Doc.import R doc bytes in (doc', refuse_pending status)

  unfoldable pub gated : Doc R → Perms → Sync R
  gated doc perms = record { doc = doc; state = await_have; perms = perms }

  -- `Sync::new`
  unfoldable pub new : Doc R → Sync R
  unfolding gated
  new doc = gated doc all_perms

  unfoldable pub start : Sync R → Msg
  unfolding Doc.version
  start s = have (R.encode_vv (Doc.version R s.doc))

  -- The version that the reply starts from.
  abbrev reply_from : Sync R → Bytes → Result R.LoroError R.Version
  reply_from s vv = if s.perms.pull then R.decode_vv vv else ok (Doc.version R s.doc)

  abbrev reply : Sync R → Result R.LoroError Bytes → Outcome Step × Sync R
  reply s (err e) = (err (loro e), s)
  reply s (ok u) = (ok (send (updates u)), record s { state = await_updates })

  abbrev on_have : Sync R → Result R.LoroError R.Version → Outcome Step × Sync R
  on_have s (err e) = (err (loro e), s)
  on_have s (ok v) = reply s (Doc.updates_since R s.doc v)

  abbrev close : Sync R → Doc R → Outcome (Unit {0}) → Outcome Step × Sync R
  close s doc (err e) = (err e, record s { doc = doc })
  close s doc (ok _) = (ok finish, record s { doc = doc; state = done })

  abbrev on_updates : Sync R → Bytes → Outcome Step × Sync R
  on_updates s bytes =
      let imported = import_no_orphans s.doc bytes in
      if s.perms.push then close s imported.0 imported.1 else (ok finish, record s { state = done })

  abbrev dispatch : State → Sync R → Msg → Outcome Step × Sync R
  dispatch await_have s (have vv) = on_have s (reply_from s vv)
  dispatch await_updates s (updates bytes) = on_updates s bytes
  dispatch _ s _ = (err out_of_order, s)

  unfoldable pub on : Sync R → Msg → Outcome Step × Sync R
  unfolding import_no_orphans Doc.version Doc.updates_since
  on s msg = dispatch s.state s msg
