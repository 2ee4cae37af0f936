-- ===== src/Doc.antt =====
-- crates/okayeg/src/doc.rs: a doc wraps one Loro document and the sequence of its comment ids.
use okayeg.Prelude.{ℕ, Bool, Bytes, Result, ok, ◌>>=◌}
use okayeg.Replica.{Replica}

pub record Doc (R : Replica) : Type 0 where
  pub inner : R.LoroDoc
  pub comment_seq : ℕ

module _ (R : Replica) where
  unfoldable pub new : Doc R
  new = record { inner = R.new; comment_seq = 0 }

  -- `inner.import(bytes)?` on a new document
  unfoldable pub from_snapshot : Bytes → Result R.LoroError (Doc R)
  from_snapshot bytes = do
    let (inner, status) = R.import R.new bytes
    pending ← status
    ok (record { inner = inner; comment_seq = 0 })

  unfoldable pub commit : Doc R → Doc R
  commit doc = record doc { inner = R.commit_doc doc.inner }

  unfoldable pub version : Doc R → R.Version
  version doc = R.state_vv doc.inner

  unfoldable pub snapshot : Doc R → Result R.LoroError Bytes
  snapshot doc = R.export_snapshot doc.inner

  unfoldable pub updates_since : Doc R → R.Version → Result R.LoroError Bytes
  updates_since doc since = R.export_updates doc.inner since

  unfoldable pub import : Doc R → Bytes → Doc R × Result R.LoroError Bool
  import doc bytes =
      let (inner, status) = R.import doc.inner bytes in (record doc { inner = inner }, status)
