-- ===== src/Replica.antt =====
-- What crates/okayeg uses of a Loro document's history: versions, export and import. Loro is not
-- in the repository, so it is a record of operations, with its documented behaviour as laws.
use okayeg.Prelude.{◌≡◌, Bool, false, Bytes, Eq, Result, ok}

pub record Replica : Type 1 where
  pub LoroDoc : Type 0
  pub Version : Type 0
  pub LoroError : Type 0
  pub new : LoroDoc
  pub version_eq : Eq Version
  -- `VersionVector::default()`
  pub no_version : Version
  -- `state_vv`
  pub state_vv : LoroDoc → Version
  -- `VersionVector::encode` and `VersionVector::decode`
  pub encode_vv : Version → Bytes
  pub decode_vv : Bytes → Result LoroError Version
  -- `export(ExportMode::updates(v))` and `export(ExportMode::snapshot())`
  pub export_updates : LoroDoc → Version → Result LoroError Bytes
  pub export_snapshot : LoroDoc → Result LoroError Bytes
  -- `import`; the Boolean says whether `ImportStatus::pending` is `Some`
  pub import : LoroDoc → Bytes → LoroDoc × Result LoroError Bool
  -- `commit`
  pub commit_doc : LoroDoc → LoroDoc

-- Loro's documented behaviour. The content of a document is a join semilattice, updates since a
-- version carry what a document that includes this version lacks, and updates since a document's
-- own version carry nothing.
pub record Converges (R : Replica) : Type 1 where
  pub Content : Type 0
  pub content : R.LoroDoc → Content
  pub join : Content → Content → Content
  pub join_comm : (a b : Content) → join a b ≡ join b a
  pub Includes : R.LoroDoc → R.Version → Type 0
  pub includes_self : (d : R.LoroDoc) → Includes d (R.state_vv d)
  pub join_includes :
      (d e : R.LoroDoc) → Includes e (R.state_vv d) → join (content e) (content d) ≡ content e
  pub decode_encode : (v : R.Version) → R.decode_vv (R.encode_vv v) ≡ ok v
  pub exports : (d : R.LoroDoc) (v : R.Version) → (u : Bytes) × (R.export_updates d v ≡ ok u)
  pub import_missing :
      (d e : R.LoroDoc) (v : R.Version) (u : Bytes)
      → Includes e v
      → R.export_updates d v ≡ ok u
      → ((R.import e u).1 ≡ ok false)
        × (content (R.import e u).0 ≡ join (content e) (content d))
        × Includes (R.import e u).0 (R.state_vv d)
  pub import_nothing :
      (d e : R.LoroDoc) (u : Bytes)
      → R.export_updates d (R.state_vv d) ≡ ok u
      → ((R.import e u).1 ≡ ok false) × (content (R.import e u).0 ≡ content e)
