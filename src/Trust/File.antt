-- ===== src/Trust/File.antt =====
-- crates/eg/src/trust.rs and crates/eg/src/net.rs: the trust set as the file `.eg/trust`, read anew
-- for every peer that connects. The TOML library and the endpoint ids are parameters.
pub mod Gate
pub mod RoundTrip
use okayeg.Prelude.{
  ◌≡◌, Bool, Option, none, some, List, [], ◌∷◌, Str, Bytes, lit, Result, ok, err, ok_or, Eq, ◌>>=◌,
}
use okayeg.Prelude.Assoc.{Assoc, insert}
use okayeg.Prelude.Ordered.{put, Ordered}
use okayeg.Utf8.{as_bytes, from_utf8}
use okayeg.Utf8.RoundTrip.{AllScalar}
use okayeg.Sync.Msg.{Perms}
use okayeg.Net.Authz.{Decision, grant, deny}
use okayeg.Trust.{TrustAction, add, remove, list, Report, perform, GrantData, Trust, perms}

-- One credential's row in the TOML file.
pub record Row : Type 0 where
  pub pull : Bool
  pub push : Bool
  pub label : Option Str

-- `EndpointId`'s `FromStr` and `Display`, and `toml::from_str` and `toml::to_string_pretty` on the
-- table of the rows.
pub record Formats (EndpointId : Type 0) : Type 0 where
  pub from_str : Str → Option EndpointId
  pub to_string : EndpointId → Str
  pub parse : Str → Option (Assoc Str Row)
  pub print : Assoc Str Row → Option Str

pub record IsFaithful {EndpointId : Type 0} (F : Formats EndpointId) : Type 0 where
  pub from_str-to_string : (id : EndpointId) → F.from_str (F.to_string id) ≡ some id
  -- A table, which is ordered by its keys, is read back; what is printed is a string.
  pub parse-print :
      (rows : Assoc Str Row) (text : Str)
      → Ordered rows
      → F.print rows ≡ some text
      → F.parse text ≡ some rows
  pub print-AllScalar :
      (rows : Assoc Str Row) (text : Str) → F.print rows ≡ some text → AllScalar text

-- What can go wrong: the file cannot be read, or is not a trust set.
pub data IoError : Type 0 where
  not_found invalid_data other_error : IoError

abbrev pub row_of : GrantData → Row
row_of g = record { pull = g.perms.pull; push = g.perms.push; label = g.label }

abbrev pub grant_of : Row → GrantData
grant_of row = record { perms = record { pull = row.pull; push = row.push }; label = row.label }

-- The text of the file; a missing file is empty.
abbrev pub text_of : Result IoError Bytes → Result IoError Str
text_of (ok bytes) = ok_or (from_utf8 bytes) invalid_data
text_of (err not_found) = ok []
text_of (err invalid_data) = err invalid_data
text_of (err other_error) = err other_error

-- The file after it was written to, if it was.
abbrev pub file_after : Result IoError Bytes → Option Bytes → Result IoError Bytes
file_after file none = file
file_after file (some bytes) = ok bytes

abbrev pub written :
    {EndpointId : Type 0}
    → Result IoError Bytes
    → Report EndpointId
    → Result IoError (Option Bytes × Report EndpointId)
written (err e) r = err e
written (ok bytes) r = ok (some bytes, r)

-- The answer of the gate, of what the trust set says of a peer.
abbrev pub gate_decision : Option Perms → Decision
gate_decision none = deny (some (lit "ask the owner to run `eg trust <your-id>`"))
gate_decision (some p) = grant p

abbrev pub gate :
    {EndpointId : Type 0} ⦃e : Eq EndpointId⦄
    → Result IoError (Trust EndpointId)
    → EndpointId
    → Decision
gate (err _) who = deny none
gate (ok trust) who = gate_decision (perms trust who)

module _ {EndpointId : Type 0} ⦃e : Eq EndpointId⦄ (F : Formats EndpointId) where
  -- The loop of `load`, over the rows in the order of the table.
  unfoldable pub load_rows :
      Assoc EndpointId GrantData → Assoc Str Row → Result IoError (Assoc EndpointId GrantData)
  load_rows peers [] = ok peers
  load_rows peers ((id_str, row) ∷ rows) = ok_or (F.from_str id_str) invalid_data >>= λ id.
      load_rows (insert id (grant_of row) peers) rows

  abbrev pub loaded : Assoc Str Row → Result IoError (Trust EndpointId)
  loaded rows = load_rows [] rows >>= λ peers. ok (record { peers = peers })

  unfoldable pub load : Result IoError Bytes → Result IoError (Trust EndpointId)
  load file = text_of file >>= λ text. ok_or (F.parse text) invalid_data >>= λ rows. loaded rows

  -- The table of the rows. The order in which a `HashMap` gives its entries is not specified.
  unfoldable pub rows_of : Assoc EndpointId GrantData → Assoc Str Row
  rows_of [] = []
  rows_of ((id, g) ∷ peers) = put (F.to_string id) (row_of g) (rows_of peers)

  -- The bytes that are written to the file.
  unfoldable pub save : Trust EndpointId → Result IoError Bytes
  save t = ok_or (F.print (rows_of t.peers)) other_error >>= λ text. ok (as_bytes text)

  -- What is written to the file after a change, if anything, and the report.
  abbrev pub finished :
      TrustAction
      → Trust EndpointId × Report EndpointId
      → Result IoError (Option Bytes × Report EndpointId)
  finished list (t, r) = ok (none, r)
  finished (add _ _) (t, r) = written (save t) r
  finished (remove _ _) (t, r) = written (save t) r

  abbrev pub acted :
      TrustAction → Trust EndpointId → Result IoError (Option Bytes × Report EndpointId)
  acted action t = ok_or (perform F.from_str t action) other_error >>= finished action

  unfoldable pub perform_action :
      Result IoError Bytes → TrustAction → Result IoError (Option Bytes × Report EndpointId)
  perform_action file action = load file >>= λ t. acted action t

  -- `Gate::authorize` of a repository without an authorization command
  unfoldable pub authorize : Result IoError Bytes → EndpointId → Decision
  authorize file who = gate (load file) who
