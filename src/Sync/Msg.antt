-- ===== src/Sync/Msg.antt =====
-- crates/okayeg/src/sync.rs: messages and their wire form, permissions, errors.
use okayeg.Prelude.{
  ◌≡◌, refl, Bool, true, Bytes, [], ◌∷◌, Result, ok, err, nat_eq, arith, if◌then◌else◌,
}

pub data Msg : Type 0 where
  have : Bytes → Msg
  updates : Bytes → Msg
  ephemeral : Bytes → Msg

-- `loro` carries Loro's own error.
pub data SyncError (E : Type 0) : Type 0 where
  malformed out_of_order orphaned : SyncError E
  loro : E → SyncError E

-- One byte of tag, then the body.
unfoldable pub encode : Msg → Bytes
encode (have b) = 0 ∷ b
encode (updates b) = 1 ∷ b
encode (ephemeral b) = 2 ∷ b

unfoldable pub decode : {E : Type 0} → Bytes → Result (SyncError E) Msg
decode [] = err malformed
decode (tag ∷ body) =
    if nat_eq tag 0
    then ok (have body)
    else if nat_eq tag 1
    then ok (updates body)
    else if nat_eq tag 2
    then ok (ephemeral body)
    else err malformed

-- What a peer may do: `pull` reads our state, `push` writes to it.
pub record Perms : Type 0 where
  pub pull : Bool
  pub push : Bool

-- `Perms::all`
abbrev pub all_perms : Perms
all_perms = record { pull = true; push = true }

module _ {E : Type 0} where
  -- A message that was encoded decodes to itself.
  pub decode-encode : (m : Msg) → decode {E = E} (encode m) ≡ ok m
  unfolding decode encode
  decode-encode (have b) = refl
  decode-encode (updates b) = refl
  decode-encode (ephemeral b) = refl

  -- Bytes that decode to a message are the encoding of this message.
  pub encode-decode : (bytes : Bytes) (m : Msg) → decode {E = E} bytes ≡ ok m → encode m ≡ bytes
  unfolding decode encode
  encode-decode [] m h = cc
  encode-decode (tag ∷ body) m h = ground arith
