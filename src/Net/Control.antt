-- ===== src/Net/Control.antt =====
-- crates/okayeg-net/src/lib.rs: refusals as control frames beside the sync messages.
use okayeg.Prelude.{
  ℕ, ◌≤◌, ◌≡◌, refl, ◌∙◌, ap, Option, none, some, [], ◌∷◌, Str, Bytes, Result, ok, err, nat_eq,
  length, take, min, length-append, arith, if◌then◌else◌,
}
use okayeg.Utf8.{as_bytes, encode_char, from_utf8_lossy}
use okayeg.Utf8.RoundTrip.{AllScalar, length-encode_char, from_utf8_lossy-as_bytes}
use okayeg.Sync.Msg
use okayeg.Sync.Msg.{Msg, have, updates, ephemeral, SyncError}
use okayeg.Net.Frame.{Error, transport, refused, protocol}

abbrev pub ctrl_tag : ℕ
ctrl_tag = 0xff

abbrev pub ctrl_refused : ℕ
ctrl_refused = 0

abbrev pub max_message : ℕ
max_message = 512

abbrev pub unwrap_or_empty : Option Str → Str
unwrap_or_empty none = []
unwrap_or_empty (some s) = s

-- The message is cut at 512 bytes.
unfoldable pub encode_refused : Option Str → Bytes
unfolding as_bytes
encode_refused message =
    let msg = as_bytes (unwrap_or_empty message) in
    ctrl_tag ∷ ctrl_refused ∷ take (min (length msg) max_message) msg

abbrev as_protocol : {E : Type 0} → Result (SyncError E) Msg → Result (Error E) Msg
as_protocol (ok m) = ok m
as_protocol (err e) = err (protocol e)

abbrev pub refusal : {E : Type 0} → Bytes → Error E
refusal [] = refused none
refusal (b ∷ msg) = refused (some (from_utf8_lossy (b ∷ msg)))

abbrev control : {E : Type 0} → Bytes → Result (Error E) Msg
control [] = err transport
control (kind ∷ msg) = if nat_eq kind ctrl_refused then err (refusal msg) else err transport

-- A sync message, or the error that a control frame stands for.
unfoldable pub decode_frame : {E : Type 0} → Bytes → Result (Error E) Msg
unfolding Msg.decode from_utf8_lossy
decode_frame [] = as_protocol (Msg.decode [])
decode_frame (tag ∷ body) =
    if nat_eq tag ctrl_tag then control body else as_protocol (Msg.decode (tag ∷ body))

take_all : (b : Bytes) → take (length b) b ≡ b
take_all [] = refl
take_all (x ∷ b) = ap (λ l. x ∷ l) (take_all b)

min_le : (n : ℕ) → n ≤ max_message → min n max_message ≡ n
min_le n h = omega arith

take-length : (b : Bytes) → length b ≤ max_message → take (min (length b) max_message) b ≡ b
take-length b h = ap (λ n. take n b) (min_le (length b) h) ∙ take_all b

-- The message that the peer is shown: an empty one counts as none.
abbrev pub said : Option Str → Option Str
said none = none
said (some []) = none
said (some (c ∷ s)) = some (c ∷ s)

length-as_bytes : (c : ℕ) (s : Str) → 1 ≤ length (as_bytes (c ∷ s))
unfolding as_bytes
length-as_bytes c s =
    omega (arith, length-append (encode_char c) (as_bytes s), length-encode_char c)

module _ {E : Type 0} where
  -- A sync message is never taken for a control frame.
  pub decode_frame-encode : (m : Msg) → decode_frame {E = E} (Msg.encode m) ≡ ok m
  unfolding decode_frame Msg.encode
  decode_frame-encode (have b) = refl
  decode_frame-encode (updates b) = refl
  decode_frame-encode (ephemeral b) = refl

  refusal-nonempty :
      (b : Bytes) → 1 ≤ length b → refusal {E = E} b ≡ refused (some (from_utf8_lossy b))
  refusal-nonempty [] h = elim h [ ]
  refusal-nonempty (x ∷ b) h = refl

  refusal-as_bytes :
      (s : Str) → AllScalar s → refusal {E = E} (as_bytes s) ≡ refused (said (some s))
  refusal-as_bytes [] v = unfold as_bytes in refl
  refusal-as_bytes (c ∷ s) v =
      refusal-nonempty (as_bytes (c ∷ s)) (length-as_bytes c s)
      ∙ ap (λ m. refused (some m)) (from_utf8_lossy-as_bytes (c ∷ s) v)

  decode_frame-refused :
      (s : Str)
      → decode_frame {E = E} (encode_refused (some s))
        ≡ err (refusal (take (min (length (as_bytes s)) max_message) (as_bytes s)))
  unfolding decode_frame encode_refused
  decode_frame-refused s = refl

  -- A refusal is read as a refusal with the same message, if the message has at most 512 bytes; an
  -- empty one is read as none.
  pub decode_frame-encode_refused :
      (message : Option Str)
      → AllScalar (unwrap_or_empty message)
      → length (as_bytes (unwrap_or_empty message)) ≤ max_message
      → decode_frame {E = E} (encode_refused message) ≡ err (refused (said message))
  decode_frame-encode_refused none v h = unfold decode_frame encode_refused in refl
  decode_frame-encode_refused (some s) v h =
      decode_frame-refused s
      ∙ ap (λ b. err (refusal b)) (take-length (as_bytes s) h)
      ∙ ap err (refusal-as_bytes s v)
