-- ===== src/Net/Frame.antt =====
-- crates/okayeg-net/src/lib.rs: length-prefixed frames on a byte stream.
pub mod Stream
use okayeg.Prelude.{
  ℕ, ◌+◌, ◌*◌, ◌/◌, ◌%◌, ◌^◌, Bool, true, false, Option, none, some, List, [], ◌∷◌, ◌++◌, Str,
  Bytes, Result, ok, err, ltb, leb, length, take, drop, if◌then◌else◌,
}
use okayeg.Sync.Msg.{SyncError}

-- The texts of transport and input errors are not modelled; `E` is Loro's error.
pub data Error (E : Type 0) : Type 0 where
  transport : Error E
  unreachable : Error E
  refused : Option Str → Error E
  protocol : SyncError E → Error E
  io : Error E

abbrev pub max_frame : ℕ
max_frame = 64 * 2 ^ 20

-- `u32::to_be_bytes` and `u32::from_be_bytes`
unfoldable pub to_be_bytes : ℕ → Bytes
to_be_bytes n = (n / 2 ^ 24) ∷ (n / 2 ^ 16 % 256) ∷ (n / 2 ^ 8 % 256) ∷ (n % 256) ∷ []

unfoldable pub from_be_bytes : ℕ → ℕ → ℕ → ℕ → ℕ
from_be_bytes a b c d = a * 2 ^ 24 + b * 2 ^ 16 + c * 2 ^ 8 + d

-- What is written to the stream, which takes it.
unfoldable pub write_frame : {E : Type 0} → Bytes → Result (Error E) Bytes
unfolding to_be_bytes
write_frame body =
    if ltb (length body) (2 ^ 32) then ok (to_be_bytes (length body) ++ body) else err transport

-- `read_exact` of the body
abbrev read_body : {E : Type 0} → ℕ → Bytes → Result (Error E) (Bytes × Bytes)
read_body len stream =
    if ltb max_frame len
    then err transport
    else if ltb (length stream) len
    then err io
    else ok (take len stream, drop len stream)

-- The frame and the rest of the stream. The end of the stream inside a frame is an error of the
-- input.
unfoldable pub read_frame : {E : Type 0} → Bytes → Result (Error E) (Bytes × Bytes)
unfolding from_be_bytes
read_frame (a ∷ b ∷ c ∷ d ∷ stream) = read_body (from_be_bytes a b c d) stream
read_frame _ = err io
