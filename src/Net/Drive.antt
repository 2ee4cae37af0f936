-- ===== src/Net/Drive.antt =====
-- crates/okayeg-net/src/lib.rs: `drive`, one sync exchange over a duplex byte stream.
pub mod Total
use okayeg.Prelude.{
  ℕ, zero, suc, Bool, true, false, Option, none, some, List, [], ◌∷◌, ◌++◌, Bytes, Result, ok, err,
  length,
}
use okayeg.Replica.{Replica}
use okayeg.Doc.{Doc}
use okayeg.Sync.Msg
use okayeg.Sync.Msg.{Msg, have, updates, ephemeral, Perms}
use okayeg.Sync.Driver
use okayeg.Sync.Driver.{Sync, Step, send, finish, gated, start, on}
use okayeg.Net.Frame.{Error, protocol, write_frame, read_frame}
use okayeg.Net.Control.{decode_frame}

module _ (R : Replica) where
  -- How the exchange ended, the driver then, and the bytes that were sent.
  pub record Ended : Type 0 where
    pub result : Result (Error R.LoroError) (Unit {0})
    pub side : Sync R
    pub sent : Bytes

  abbrev failed : Error R.LoroError → Sync R → Bytes → Ended
  failed e s out = record { result = err e; side = s; sent = out }

  -- What one message does, where `continue` goes on with a driver and the bytes sent so far.
  abbrev after_send :
      (Sync R → Bytes → Option Ended)
      → Sync R
      → Bytes
      → Result (Error R.LoroError) Bytes
      → Option Ended
  after_send continue s out (err e) = some (failed e s out)
  after_send continue s out (ok frame) = continue s (out ++ frame)

  abbrev after_on :
      (Sync R → Bytes → Option Ended) → Bytes → Driver.Outcome R Step × Sync R → Option Ended
  after_on continue out (err e, s) = some (failed (protocol e) s out)
  after_on continue out (ok (send m), s) = after_send continue s out (write_frame (Msg.encode m))
  after_on continue out (ok finish, s) = some (record { result = ok tt; side = s; sent = out })

  abbrev on_frame :
      (Sync R → Bytes → Option Ended)
      → Sync R
      → Bytes
      → Result (Error R.LoroError) Msg
      → Option Ended
  on_frame continue s out (err e) = some (failed e s out)
  on_frame continue s out (ok (ephemeral _)) = continue s out
  on_frame continue s out (ok (have vv)) = after_on continue out (on R s (have vv))
  on_frame continue s out (ok (updates u)) = after_on continue out (on R s (updates u))

  -- The loop over what the peer sends. `none` is a run out of fuel, the number of rounds.
  unfoldable pub drive_loop : ℕ → Bytes → Sync R → Bytes → Option Ended
  unfolding read_frame decode_frame on write_frame Msg.encode
  drive_loop zero stream s out = none
  drive_loop (suc fuel) stream s out = elim (read_frame stream) [
    | err e ↦ some (failed e s out)
    | ok (frame, rest) ↦ on_frame (drive_loop fuel rest) s out (decode_frame frame)
  ]

  abbrev opened : ℕ → Bytes → Sync R → Result (Error R.LoroError) Bytes → Option Ended
  opened fuel stream s (err e) = some (failed e s [])
  opened fuel stream s (ok frame) = drive_loop fuel stream s frame

  unfoldable pub drive : ℕ → Doc R → Perms → Bytes → Option Ended
  unfolding drive_loop gated start
  drive fuel doc perms stream =
      let s = gated R doc perms in opened fuel stream s (write_frame (Msg.encode (start R s)))
