-- ===== src/Sync/Exchange.antt =====
-- crates/okayeg/src/sync.rs: two drivers that feed each other over a channel in each direction.
-- The module comment there says that one such round makes the peers converge.
pub mod Round
use okayeg.Prelude.{Bytes, List, [], ◌∷◌, ◌++◌, Result, ok, err, ◌≡◌}
use okayeg.Replica.{Replica}
use okayeg.Doc.{Doc}
use okayeg.Sync.Msg.{Msg, SyncError, Perms, encode, decode}
use okayeg.Sync.Driver.{Sync, Step, send, finish, Outcome, on, gated, start}

-- The two drivers, and the frames under way to each.
pub record Pair (R : Replica) : Type 0 where
  pub a : Sync R
  pub b : Sync R
  pub to_a : List Bytes
  pub to_b : List Bytes

module _ (R : Replica) where
  -- Both sides send their version first.
  unfoldable pub opening : Doc R → Perms → Doc R → Perms → Pair R
  unfolding gated start encode
  opening da pa db pb =
      let a = gated R da pa in
      let b = gated R db pb in
      record { a = a; b = b; to_a = encode (start R b) ∷ []; to_b = encode (start R a) ∷ [] }

  abbrev pub swapped : Pair R → Pair R
  swapped p = record { a = p.b; b = p.a; to_a = p.to_b; to_b = p.to_a }

  abbrev answered : Pair R → List Bytes → Outcome R Step × Sync R → Outcome R (Pair R)
  answered p rest (err e, s) = err e
  answered p rest (ok (send m), s) =
      ok (record { a = s; b = p.b; to_a = rest; to_b = p.to_b ++ (encode m ∷ []) })
  answered p rest (ok finish, s) = ok (record { a = s; b = p.b; to_a = rest; to_b = p.to_b })

  abbrev decoded : Pair R → List Bytes → Outcome R Msg → Outcome R (Pair R)
  decoded p rest (err e) = err e
  decoded p rest (ok m) = answered p rest (on R p.a m)

  abbrev receive : Pair R → List Bytes → Outcome R (Pair R)
  receive p [] = ok p
  receive p (frame ∷ rest) = decoded p rest (decode frame)

  -- The first side takes the next frame that is on its way to it; without one, nothing happens.
  unfoldable pub deliver_a : Pair R → Outcome R (Pair R)
  unfolding on encode decode
  deliver_a p = receive p p.to_a

  abbrev swap_back : Outcome R (Pair R) → Outcome R (Pair R)
  swap_back (err e) = err e
  swap_back (ok p) = ok (swapped p)

  unfoldable pub deliver_b : Pair R → Outcome R (Pair R)
  unfolding deliver_a
  deliver_b p = swap_back (deliver_a (swapped p))

  -- The frames arrive in the order of each channel, and the channels interleave in any way.
  pub data Reach (p : Pair R) : Pair R → Type 0 where
    here : Reach p p
    by_a : {q r : Pair R} → Reach p q → deliver_a q ≡ ok r → Reach p r
    by_b : {q r : Pair R} → Reach p q → deliver_b q ≡ ok r → Reach p r
