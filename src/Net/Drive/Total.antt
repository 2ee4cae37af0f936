-- ===== src/Net/Drive/Total.antt =====
-- crates/okayeg-net/src/lib.rs: `drive` ends, skips presence frames, and obeys the permissions.
use okayeg.Prelude.{
  ℕ, zero, suc, ◌<◌, ◌≤◌, ◌≡◌, refl, ◌∙◌, ap, sym, false, Option, some, [], ◌∷◌, ◌++◌, Bytes,
  Result, ok, err, inl, inr, Result-cases, length, length-append, arith,
}
use okayeg.Replica.{Replica}
use okayeg.Doc.{Doc}
use okayeg.Sync.Msg
use okayeg.Sync.Msg.{Msg, have, updates, ephemeral, Perms}
use okayeg.Sync.Driver.{Sync, Step, send, finish, Outcome, on, gated, start}
use okayeg.Sync.Driver.Gate.{perms-on, doc-on}
use okayeg.Net.Frame.{Error, max_frame, write_frame, read_frame}
use okayeg.Net.Frame.Stream.{read_frame-write_frame, read_frame-bounded}
use okayeg.Net.Control.{decode_frame, decode_frame-encode}
use okayeg.Net.Drive.{Ended, drive_loop, drive, on_frame, after_on, after_send, opened, failed}

module _ (R : Replica) where
  read_frame-shorter :
      (stream body rest : Bytes)
      → read_frame {E = R.LoroError} stream ≡ ok (body, rest)
      → length rest < length stream
  read_frame-shorter [] body rest h = unfold read_frame in cc
  read_frame-shorter (a ∷ []) body rest h = unfold read_frame in cc
  read_frame-shorter (a ∷ b ∷ []) body rest h = unfold read_frame in cc
  read_frame-shorter (a ∷ b ∷ c ∷ []) body rest h = unfold read_frame in cc
  read_frame-shorter (a ∷ b ∷ c ∷ d ∷ s) body rest h = omega (
    arith,
    ap length (read_frame-bounded {E = R.LoroError} (a ∷ b ∷ c ∷ d ∷ s) body rest h).1,
    length-append body rest,
  )

  -- A property of how a round goes on, for all that it may go on with.
  module _ (k : Sync R → Bytes → Option (Ended R)) where
    Ends : Option (Ended R) → Type 0
    Ends r = (e : Ended R) × (r ≡ some e)

    module _ (ends : (s : Sync R) (out : Bytes) → Ends (k s out)) where
      after_send-Ends :
          (s : Sync R) (out : Bytes) (w : Result (Error R.LoroError) Bytes)
          → Ends (after_send R k s out w)
      unfolding Ends
      after_send-Ends s out (err e) = (_, refl)
      after_send-Ends s out (ok frame) = ends s (out ++ frame)

      after_on-Ends : (out : Bytes) (r : Outcome R Step × Sync R) → Ends (after_on R k out r)
      unfolding Ends
      after_on-Ends out (err e, s) = (_, refl)
      after_on-Ends out (ok (send m), s) = after_send-Ends s out (write_frame (Msg.encode m))
      after_on-Ends out (ok finish, s) = (_, refl)

      on_frame-Ends :
          (s : Sync R) (out : Bytes) (r : Result (Error R.LoroError) Msg)
          → Ends (on_frame R k s out r)
      unfolding Ends
      on_frame-Ends s out (err e) = (_, refl)
      on_frame-Ends s out (ok (ephemeral b)) = ends s out
      on_frame-Ends s out (ok (have vv)) = after_on-Ends out (on R s (have vv))
      on_frame-Ends s out (ok (updates u)) = after_on-Ends out (on R s (updates u))

    -- Without `push`, the document at the end is `doc`.
    abbrev Holds : Doc R → Option (Ended R) → Type 0
    Holds doc r = (e : Ended R) → r ≡ some e → e.side.doc ≡ doc

    module _ (doc : Doc R)
        (holds : (s : Sync R) (out : Bytes)
          → s.perms.push ≡ false
          → s.doc ≡ doc
          → Holds doc (k s out)) where
      after_send-Holds :
          (s : Sync R) (out : Bytes) (w : Result (Error R.LoroError) Bytes)
          → s.perms.push ≡ false
          → s.doc ≡ doc
          → Holds doc (after_send R k s out w)
      after_send-Holds s out (err x) p d e h = cc
      after_send-Holds s out (ok frame) p d e h = holds s (out ++ frame) p d e h

      after_on-Holds :
          (out : Bytes) (r : Outcome R Step × Sync R)
          → r.1.perms.push ≡ false
          → r.1.doc ≡ doc
          → Holds doc (after_on R k out r)
      after_on-Holds out (err x, s) p d e h = cc
      after_on-Holds out (ok (send m), s) p d e h =
          after_send-Holds s out (write_frame (Msg.encode m)) p d e h
      after_on-Holds out (ok finish, s) p d e h = cc

      on_frame-Holds :
          (s : Sync R) (out : Bytes) (r : Result (Error R.LoroError) Msg)
          → s.perms.push ≡ false
          → s.doc ≡ doc
          → Holds doc (on_frame R k s out r)
      on_frame-Holds s out (err x) p d e h = cc
      on_frame-Holds s out (ok (ephemeral b)) p d e h = holds s out p d e h
      on_frame-Holds s out (ok (have vv)) p d e h =
          after_on-Holds out (on R s (have vv)) (cc (perms-on R s (have vv)))
            (doc-on R s (have vv) p ∙ d) e h
      on_frame-Holds s out (ok (updates u)) p d e h =
          after_on-Holds out (on R s (updates u)) (cc (perms-on R s (updates u)))
            (doc-on R s (updates u) p ∙ d) e h

module _ (R : Replica) where
  loop-failed :
      (fuel : ℕ) (stream : Bytes) (s : Sync R) (out : Bytes) (x : Error R.LoroError)
      → read_frame stream ≡ err x
      → drive_loop R (suc fuel) stream s out ≡ some (failed R x s out)
  unfolding drive_loop
  loop-failed fuel stream s out x f = ground arith

  loop-framed :
      (fuel : ℕ) (stream : Bytes) (s : Sync R) (out frame rest : Bytes)
      → read_frame {E = R.LoroError} stream ≡ ok (frame, rest)
      → drive_loop R (suc fuel) stream s out
        ≡ on_frame R (drive_loop R fuel rest) s out (decode_frame frame)
  unfolding drive_loop
  loop-framed fuel stream s out frame rest f = ground arith

  drive_loop-Ends :
      (fuel : ℕ) (stream : Bytes) (s : Sync R) (out : Bytes)
      → length stream < fuel
      → (e : Ended R) × (drive_loop R fuel stream s out ≡ some e)
  unfolding Ends
  drive_loop-Ends zero stream s out h = elim h [ ]
  drive_loop-Ends (suc fuel) stream s out h =
      elim (Result-cases (read_frame {E = R.LoroError} stream)) [
        | inr (x, f) ↦ (failed R x s out, loop-failed fuel stream s out x f)
        | inl ((frame, rest), f) ↦
            let shorter = read_frame-shorter R stream frame rest f in
            let (e, g) =
              on_frame-Ends R (drive_loop R fuel rest)
                (λ t o. drive_loop-Ends fuel rest t o (omega (arith, shorter))) s out
                (decode_frame frame) in
            (e, loop-framed fuel stream s out frame rest f ∙ g)
      ]

  drive_loop-Holds :
      (doc : Doc R) (fuel : ℕ) (stream : Bytes) (s : Sync R) (out : Bytes)
      → s.perms.push ≡ false
      → s.doc ≡ doc
      → Holds R (drive_loop R fuel stream) doc (drive_loop R fuel stream s out)
  drive_loop-Holds doc zero stream s out p d e h = unfold drive_loop in cc
  drive_loop-Holds doc (suc fuel) stream s out p d e h =
      elim (Result-cases (read_frame {E = R.LoroError} stream)) [
        | inr (x, f) ↦ cc (loop-failed fuel stream s out x f)
        | inl ((frame, rest), f) ↦
            on_frame-Holds R (drive_loop R fuel rest) doc (drive_loop-Holds doc fuel rest) s out
              (decode_frame frame) p d e (sym (loop-framed fuel stream s out frame rest f) ∙ h)
      ]

  -- How the exchange ends, and that it leaves the document to a peer that may not push.
  abbrev pub EndsWell : Doc R → Perms → Option (Ended R) → Type 0
  EndsWell doc perms r = (e : Ended R) × (r ≡ some e) × (perms.push ≡ false → e.side.doc ≡ doc)

  opened-EndsWell :
      (s : Sync R) (stream : Bytes) (fuel : ℕ) (w : Result (Error R.LoroError) Bytes)
      → length stream < fuel
      → EndsWell s.doc s.perms (opened R fuel stream s w)
  opened-EndsWell s stream fuel (err x) h = (failed R x s [], refl, λ p. refl)
  opened-EndsWell s stream fuel (ok frame) h =
      let (e, f) = drive_loop-Ends fuel stream s frame h in
      (e, f, λ p. drive_loop-Holds s.doc fuel stream s frame p refl e f)

  -- Whatever bytes the peer sends, `drive` ends within one round for each byte and one more; and
  -- if the peer may not push, the document is then the one that it was given, also on an error.
  pub drive_ends :
      (doc : Doc R) (perms : Perms) (stream : Bytes) (fuel : ℕ)
      → length stream < fuel
      → EndsWell doc perms (drive R fuel doc perms stream)
  unfolding drive
  drive_ends doc perms stream fuel h =
      opened-EndsWell (gated R doc perms) stream fuel
        (write_frame (Msg.encode (start R (gated R doc perms)))) h

  -- A presence frame in front of the stream changes nothing but the round that it takes.
  pub drive_loop-ephemeral :
      (fuel : ℕ) (b frame stream : Bytes) (s : Sync R) (out : Bytes)
      → write_frame {E = R.LoroError} (Msg.encode (ephemeral b)) ≡ ok frame
      → length (Msg.encode (ephemeral b)) ≤ max_frame
      → drive_loop R (suc fuel) (frame ++ stream) s out ≡ drive_loop R fuel stream s out
  drive_loop-ephemeral fuel b frame stream s out w fits =
      let body = Msg.encode (ephemeral b) in
      let read = read_frame-write_frame {E = R.LoroError} body stream frame w in
      loop-framed fuel (frame ++ stream) s out body stream (ground (arith, read))
      ∙ ap (on_frame R (drive_loop R fuel stream) s out) (decode_frame-encode (ephemeral b))
