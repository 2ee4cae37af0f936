-- ===== src/Net/Frame/Stream.antt =====
-- crates/okayeg-net/src/lib.rs: what a reader makes of the frames that a writer wrote.
use okayeg.Prelude.{
  ℕ, zero, suc, ◌/◌, ◌%◌, ◌^◌, ◌<◌, ◌≤◌, ◌≡◌, refl, [], ◌∷◌, ◌++◌, Bytes, ok, err, leb, length,
  take, take-append_length, drop-append_length, length-append, append_assoc, subst,
  take-append-drop, length-take, ap, sym, ◌∙◌, arith, if◌then◌else◌,
}
use okayeg.Net.Frame.{
  transport, io, max_frame, to_be_bytes, from_be_bytes, write_frame, read_frame, read_body,
}

be_bytes :
    (n : ℕ)
    → n < 2 ^ 32
    → from_be_bytes (n / 2 ^ 24) (n / 2 ^ 16 % 256) (n / 2 ^ 8 % 256) (n % 256) ≡ n
unfolding from_be_bytes
be_bytes n h = omega arith

module _ {E : Type 0} where
  read_body-append :
      (body rest : Bytes)
      → read_body {E = E} (length body) (body ++ rest)
        ≡ (if leb (length body) max_frame then ok (body, rest) else err transport)
  read_body-append body rest =
      ground
        (arith, take-append_length body rest, drop-append_length body rest, length-append body rest)

  read_body-bounded :
      (a b c d : ℕ) (s body rest : Bytes) (len : ℕ)
      → read_body {E = E} len s ≡ ok (body, rest)
      → (length body ≤ max_frame) × (a ∷ b ∷ c ∷ d ∷ s ≡ (a ∷ b ∷ c ∷ d ∷ []) ++ (body ++ rest))
  read_body-bounded a b c d s body rest len h =
      ground (arith, take-append-drop len s, length-take len s)

  pub write_frame-inv :
      (body frame : Bytes)
      → write_frame {E = E} body ≡ ok frame
      → (length body < 2 ^ 32) × (to_be_bytes (length body) ++ body ≡ frame)
  unfolding write_frame
  write_frame-inv body frame h = ground arith

  read_frame-header :
      (n : ℕ) (stream : Bytes)
      → n < 2 ^ 32
      → read_frame {E = E} (to_be_bytes n ++ stream) ≡ read_body n stream
  unfolding read_frame to_be_bytes
  read_frame-header n stream h = ap (λ k. read_body {E = E} k stream) (be_bytes n h)

  pub read_frame-write_frame :
      (body rest frame : Bytes)
      → write_frame {E = E} body ≡ ok frame
      → read_frame {E = E} (frame ++ rest)
        ≡ (if leb (length body) max_frame then ok (body, rest) else err transport)
  read_frame-write_frame body rest frame h =
      let (short, e) = write_frame-inv body frame h in
      ap (λ f. read_frame {E = E} (f ++ rest)) (sym e)
      ∙ ap (read_frame {E = E}) (append_assoc (to_be_bytes (length body)) body rest)
      ∙ read_frame-header (length body) (body ++ rest) short
      ∙ read_body-append body rest

  -- What is read is no longer than the cap, and stands in the stream behind four bytes of header.
  pub read_frame-bounded :
      (stream body rest : Bytes)
      → read_frame {E = E} stream ≡ ok (body, rest)
      → (length body ≤ max_frame) × (stream ≡ take 4 stream ++ (body ++ rest))
  unfolding read_frame
  read_frame-bounded [] body rest h = cc
  read_frame-bounded (a ∷ []) body rest h = cc
  read_frame-bounded (a ∷ b ∷ []) body rest h = cc
  read_frame-bounded (a ∷ b ∷ c ∷ []) body rest h = cc
  read_frame-bounded (a ∷ b ∷ c ∷ d ∷ s) body rest h =
      read_body-bounded a b c d s body rest (from_be_bytes a b c d) h

  cut_body :
      (body : Bytes) (m : ℕ)
      → length body ≤ max_frame
      → m < length body
      → read_body {E = E} (length body) (take m body) ≡ err io
  cut_body body m fits short = ground (arith, length-take m body)

  cut_frame :
      (body : Bytes) (n : ℕ)
      → length body < 2 ^ 32
      → length body ≤ max_frame
      → n < length (to_be_bytes (length body) ++ body)
      → read_frame {E = E} (take n (to_be_bytes (length body) ++ body)) ≡ err io
  unfolding read_frame to_be_bytes
  cut_frame body zero small fits short = refl
  cut_frame body (suc zero) small fits short = refl
  cut_frame body (suc (suc zero)) small fits short = refl
  cut_frame body (suc (suc (suc zero))) small fits short = refl
  cut_frame body (suc (suc (suc (suc m)))) small fits short =
      ap (λ k. read_body {E = E} k (take m body)) (be_bytes (length body) small)
      ∙ cut_body body m fits (omega arith)

  -- A stream that ends inside a frame gives no frame: every strict prefix of a frame that the
  -- reader accepts is an error of the input.
  pub read_frame-prefix :
      (body frame : Bytes) (n : ℕ)
      → write_frame {E = E} body ≡ ok frame
      → length body ≤ max_frame
      → n < length frame
      → read_frame {E = E} (take n frame) ≡ err io
  read_frame-prefix body frame n h fits short =
      let (small, e) = write_frame-inv body frame h in
      subst (λ (f : Bytes). n < length f → read_frame {E = E} (take n f) ≡ err io) e
        (cut_frame body n small fits) short
