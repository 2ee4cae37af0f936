-- ===== src/Tests/NetRuns.antt =====
-- Runs of the frame codec, of `drive` and of the authorizer's verdicts, and their theorems there.
use okayeg.Prelude.{
  some, ℕ, ◌≤◌, ◌≡◌, refl, Bool, true, false, [], ◌∷◌, ◌++◌, Bytes, lit, ok, err, take, contains,
  Str_eq, arith,
}
use okayeg.Doc.{Doc}
use okayeg.Sync.Msg
use okayeg.Sync.Msg.{Msg, have, updates, ephemeral, Perms}
use okayeg.Sync.Driver.{Sync, await_have}
use okayeg.Net.Frame.{io, refused, max_frame, to_be_bytes, from_be_bytes, write_frame, read_frame}
use okayeg.Net.Frame.Stream.{read_frame-bounded, read_frame-prefix}
use okayeg.Utf8.{as_bytes, encode_char, is_scalar}
use okayeg.Net.Control.{encode_refused, decode_frame, decode_frame-encode_refused}
use okayeg.Net.Drive.{drive}
use okayeg.Net.Drive.Total.{drive_ends, EndsWell}
use okayeg.Net.Authz.{grant, exited, authorize}
use okayeg.Net.Authz.Verdict.{authorize-grant, verdict_words}
use okayeg.Tests.Register.{register}

abbrev doc : ℕ → Doc register
doc n = record { inner = n; comment_seq = 0 }

abbrev reads_only : Perms
reads_only = record { pull = true; push = false }

written : write_frame {E = ℕ} (7 ∷ 8 ∷ []) ≡ ok (0 ∷ 0 ∷ 0 ∷ 2 ∷ 7 ∷ 8 ∷ [])
unfolding write_frame to_be_bytes
written = refl

was_read : read_frame {E = ℕ} (0 ∷ 0 ∷ 0 ∷ 2 ∷ 7 ∷ 8 ∷ 9 ∷ []) ≡ ok (7 ∷ 8 ∷ [], 9 ∷ [])
unfolding read_frame from_be_bytes
was_read = refl

read_frame-bounded_example :
    (2 ≤ max_frame)
    × (◌≡◌ {A = Bytes}
        (0 ∷ 0 ∷ 0 ∷ 2 ∷ 7 ∷ 8 ∷ 9 ∷ [])
        (take 4 (0 ∷ 0 ∷ 0 ∷ 2 ∷ 7 ∷ 8 ∷ 9 ∷ []) ++ ((7 ∷ 8 ∷ []) ++ (9 ∷ []))))
read_frame-bounded_example =
    read_frame-bounded {E = ℕ} (0 ∷ 0 ∷ 0 ∷ 2 ∷ 7 ∷ 8 ∷ 9 ∷ []) (7 ∷ 8 ∷ []) (9 ∷ []) was_read

read_frame-prefix_example : read_frame {E = ℕ} (0 ∷ 0 ∷ 0 ∷ 2 ∷ 7 ∷ []) ≡ err io
read_frame-prefix_example =
    read_frame-prefix {E = ℕ} (7 ∷ 8 ∷ []) (0 ∷ 0 ∷ 0 ∷ 2 ∷ 7 ∷ 8 ∷ []) 5 written (ground arith)
      (ground arith)

-- A message with a letter of two bytes, and its frame.
refusal_frame : encode_refused (some (233 ∷ 33 ∷ [])) ≡ 0xff ∷ 0 ∷ 195 ∷ 169 ∷ 33 ∷ []
unfolding encode_refused encode_char
refusal_frame = refl

decode_frame-encode_refused_example :
    decode_frame {E = ℕ} (encode_refused (some (233 ∷ 33 ∷ [])))
    ≡ err (refused (some (233 ∷ 33 ∷ [])))
unfolding encode_refused as_bytes encode_char is_scalar
decode_frame-encode_refused_example =
    decode_frame-encode_refused {E = ℕ} (some (233 ∷ 33 ∷ [])) (refl, (refl, tt)) (ground arith)

-- The peer sends its version and then updates, to a side that takes none.
abbrev peer : Bytes
peer = 0 ∷ 0 ∷ 0 ∷ 2 ∷ 0 ∷ 2 ∷ 0 ∷ 0 ∷ 0 ∷ 3 ∷ 1 ∷ 0 ∷ 9 ∷ []

drive_ends_example :
    EndsWell register (doc 5) reads_only (drive register 14 (doc 5) reads_only peer)
drive_ends_example = drive_ends register (doc 5) reads_only peer 14 (ground arith)

waiting : Sync register
waiting = record { doc = doc 5; state = await_have; perms = reads_only }

presence :
    write_frame {E = Unit} (Msg.encode (ephemeral (4 ∷ []))) ≡ ok (0 ∷ 0 ∷ 0 ∷ 2 ∷ 2 ∷ 4 ∷ [])
unfolding write_frame to_be_bytes Msg.encode
presence = refl

-- "pull read\n"
abbrev verdict : Bytes
verdict = 112 ∷ 117 ∷ 108 ∷ 108 ∷ 32 ∷ 114 ∷ 101 ∷ 10 ∷ []

granted : authorize (exited true verdict) ≡ grant reads_only
unfolding authorize
granted = refl

authorize-grant_example :
    (stdout : Bytes) × (exited true verdict ≡ exited true stdout)
    × (true ≡ contains (verdict_words stdout) (lit "pull"))
    × (false ≡ contains (verdict_words stdout) (lit "push"))
    × (◌≡◌ {A = Bool} true true)
authorize-grant_example = authorize-grant (exited true verdict) reads_only granted
