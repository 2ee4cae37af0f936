-- ===== src/Tests/SyncRuns.antt =====
-- Runs of the sync protocol between two documents of one writer's log, and its theorems there.
use okayeg.Prelude.{ℕ, ◌≤◌, ◌≡◌, refl, true, false, Bytes, List, [], ◌∷◌, ok, err}
use okayeg.Doc.{Doc}
use okayeg.Sync.Msg.{Msg, have, updates, Perms, all_perms, decode}
use okayeg.Sync.Driver.{Sync, await_have, await_updates, done, send, gated, on}
use okayeg.Sync.Driver.Gate.{after, accepted, doc-after_no_push, accepted_in_order, reply_no_pull}
use okayeg.Sync.Exchange.{Pair, opening, deliver_a, deliver_b, Reach, here, by_a, by_b}
use okayeg.Sync.Exchange.Round.{IsSafe, frames_left}
use okayeg.Sync.Exchange.Round.Converge.{deliveries-IsSafe, exchange_converges}
use okayeg.Sync.Live.{LiveSync, on as live_on}
use okayeg.Sync.Live.Stream.{
  Event, message, nudge, edit, sends, AllNone, sends_nothing_without_pull, stream, opened, HasAll,
  live_catches_up,
}
use okayeg.Tests.Register.{register, register-Converges}

abbrev doc : ℕ → Doc register
doc n = record { inner = n; comment_seq = 0 }

abbrev pull_only : Perms
pull_only = record { pull = true; push = false }

abbrev push_only : Perms
push_only = record { pull = false; push = true }

decoded_updates : decode {E = ℕ} (1 ∷ 7 ∷ []) ≡ ok (updates (7 ∷ []))
unfolding decode
decoded_updates = refl

-- A frame out of order, then a version, then updates that a side without `push` drops.
abbrev noise : List Msg
noise = updates (0 ∷ 9 ∷ []) ∷ have (2 ∷ []) ∷ updates (0 ∷ 9 ∷ []) ∷ []

abbrev reader : Sync register
reader = record { doc = doc 5; state = await_have; perms = pull_only }

doc-after_no_push_example : (after register reader noise).doc ≡ doc 5
doc-after_no_push_example = doc-after_no_push register reader noise refl

abbrev finished : Sync register
finished = record { doc = doc 9; state = done; perms = all_perms }

accepted_run :
    accepted register (gated register (doc 5) all_perms) (have (2 ∷ []) ∷ updates (3 ∷ 9 ∷ []) ∷ [])
    ≡ ok finished
unfolding accepted gated on
accepted_run = refl

accepted_in_order_example :
    (vv : Bytes) × (u : Bytes) × (◌≡◌ {A = List Msg}
      (have (2 ∷ []) ∷ updates (3 ∷ 9 ∷ []) ∷ [])
      (have vv ∷ updates u ∷ []))
accepted_in_order_example =
    accepted_in_order register (doc 5) all_perms (have (2 ∷ []) ∷ updates (3 ∷ 9 ∷ []) ∷ [])
      finished accepted_run refl

abbrev writer : Sync register
writer = record { doc = doc 5; state = await_have; perms = push_only }

withheld :
    on register writer (have (2 ∷ []))
    ≡ (ok (send (updates [])), record writer { state = await_updates })
unfolding on
withheld = refl

reply_no_pull_example : ((register.import 3 []).1 ≡ ok false) × ((register.import 3 []).0 ≡ 3)
unfolding register-Converges
reply_no_pull_example =
    reply_no_pull register register-Converges writer (record writer { state = await_updates })
      (2 ∷ []) [] 3 refl withheld

-- A full exchange: 3 entries on one side, 5 on the other, one frame to each side in turn.
abbrev p0 : Pair register
unfolding opening
p0 = opening register (doc 3) all_perms (doc 5) pull_only

abbrev after_a : Pair register → Pair register
unfolding deliver_a
after_a p = elim (deliver_a register p) [ ok q ↦ q | err _ ↦ p ]

abbrev after_b : Pair register → Pair register
unfolding deliver_b
after_b p = elim (deliver_b register p) [ ok q ↦ q | err _ ↦ p ]

last : Pair register
unfolding p0 after_a after_b
last = after_b (after_a (after_b (after_a p0)))

full_run : Reach register (opening register (doc 3) all_perms (doc 5) pull_only) last
unfolding last opening deliver_a deliver_b
full_run =
    by_b
      (by_a {r = after_a (after_b (after_a p0))}
        (by_b {r = after_b (after_a p0)} (by_a {r = after_a p0} here refl) refl) refl)
      refl

deliveries-IsSafe_example :
    IsSafe register (deliver_a register) last.to_a last
    × IsSafe register (deliver_b register) last.to_b last
    × (frames_left register last ≤ 4)
deliveries-IsSafe_example =
    deliveries-IsSafe register register-Converges (doc 3) all_perms (doc 5) pull_only full_run

exchange_converges_example :
    (last.a.state ≡ done) × (last.b.state ≡ done) × (last.a.doc.inner ≡ 5) × (last.b.doc.inner ≡ 5)
unfolding last opening deliver_a deliver_b register-Converges
exchange_converges_example =
    exchange_converges register register-Converges (doc 3) all_perms (doc 5) pull_only full_run refl
      refl

abbrev no_pull_session : LiveSync register
no_pull_session = record { perms = push_only; acked = 0 }

abbrev events : List (Event register)
events =
    message (have (0 ∷ [])) ∷ nudge ∷ edit (doc 8) ∷ nudge ∷ message (updates (5 ∷ 9 ∷ [])) ∷ []

sends_nothing_without_pull_example :
    AllNone register (sends register no_pull_session (doc 5) events)
sends_nothing_without_pull_example =
    sends_nothing_without_pull register no_pull_session (doc 5) events refl

abbrev session : LiveSync register
session = record { perms = all_perms; acked = 0 }

live_catches_up_example :
    let (out, s, _) = live_on register session (doc 4) (have (2 ∷ [])) in
    HasAll register register-Converges
      (stream register register-Converges s
        (opened register register-Converges 2 out)
        (doc 6 ∷ doc 9 ∷ []))
      (doc 9)
live_catches_up_example =
    live_catches_up register register-Converges session (doc 4) 2 (doc 6 ∷ []) (doc 9) refl
