-- ===== src/Net/Authz/Verdict.antt =====
-- crates/okayeg-net/src/authz.rs: when a command grants.
use okayeg.Prelude.{
  ◌≡◌, refl, ◌∙◌, ap, sym, str_beq_comm, str_beq_iff, Bool, true, false, ◌||◌, List, [], ◌∷◌, Str,
  Str_eq, lit, Bytes, str_beq, contains, arith, if◌then◌else◌,
}
use okayeg.Utf8.{from_utf8_lossy}
use okayeg.Sync.Msg.{Perms}
use okayeg.Net.Authz.{
  grant, Ran, exited, not_spawned, not_awaited, lines, split_whitespace, grant_words, no_perms,
  first_line, parse_verdict, grant_word, authorize,
}

ladder :
    (p : Perms) (x y : Bool)
    → (x ≡ true → y ≡ false)
    → let q = if x then record p { pull = true } else if y then record p { push = true } else p in
      (q.pull ≡ (p.pull || x)) × (q.push ≡ (p.push || y))
ladder p false false h = ground arith
ladder p false true h = ground arith
ladder p true false h = ground arith
ladder p true true h = cc (h refl)

pull_is_not_push : (w : Str) → str_beq w (lit "pull") ≡ true → str_beq w (lit "push") ≡ false
pull_is_not_push w h = ap (λ (v : Str). str_beq v (lit "push")) ((str_beq_iff w (lit "pull")).0 h)

grant_word-eq :
    (p : Perms) (w : Str)
    → ((grant_word p w).pull ≡ (p.pull || str_beq w (lit "pull")))
      × ((grant_word p w).push ≡ (p.push || str_beq w (lit "push")))
unfolding grant_word
grant_word-eq p w = ladder p (str_beq w (lit "pull")) (str_beq w (lit "push")) (pull_is_not_push w)

or_step : (r a c x z y : Bool) → r ≡ (c || y) → c ≡ (a || x) → x ≡ z → r ≡ (a || (z || y))
or_step r a c x z y h i j = ground arith

grant_words-eq :
    (p : Perms) (ws : List Str)
    → ((grant_words p ws).pull ≡ (p.pull || contains ws (lit "pull")))
      × ((grant_words p ws).push ≡ (p.push || contains ws (lit "push")))
unfolding grant_words contains
grant_words-eq p [] = ground arith
grant_words-eq p (w ∷ ws) =
    let (a, b) = grant_words-eq (grant_word p w) ws in
    let (c, d) = grant_word-eq p w in
    (
      or_step _ p.pull _ _ _ _ a c (str_beq_comm w (lit "pull")),
      or_step _ p.push _ _ _ _ b d (str_beq_comm w (lit "push")),
    )

parse_verdict-grant :
    (s : Str) (p : Perms)
    → parse_verdict s ≡ grant p
    → (grant_words no_perms (split_whitespace (first_line (lines s))) ≡ p)
      × ((p.pull || p.push) ≡ true)
unfolding parse_verdict
parse_verdict-grant s p h = ground arith

-- The words of the first line of what the command wrote.
abbrev pub verdict_words : Bytes → List Str
verdict_words stdout = split_whitespace (first_line (lines (from_utf8_lossy stdout)))

-- A command grants rights only by a successful exit, and then exactly the rights that its first
-- line names, of which there is at least one.
pub authorize-grant :
    (ran : Ran) (p : Perms)
    → authorize ran ≡ grant p
    → (stdout : Bytes) × (ran ≡ exited true stdout)
      × (p.pull ≡ contains (verdict_words stdout) (lit "pull"))
      × (p.push ≡ contains (verdict_words stdout) (lit "push"))
      × ((p.pull || p.push) ≡ true)
authorize-grant not_spawned p h = unfold authorize in cc
authorize-grant not_awaited p h = unfold authorize in cc
authorize-grant (exited false stdout) p h = unfold authorize in cc
authorize-grant (exited true stdout) p h =
    let text = from_utf8_lossy stdout in
    let words = verdict_words stdout in
    let (e, some_right) = parse_verdict-grant text p (unfold authorize in h) in
    let (pull, push) = grant_words-eq no_perms words in
    (
      stdout,
      refl,
      sym (ap (λ (q : Perms). q.pull) e) ∙ pull,
      sym (ap (λ (q : Perms). q.push) e) ∙ push,
      some_right,
    )
