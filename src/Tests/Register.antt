-- ===== src/Tests/Register.antt =====
-- A replica that meets the laws of `Converges`: one writer's log, of which a document holds a
-- prefix. A version is a length, and a batch of updates the two lengths that it goes between.
use okayeg.Prelude.{
  ℕ, ◌≤◌, ◌≡◌, refl, subst, Bool, true, false, Bytes, [], ◌∷◌, Result, ok, err, leb, ℕ_eq, max,
  arith, if◌then◌else◌, ok_injective,
}
use okayeg.Replica.{Replica, Converges}

abbrev pub batch : ℕ → ℕ → Bytes
batch d v = if leb d v then [] else v ∷ d ∷ []

abbrev pub decode_length : Bytes → Result (Unit {0}) ℕ
decode_length (v ∷ []) = ok v
decode_length _ = err tt

abbrev pub take_batch : ℕ → Bytes → ℕ × Result (Unit {0}) Bool
take_batch e [] = (e, ok false)
take_batch e (v ∷ d ∷ []) = if leb v e then (max e d, ok false) else (e, ok true)
take_batch e _ = (e, err tt)

abbrev pub register : Replica
register = record {
  LoroDoc = ℕ;
  Version = ℕ;
  LoroError = Unit;
  new = 0;
  version_eq = ℕ_eq;
  no_version = 0;
  state_vv = λ d. d;
  encode_vv = λ v. v ∷ [];
  decode_vv = decode_length;
  export_updates = λ d v. ok (batch d v);
  export_snapshot = λ d. ok (batch d 0);
  import = take_batch;
  commit_doc = λ d. d;
}

unfoldable pub Taken : ℕ → ℕ → Bytes → Type 0
Taken d e u =
    ((take_batch e u).1 ≡ ok false) × ((take_batch e u).0 ≡ max e d) × (d ≤ (take_batch e u).0)

pub batch-Taken : (d e v : ℕ) → v ≤ e → Taken d e (batch d v)
unfolding Taken
batch-Taken d e v h = ground arith

unfoldable pub TakenNothing : ℕ → Bytes → Type 0
TakenNothing e u = ((take_batch e u).1 ≡ ok false) × ((take_batch e u).0 ≡ e)

pub batch-TakenNothing : (d e : ℕ) → TakenNothing e (batch d d)
unfolding TakenNothing
batch-TakenNothing d e = ground arith

pub max_comm : (a b : ℕ) → max a b ≡ max b a
max_comm a b = omega arith

pub max_absorbs : (d e : ℕ) → d ≤ e → max e d ≡ e
max_absorbs d e h = omega arith

unfoldable pub register-Converges : Converges register
unfolding Taken TakenNothing
register-Converges = record {
  Content = ℕ;
  content = λ d. d;
  join = max;
  join_comm = max_comm;
  Includes = λ e v. v ≤ e;
  includes_self = λ d. omega arith;
  join_includes = max_absorbs;
  decode_encode = λ v. refl;
  exports = λ d v. (batch d v, refl);
  import_missing = λ d e v u h sent. subst (Taken d e) (ok_injective sent) (batch-Taken d e v h);
  import_nothing =
      λ d e u sent. subst (TakenNothing e) (ok_injective sent) (batch-TakenNothing d e);
}
