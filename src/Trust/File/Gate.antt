-- ===== src/Trust/File/Gate.antt =====
-- crates/eg/src/trust.rs and crates/eg/src/net.rs: what `eg trust` writes is what the gate decides.
use okayeg.Prelude.{
  ◌≡◌, refl, ap, ◌∙◌, Option, some, Bytes, Result, ok, Eq, ◌>>=◌, sym, none, err, ok_or,
  ok_injective, Str, subst,
}
use okayeg.Sync.Msg.{Perms}
use okayeg.Net.Authz.{Decision, grant, deny}
use okayeg.Trust.{
  add, remove, list, GrantData, Trust, TrustAction, Report, perms_of, perms, perform,
}
use okayeg.Trust.Change.{granted, perms-perform}
use okayeg.Trust.File.{
  other_error, finished, acted, perform_action, file_after, written, Formats, IsFaithful, IoError,
  save, gate_decision, gate, authorize, load,
}
use okayeg.Trust.File.RoundTrip.{load-save}

module _ {EndpointId : Type 0} ⦃e : Eq EndpointId⦄ (F : Formats EndpointId)
    (faithful : IsFaithful F) where
  authorize-save :
      (t : Trust EndpointId) (bytes : Bytes) (who : EndpointId)
      → save F t ≡ ok bytes
      → authorize F (ok bytes) who ≡ gate_decision (perms t who)
  unfolding authorize perms
  authorize-save t bytes who h =
      let (t', l, f) = load-save F faithful t bytes h in
      ap (λ (r : Result IoError (Trust EndpointId)). gate r who) l
      ∙ ap (λ (o : Option GrantData). gate_decision (perms_of o)) (f who)

  authorize-load :
      (file : Result IoError Bytes) (t : Trust EndpointId) (who : EndpointId)
      → load F file ≡ ok t
      → authorize F file who ≡ gate_decision (perms t who)
  unfolding authorize
  authorize-load file t who h = ap (λ (r : Result IoError (Trust EndpointId)). gate r who) h

  authorize-perform :
      (t t' : Trust EndpointId) (action : TrustAction) (r : Report EndpointId) (bytes : Bytes)
      (who : EndpointId)
      → perform F.from_str t action ≡ some (t', r)
      → save F t' ≡ ok bytes
      → authorize F (ok bytes) who ≡ gate_decision (granted F.from_str action (perms t) who)
  authorize-perform t t' action r bytes who h saved =
      authorize-save t' bytes who saved
      ∙ ap gate_decision (perms-perform F.from_str t t' action r h who)

  saved-inv :
      (s : Result IoError Bytes) (w : Option Bytes) (q r : Report EndpointId)
      → written s q ≡ ok (w, r)
      → (bytes : Bytes) × (s ≡ ok bytes) × (some bytes ≡ w)
  saved-inv (err x) w q r h = cc
  saved-inv (ok bytes) w q r h =
      (bytes, refl, ap (λ (x : Option Bytes × Report EndpointId). x.0) (ok_injective h))

  saved_action :
      (file : Result IoError Bytes) (t t' : Trust EndpointId) (action : TrustAction)
      (q r : Report EndpointId) (w : Option Bytes) (who : EndpointId)
      → perform F.from_str t action ≡ some (t', q)
      → written (save F t') q ≡ ok (w, r)
      → authorize F (file_after file w) who
        ≡ gate_decision (granted F.from_str action (perms t) who)
  saved_action file t t' action q r w who h s =
      let (bytes, saved, e) = saved-inv (save F t') w q r s in
      ap (λ (o : Option Bytes). authorize F (file_after file o) who) (sym e)
      ∙ authorize-perform t t' action q bytes who h saved

  kept :
      (file : Result IoError Bytes) (t : Trust EndpointId) (w : Option Bytes) (who : EndpointId)
      → load F file ≡ ok t
      → none ≡ w
      → authorize F (file_after file w) who ≡ gate_decision (perms t who)
  kept file t w who l e =
      ap (λ (o : Option Bytes). authorize F (file_after file o) who) (sym e)
      ∙ authorize-load file t who l

  by_result :
      (file : Result IoError Bytes) (action : TrustAction) (t : Trust EndpointId)
      (o : Option (Trust EndpointId × Report EndpointId)) (w : Option Bytes) (r : Report EndpointId)
      (who : EndpointId)
      → load F file ≡ ok t
      → perform F.from_str t action ≡ o
      → (ok_or o other_error >>= finished F action) ≡ ok (w, r)
      → authorize F (file_after file w) who
        ≡ gate_decision (granted F.from_str action (perms t) who)
  by_result file action t none w r who l p h = cc
  by_result file (add peer access) t (some (t', q)) w r who l p h =
      saved_action file t t' (add peer access) q r w who p h
  by_result file (remove peer access) t (some (t', q)) w r who l p h =
      saved_action file t t' (remove peer access) q r w who p h
  by_result file list t (some (t', q)) w r who l p h =
      kept file t w who l (ap (λ (x : Option Bytes × Report EndpointId). x.0) (ok_injective h))

  -- Exactly these permissions, if there are any, and else a refusal.
  abbrev pub Decides : Decision → Option Perms → Type 0
  Decides d none = (message : Option Str) × (d ≡ deny message)
  Decides d (some p) = d ≡ grant p

  gate_decision-Decides : (o : Option Perms) → Decides (gate_decision o) o
  gate_decision-Decides none = (_, refl)
  gate_decision-Decides (some p) = refl

  -- Where ids and trust files read back as they are printed: after `eg trust` has acted on a trust
  -- file that loads, the gate that reads the file grants each peer what
  -- the action left it of what the file said before: the peer that it names what it lists or does
  -- not take away, and every other peer what it had. A peer with nothing left is denied.
  pub authorize-perform_action :
      (file : Result IoError Bytes) (action : TrustAction) (t : Trust EndpointId) (w : Option Bytes)
      (r : Report EndpointId) (who : EndpointId)
      → load F file ≡ ok t
      → perform_action F file action ≡ ok (w, r)
      → Decides (authorize F (file_after file w) who) (granted F.from_str action (perms t) who)
  unfolding perform_action
  authorize-perform_action file action t w r who l h =
      let what = granted F.from_str action (perms t) who in
      let decided =
        by_result file action t (perform F.from_str t action) w r who l refl
          (sym (ap (λ (q : Result IoError (Trust EndpointId)). q >>= acted F action) l) ∙ h) in
      subst (λ (d : Decision). Decides d what) (sym decided) (gate_decision-Decides what)
