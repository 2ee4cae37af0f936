-- ===== src/Mount/Requests/Serve.antt =====
-- crates/eg/src/mount.rs: the kernel's requests as values, and runs of them.
use okayeg.Prelude.{
  ◌≡◌, refl, Option-cases, inl, inr, none_is_not_some, arith, ℕ, Bool, Option, none, some, List, [],
  ◌∷◌, Str, Bytes,
}
use okayeg.TreeDoc.{TreeDoc}
use okayeg.Mount.View.{DocMount}
use okayeg.Mount.Requests
use okayeg.Mount.Requests.{DirEntry, Reply, Outcome}
use okayeg.Mount.Requests.Paths
use okayeg.Mount.Requests.Paths.{RenameFlags}

-- A request with the times at which it is served.
pub data Request : Type 0 where
  lookup : ℕ → Bytes → Request
  getattr : ℕ → Request
  setattr : ℕ → ℕ → ℕ → Option ℕ → Request
  readdir : ℕ → ℕ → Request
  read : ℕ → ℕ → ℕ → Request
  write : ℕ → ℕ → ℕ → ℕ → Bytes → Request
  flush release fsync : ℕ → ℕ → Request
  create mkdir unlink rmdir : ℕ → ℕ → Bytes → Request
  rename : ℕ → ℕ → Bytes → ℕ → Bytes → RenameFlags → Request

module _ (T : TreeDoc) where
  -- What the requests rest on beside the mount: Loro's `slice_delta`, the kernel's buffer for
  -- entries, and the fuel of a climb to the root.
  pub record Host : Type 0 where
    pub slice_delta : Str → ℕ → ℕ → Option (List Str)
    pub full : List DirEntry → DirEntry → Bool
    pub fuel : ℕ

  abbrev pub with_mount : DocMount T → Option Reply → Outcome T
  with_mount m none = none
  with_mount m (some r) = some (r, m)

  unfoldable pub serve : Host → DocMount T → Request → Outcome T
  serve h m (lookup parent name) = some (Requests.lookup T m parent name)
  serve h m (getattr ino) = some (Requests.getattr T m ino, m)
  serve h m (setattr now wall ino size) = some (Requests.setattr T m now wall ino size)
  serve h m (readdir ino offset) = some (Requests.readdir T h.full m ino offset)
  serve h m (read ino offset size) = with_mount m (Requests.read T h.slice_delta m ino offset size)
  serve h m (write now wall ino offset new) = Requests.write T m now wall ino offset new
  serve h m (flush wall ino) = some (Requests.flush T m wall ino)
  serve h m (release wall ino) = some (Requests.release T m wall ino)
  serve h m (fsync wall ino) = some (Requests.fsync T m wall ino)
  serve h m (create wall parent name) = Paths.create T h.fuel m wall parent name
  serve h m (mkdir wall parent name) = Paths.mkdir T h.fuel m wall parent name
  serve h m (unlink wall parent name) = Paths.unlink T h.fuel m wall parent name
  serve h m (rmdir wall parent name) = Paths.rmdir T h.fuel m wall parent name
  serve h m (rename wall parent name newparent newname flags) =
      Paths.rename T h.fuel m wall parent name newparent newname flags

  abbrev pub answer :
      (DocMount T → Option (List Reply × DocMount T)) → Outcome T → Option (List Reply × DocMount T)
  answer go none = none
  answer go (some (reply, m)) = elim (go m) [
    | none ↦ none
    | some (replies, m1) ↦ some (reply ∷ replies, m1)
  ]

  -- Requests served one after the other.
  unfoldable pub serve_all : Host → DocMount T → List Request → Option (List Reply × DocMount T)
  unfolding serve
  serve_all h m [] = some ([], m)
  serve_all h m (r ∷ requests) = answer (λ m1. serve_all h m1 requests) (serve h m r)

  -- A run that goes on has served its first request.
  pub answer-inv :
      (go : DocMount T → Option (List Reply × DocMount T)) (o : Outcome T) {replies : List Reply}
      {m1 : DocMount T}
      → answer go o ≡ some (replies, m1)
      → (reply : Reply) × (m2 : DocMount T) × (later : List Reply) × (o ≡ some (reply, m2))
        × (go m2 ≡ some (later, m1))
  answer-inv go none e = elim (none_is_not_some e) [ ]
  answer-inv go (some (reply, m2)) e = elim (Option-cases (go m2)) [
    | inl h ↦ ground (arith, h, e)
    | inr ((later, m3), h) ↦ (reply, m2, later, refl, ground (arith, h, e))
  ]
