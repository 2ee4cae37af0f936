-- ===== src/Mount/Requests/Revoked.antt =====
-- crates/eg/src/mount.rs: a mount whose key the host has revoked.
use okayeg.Prelude.{
  ℕ, ◌≡◌, refl, sym, ap, ◌∙◌, Bool, true, Option, none, some, List, [], ◌∷◌, ◌++◌, arith,
  some_injective, none_is_not_some, subst, Str, if◌then◌else◌,
}
use okayeg.Prelude.Assoc
use okayeg.Prelude.Assoc.{Assoc}
use okayeg.TreeDoc.{TreeDoc}
use okayeg.Mount.Writeback
use okayeg.Mount.Writeback.{Errno, eacces, Writeback, commit_buffer}
use okayeg.Mount.View.{DocMount, node_of}
use okayeg.Mount.Requests
use okayeg.Mount.Requests.{
  Reply, Outcome, error, done, entry_of, found_entry, lookup_in, readdir_in, resize_node,
  commit_node, watched, DirEntry,
}
use okayeg.Mount.Requests.Paths
use okayeg.Mount.Requests.Serve.{
  Request, Host, with_mount, answer-inv, serve, serve_all, lookup, getattr, setattr, readdir, read,
  write, flush, release, fsync, create, mkdir, unlink, rmdir, rename,
}

module _ (T : TreeDoc) where
  -- The files whose buffers a request commits in a revoked mount.
  abbrev flushed_node : Option T.NodeId → List T.NodeId
  flushed_node none = []
  flushed_node (some n) = n ∷ []

  abbrev pub flushes : DocMount T → Request → List T.NodeId
  flushes m (flush wall ino) = flushed_node (node_of T m ino)
  flushes m (release wall ino) = flushed_node (node_of T m ino)
  flushes m (fsync wall ino) = flushed_node (node_of T m ino)
  flushes m _ = []

  abbrev pub commits : Writeback T → List T.NodeId → Writeback T
  commits w [] = w
  commits w (n ∷ nodes) = commits (Writeback.commit T w n) nodes

  -- A request of a revoked mount changes what these commits change, the table of numbers, and the
  -- times of files.
  record Refused (m : DocMount T) (nodes : List T.NodeId) (m1 : DocMount T) : Type 0 where
    writeback : m1.writeback ≡ commits m.writeback nodes
    revoked : m1.revoked ≡ true

  module _ (m : DocMount T) (k : m.revoked ≡ true) where
    same-Refused : Refused m [] m
    same-Refused = record { writeback = refl; revoked = k }

    ap_state :
        {nodes : List T.NodeId} {r s : Reply × DocMount T}
        → some r ≡ some s
        → Refused m nodes r.1
        → Refused m nodes s.1
    ap_state {nodes} e = subst (λ (r : Reply × DocMount T). Refused m nodes r.1) (some_injective e)

    with_mount-Refused :
        (o : Option Reply) {s : Reply × DocMount T} → with_mount T m o ≡ some s → Refused m [] s.1
    with_mount-Refused none e = elim (none_is_not_some e) [ ]
    with_mount-Refused (some r) e = ap_state e same-Refused

    refused :
        (reply : Reply) (o : Outcome T) (m1 : DocMount T)
        → o ≡ some (error eacces, m)
        → o ≡ some (reply, m1)
        → Refused m [] m1
    refused reply o m1 d e =
        subst (λ (r : Reply × DocMount T). Refused m [] r.1) (some_injective (sym d ∙ e))
          same-Refused

    entry_of-Refused : (n : T.NodeId) → Refused m [] (entry_of T m n).1
    unfolding entry_of
    entry_of-Refused n = record { writeback = refl; revoked = k }

    found-Refused : (o : Option T.NodeId) → Refused m [] (found_entry T m o).1
    found-Refused none = same-Refused
    found-Refused (some n) = entry_of-Refused n

    lookup-Refused :
        (name : Option Str) (nodes : Option (List T.NodeId))
        → Refused m [] (lookup_in T m name nodes).1
    lookup-Refused none nodes = same-Refused
    lookup-Refused (some name) none = same-Refused
    lookup-Refused (some name) (some nodes) = found-Refused _

    readdir-Refused :
        (full : List DirEntry → DirEntry → Bool) (ino offset : ℕ) (nodes : Option (List T.NodeId))
        → Refused m [] (readdir_in T full m ino offset nodes).1
    readdir-Refused full ino offset none = same-Refused
    readdir-Refused full ino offset (some nodes) = record { writeback = refl; revoked = k }

    setattr-Refused :
        (now wall ino : ℕ) (size : Option ℕ)
        → Refused m [] (Requests.setattr T m now wall ino size).1
    unfolding Requests.setattr
    setattr-Refused now wall ino none = same-Refused
    setattr-Refused now wall ino (some size) =
        subst
          (λ (b : Bool).
            Refused m []
              (if b
                then (error eacces, m)
                else resize_node T m now wall ino size (node_of T m ino)).1)
          (sym k) same-Refused

    commit-Refused :
        (wall : ℕ) (o : Option T.NodeId) → Refused m (flushed_node o) (commit_node T m wall o)
    unfolding watched
    commit-Refused wall none = same-Refused
    commit-Refused wall (some n) = record { writeback = refl; revoked = k }

    serve-Refused :
        (h : Host T) (r : Request) (reply : Reply) (m1 : DocMount T)
        → serve T h m r ≡ some (reply, m1)
        → Refused m (flushes m r) m1
    unfolding serve
    serve-Refused h (lookup parent name) reply m1 e =
        unfold Requests.lookup in ap_state e (lookup-Refused _ _)
    serve-Refused h (getattr ino) reply m1 e = ap_state e same-Refused
    serve-Refused h (setattr now wall ino size) reply m1 e =
        ap_state e (setattr-Refused now wall ino size)
    serve-Refused h (readdir ino offset) reply m1 e =
        unfold Requests.readdir in ap_state e (readdir-Refused h.full ino offset _)
    serve-Refused h (read ino offset size) reply m1 e = with_mount-Refused _ e
    serve-Refused h (write now wall ino offset new) reply m1 e =
        unfold Requests.write in refused reply _ m1 (ground (arith, k)) e
    serve-Refused h (flush wall ino) reply m1 e =
        unfold Requests.flush in ap_state e (commit-Refused _ _)
    serve-Refused h (release wall ino) reply m1 e =
        unfold Requests.release in ap_state e (commit-Refused _ _)
    serve-Refused h (fsync wall ino) reply m1 e =
        unfold Requests.fsync in ap_state e (commit-Refused _ _)
    serve-Refused h (create wall parent name) reply m1 e =
        unfold Paths.create in refused reply _ m1 (ground (arith, k)) e
    serve-Refused h (mkdir wall parent name) reply m1 e =
        unfold Paths.mkdir in refused reply _ m1 (ground (arith, k)) e
    serve-Refused h (unlink wall parent name) reply m1 e =
        unfold Paths.unlink in refused reply _ m1 (ground (arith, k)) e
    serve-Refused h (rmdir wall parent name) reply m1 e =
        unfold Paths.rmdir in refused reply _ m1 (ground (arith, k)) e
    serve-Refused h (rename wall parent name newparent newname flags) reply m1 e =
        unfold Paths.rename in refused reply _ m1 (ground (arith, k)) e

  commits-append :
      (w : Writeback T) (ns ms : List T.NodeId) → commits w (ns ++ ms) ≡ commits (commits w ns) ms
  commits-append w [] ms = refl
  commits-append w (n ∷ ns) ms = commits-append (Writeback.commit T w n) ns ms

  -- Whatever a revoked mount is asked, its document, buffers and nudges end as commits of some files
  -- leave them, so the document changes only by what was written before.
  pub serve_all-commits :
      (h : Host T) (requests : List Request) (m : DocMount T) (replies : List Reply)
      (m1 : DocMount T)
      → m.revoked ≡ true
      → serve_all T h m requests ≡ some (replies, m1)
      → (nodes : List T.NodeId) × (m1.writeback ≡ commits m.writeback nodes)
  unfolding serve_all
  serve_all-commits h [] m replies m1 k e =
      let same = some_injective e in
      ([], ap (λ (x : List Reply × DocMount T). x.1.writeback) (sym same))
  serve_all-commits h (r ∷ requests) m replies m1 k e =
      let (reply, m2, later, served, run) = answer-inv T _ (serve T h m r) e in
      let first = serve-Refused m k h r reply m2 served in
      let (nodes, w) = serve_all-commits h requests m2 later m1 first.revoked run in
      (
        flushes m r ++ nodes,
        w
            ∙ ap (λ v. commits v nodes) first.writeback
            ∙ sym (commits-append m.writeback (flushes m r) nodes),
      )

  commits_clean : (w : Writeback T) (nodes : List T.NodeId) → w.buffers ≡ [] → commits w nodes ≡ w
  unfolding Writeback.commit Assoc.lookup
  commits_clean w [] h = refl
  commits_clean w (n ∷ nodes) h =
      let same : Writeback.commit T w n ≡ w =
        ap
          (λ (m : Assoc T.NodeId (Writeback.Buffer T)).
            commit_buffer T w n (Assoc.lookup ⦃e = T.node_eq⦄ n m))
          h in
      ap (λ (v : Writeback T). commits v nodes) same ∙ commits_clean w nodes h

  -- A revoked mount without a dirty file is read-only: no requests change its document, buffers or
  -- nudges.
  pub revoked_clean_mount_is_read_only :
      (h : Host T) (requests : List Request) (m : DocMount T) (replies : List Reply)
      (m1 : DocMount T)
      → m.revoked ≡ true
      → m.writeback.buffers ≡ []
      → serve_all T h m requests ≡ some (replies, m1)
      → m1.writeback ≡ m.writeback
  revoked_clean_mount_is_read_only h requests m replies m1 k clean e =
      let (nodes, w) = serve_all-commits h requests m replies m1 k e in
      w ∙ commits_clean m.writeback nodes clean
