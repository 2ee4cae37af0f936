-- ===== src/Mount/Requests/Failure.antt =====
-- crates/eg/src/mount.rs: what a request that is answered by an error leaves.
use okayeg.Prelude.{◌≡◌, ◌≢◌, ◌⊎◌, Bool, true, false, some, arith}
use okayeg.TreeDoc.{TreeDoc}
use okayeg.Mount.Writeback.{Errno, enoent}
use okayeg.Mount.View.{DocMount}
use okayeg.Mount.Requests
use okayeg.Mount.Requests.{Reply, error}
use okayeg.Mount.Requests.Paths
use okayeg.Mount.Requests.Serve.{
  Request, Host, serve, lookup, getattr, setattr, readdir, read, write, flush, release, fsync,
  create, mkdir, unlink, rmdir, rename,
}

-- Whether the last step of a request looks up the attributes of what it has changed.
abbrev pub replies_attr : Request → Bool
replies_attr (setattr now wall ino size) = true
replies_attr (create wall parent name) = true
replies_attr (mkdir wall parent name) = true
replies_attr _ = false

module _ (T : TreeDoc) where
  -- A request that is answered by an error leaves the document, the buffers and the nudges as they
  -- were, unless the error is `ENOENT` and the request ends by looking up the attributes of what it
  -- has changed, as `setattr`, `create` and `mkdir` do.
  pub failed_request_keeps_writeback :
      (h : Host T) (m : DocMount T) (r : Request) (e : Errno) (m1 : DocMount T)
      → serve T h m r ≡ some (error e, m1)
      → (e ≢ enoent) ⊎ (replies_attr r ≡ false)
      → m1.writeback ≡ m.writeback
  unfolding serve
  failed_request_keeps_writeback h m (lookup parent name) e m1 k c =
      unfold Requests.lookup Requests.entry_of in ground (arith, k)
  failed_request_keeps_writeback h m (getattr ino) e m1 k c = ground (arith, k)
  failed_request_keeps_writeback h m (setattr now wall ino size) e m1 k c =
      unfold Requests.setattr Requests.getattr in ground (arith, k, c)
  failed_request_keeps_writeback h m (readdir ino offset) e m1 k c =
      unfold Requests.readdir in ground (arith, k)
  failed_request_keeps_writeback h m (read ino offset size) e m1 k c = ground (arith, k)
  failed_request_keeps_writeback h m (write now wall ino offset new) e m1 k c =
      unfold Requests.write in ground (arith, k)
  failed_request_keeps_writeback h m (flush wall ino) e m1 k c =
      unfold Requests.flush in ground (arith, k)
  failed_request_keeps_writeback h m (release wall ino) e m1 k c =
      unfold Requests.release in ground (arith, k)
  failed_request_keeps_writeback h m (fsync wall ino) e m1 k c =
      unfold Requests.fsync in ground (arith, k)
  failed_request_keeps_writeback h m (create wall parent name) e m1 k c =
      unfold Paths.create in ground (arith, k, c)
  failed_request_keeps_writeback h m (mkdir wall parent name) e m1 k c =
      unfold Paths.mkdir Requests.entry_of in ground (arith, k, c)
  failed_request_keeps_writeback h m (unlink wall parent name) e m1 k c =
      unfold Paths.unlink in ground (arith, k)
  failed_request_keeps_writeback h m (rmdir wall parent name) e m1 k c =
      unfold Paths.rmdir in ground (arith, k)
  failed_request_keeps_writeback h m (rename wall parent name newparent newname flags) e m1 k c =
      unfold Paths.rename in ground (arith, k)
