-- ===== src/Tests/MountRuns.antt =====
-- Runs of the mount over `rows_tree`, and its theorems there.
use okayeg.Prelude.{
  nat_eq, length, ℕ, ◌-◌, ◌^◌, ◌<◌, ◌≡◌, refl, Bool, true, false, some, List, [], ◌∷◌, ◌++◌, lit,
  ℕ_eq, inr, is_empty, none, take, drop, arith, if◌then◌else◌,
}
use okayeg.Prelude.Assoc.{lookup, insert, erase}
use okayeg.Utf8.{from_utf8}
use okayeg.Tree
use okayeg.Mount.Inodes
use okayeg.Mount.Inodes.{Inodes}
use okayeg.Mount.Inodes.Table.{new-IsTable, seen, numbers_stay}
use okayeg.Mount.Writeback
use okayeg.Mount.Writeback.{Buffer, eacces, enotempty, read_range, commit}
use okayeg.Mount.Writeback.Contents.{Edit, writing, truncating, read_range_lem}
use okayeg.Mount.View.{DocMount, content, moved_node, doc_watch, children, dir_path, errno}
use okayeg.Mount.Requests
use okayeg.Mount.Requests.Paths
use okayeg.Mount.Requests.{numbered, dots, error, done}
use okayeg.Mount.Requests.Serve.{Request, Host, serve, serve_all, write, mkdir, rmdir, flush}
use okayeg.Mount.Requests.Listing.{Row, Listed}
use okayeg.Mount.Requests.Pages.{read_pages, read_pages-Listed}
use okayeg.Mount.Requests.Revoked.{commits, serve_all-commits, revoked_clean_mount_is_read_only}
use okayeg.Mount.Requests.Failure.{failed_request_keeps_writeback}
use okayeg.Tests.Rows.{listed_from, rows_tree}
use okayeg.Tests.FsRuns.{d2}

-- A mount of the rows of `src/main.rs`.
abbrev mounted : Bool → DocMount rows_tree
mounted revoked = record {
  inodes = Inodes.new;
  writeback = record { doc = d2; buffers = []; changed = 0 };
  revoked = revoked;
  mtimes = [];
  uid = 1000;
  gid = 1000;
  epoch = 0;
  subscription =
      λ before behind. if nat_eq (length before) (length behind) then [] else content 1 ∷ [];
}

-- A kernel whose buffer takes one entry.
abbrev host : Host rows_tree
host = record {
  slice_delta = λ s from to. none;
  full = λ taken e. if is_empty taken then false else true;
  fuel = 10;
}

numbers_stay_example :
    let (i, t) = Inodes.ino ⦃e = ℕ_eq⦄ (seen ⦃e = ℕ_eq⦄ Inodes.new (5 ∷ 7 ∷ [])) 8 in
    (Inodes.node ⦃e = ℕ_eq⦄ (seen ⦃e = ℕ_eq⦄ t (5 ∷ 9 ∷ [])) i ≡ some 8)
    × (Inodes.existing ⦃e = ℕ_eq⦄ (seen ⦃e = ℕ_eq⦄ t (5 ∷ 9 ∷ [])) 8 ≡ some i)
    × (Inodes.root_ino < i)
numbers_stay_example = numbers_stay ⦃e = ℕ_eq⦄ (5 ∷ 7 ∷ []) (5 ∷ 9 ∷ []) 8

abbrev edits : List Edit
edits = writing 2 (lit "abc") ∷ truncating 4 ∷ writing 6 (lit "z") ∷ []

-- A write whose end wraps.
wraps : Writeback.splice (2 ^ 64 - 1) (lit "ab") [] ≡ none
unfolding Writeback.splice
wraps = refl

read_range_lem_example : read_range 1 7 (lit "abc") ≡ take 7 (drop 1 (lit "abc"))
read_range_lem_example = read_range_lem 1 7 (lit "abc") (omega arith)

-- A directory of which one entry is listed at a time.
read_pages-Listed_example :
    (rows : List Row) × (table : Inodes ℕ) × Listed rows_tree d2 table (0 ∷ []) rows
    × (read_pages rows_tree host.full 4 (mounted false) 1 0
        ≡ some (numbered 0 (dots rows_tree 1 ++ rows), record (mounted false) { inodes = table }))
read_pages-Listed_example =
    read_pages-Listed rows_tree host.full (λ e. refl) (mounted false) 1 4 (0 ∷ [])
      (new-IsTable ⦃e = ℕ_eq⦄) (unfold children d2 listed_from in refl) (omega arith)

abbrev asked : List Request
asked = write 1 1 1 0 (lit "ab") ∷ mkdir 1 1 (lit "docs") ∷ flush 1 1 ∷ []

-- A revoked mount refuses what would change it.
refusals :
    serve_all rows_tree host (mounted true) asked
    ≡ some (error eacces ∷ error eacces ∷ done ∷ [], mounted true)
unfolding serve_all d2 lookup Paths.mkdir Requests.write Requests.flush Inodes.new
refusals = refl

revoked_clean_mount_is_read_only_example : (mounted true).writeback ≡ (mounted true).writeback
revoked_clean_mount_is_read_only_example =
    revoked_clean_mount_is_read_only rows_tree host asked (mounted true)
      (error eacces ∷ error eacces ∷ done ∷ []) (mounted true) refl refl refusals

-- A revoked mount with a buffer that was written before.
abbrev written_before : List (ℕ × Buffer rows_tree) → DocMount rows_tree
written_before buffers = record (mounted true) {
  inodes = record { by_ino = (2, 1) ∷ []; by_node = (1, 2) ∷ []; next = 3 };
  writeback = record { doc = d2; buffers = buffers; changed = 0 };
}

abbrev dirty : DocMount rows_tree
dirty = written_before ((1, record { bytes = lit "ab"; base = tt; last_write = 1 }) ∷ [])

-- A content that changed stamps its file, a move stamps none.
stamped_by_watch : doc_watch {NodeId = ℕ} [] 5 (content 1 ∷ moved_node 2 ∷ []) ≡ (1, 5) ∷ []
unfolding doc_watch insert
stamped_by_watch = refl

-- The flush commits the buffer; `rows_tree` has no history, so its edit does not apply.
flushed :
    serve_all rows_tree host dirty (write 5 5 2 0 (lit "z") ∷ flush 5 2 ∷ [])
    ≡ some (error eacces ∷ done ∷ [], (written_before []))
unfolding serve_all d2 lookup erase insert Requests.write Requests.flush Writeback.apply
flushed = refl

serve_all-commits_example :
    (nodes : List ℕ) × ((written_before []).writeback ≡ commits rows_tree dirty.writeback nodes)
serve_all-commits_example =
    serve_all-commits rows_tree host (write 5 5 2 0 (lit "z") ∷ flush 5 2 ∷ []) dirty
      (error eacces ∷ done ∷ []) (written_before []) refl flushed

not_emptied :
    serve rows_tree host (mounted false) (rmdir 1 1 (lit "src"))
    ≡ some (error enotempty, mounted false)
unfolding serve d2 lookup Paths.rmdir from_utf8 dir_path errno
not_emptied = refl

failed_request_keeps_writeback_example : (mounted false).writeback ≡ (mounted false).writeback
failed_request_keeps_writeback_example =
    failed_request_keeps_writeback rows_tree host (mounted false) (rmdir 1 1 (lit "src")) enotempty
      (mounted false) not_emptied (inr refl)
