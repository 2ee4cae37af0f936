-- ===== src/Tests/WatchRuns.antt =====
-- A workspace of files without directories, and the theorem on pruning there.
use okayeg.Prelude.{
  ℕ, ◌≡◌, refl, Bool, true, false, Option, none, some, List, [], ◌∷◌, Bytes, lit, Result, ok, err,
  ok_or, All, inl, inr, arith,
}
use okayeg.Prelude.Assoc.{Assoc, lookup, insert, erase, lookup-erase}
use okayeg.Prelude.Options.{and_then}
use okayeg.Utf8.{as_bytes, from_utf8}
use okayeg.Tree
use okayeg.Trust.File.{IoError, not_found}
use okayeg.Workspace.{RelPath, RelPath_eq, path_beq_iff, Workspace, RemovesOne, Kind, file}
use okayeg.Watch.{Tracked, ExportedBase, prune}
use okayeg.Watch.Prune.{IsEdited, prune-IsEdited}
use okayeg.Watch.Ingest.{apply_path, apply_batch, child_named, node_at, node_from}
use okayeg.Watch.Ingest.Echo.{IsAbsorbed, agreed, nowhere, apply_batch-IsAbsorbed}
use okayeg.Tests.Rows.{Rows, rows_tree, listed_from, row, moved}
use okayeg.Tests.FsRuns.{d2}

abbrev kind_of : Option Bytes → Option Kind
kind_of none = none
kind_of (some b) = some file

abbrev flat : Workspace
flat = record {
  Files = Assoc RelPath Bytes;
  read_dir = λ w p. err not_found;
  read_file = λ w p. ok_or (lookup p w) not_found;
  write_file = λ w p b. (insert p b w, true);
  write_private = λ w p b. (insert p b w, true);
  create_dir = λ w p. (w, false);
  remove_file = λ w p. (erase p w, true);
  remove_dir = λ w p. (w, false);
  kind = λ w p. ok (kind_of (lookup p w));
}

flat-RemovesOne : RemovesOne flat
flat-RemovesOne = record {
  remove_file_lem = λ w p q ne. ground (arith, ne, lookup-erase p q w, path_beq_iff p q);
  remove_dir_lem = λ w p q. refl;
}

abbrev main_rs : RelPath
main_rs = lit "src" ∷ lit "main.rs" ∷ []

abbrev old_rs : RelPath
old_rs = lit "old.rs" ∷ []

-- Two files of the same base, whose text is empty: one that was edited since, one that was not.
abbrev base : ExportedBase rows_tree flat
base = record { frontier = tt; node = 1 }

abbrev tracked : Tracked rows_tree flat
tracked = record {
  files = (main_rs, lit "fn") ∷ (old_rs, []) ∷ [];
  bases = (main_rs, base) ∷ (old_rs, base) ∷ [];
  dirs = [];
}

edited : IsEdited rows_tree flat d2 main_rs (lit "fn") tracked
unfolding lookup
edited = record {
  on_disk = refl;
  no_echo = λ b text h there. unfold Tree.content_at d2 as_bytes in cc;
}

prune-IsEdited_example :
    IsEdited rows_tree flat d2 main_rs (lit "fn") (prune rows_tree flat d2 tracked [] [])
prune-IsEdited_example =
    prune-IsEdited rows_tree flat flat-RemovesOne d2 main_rs (lit "fn") tracked [] [] edited

-- The file that was not edited is gone, with its base.
pruned :
    prune rows_tree flat d2 tracked [] []
    ≡ record { files = (main_rs, lit "fn") ∷ []; bases = (main_rs, base) ∷ []; dirs = [] }
unfolding prune lookup erase d2 Tree.content_at as_bytes
pruned = refl

-- The file as it was exported, and a path that is nowhere.
abbrev exported : Assoc RelPath Bytes
exported = (main_rs, []) ∷ []

absorbed : All (IsAbsorbed rows_tree flat exported d2 []) (main_rs ∷ old_rs ∷ [])
unfolding lookup child_named node_at node_from Tree.content d2 listed_from row from_utf8
absorbed =
    (agreed [] [] refl refl refl (inr (0, refl)) (inl (1, refl, refl)), (nowhere refl refl, tt))

apply_batch-IsAbsorbed_example :
    (r : Result IoError Bool) × (bases1 : Assoc RelPath (ExportedBase rows_tree flat))
    × (apply_batch rows_tree flat exported d2 (main_rs ∷ old_rs ∷ []) [] ≡ some (r, d2, bases1))
apply_batch-IsAbsorbed_example =
    apply_batch-IsAbsorbed rows_tree flat exported d2 [] (main_rs ∷ old_rs ∷ []) absorbed

-- The directory and the file are deleted from the document; the file is still on disk, as exported.
abbrev deleted_both : Option Rows
deleted_both = and_then (rows_tree.delete d2 1) (λ d. rows_tree.delete d 0)

abbrev or_none : Option Rows → Rows
or_none none = []
or_none (some d) = d

abbrev roots_after : Option (Result IoError Rows) → List ℕ
roots_after none = []
roots_after (some (err e)) = []
roots_after (some (ok d)) = rows_tree.roots d

-- The stale file is not taken in, but its directory is created anew.
directory_returns :
    roots_after
      (apply_path rows_tree flat exported (or_none deleted_both) main_rs ((main_rs, base) ∷ []))
    ≡ 2 ∷ []
unfolding apply_path d2 lookup listed_from row moved
directory_returns = refl
