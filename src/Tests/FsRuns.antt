-- ===== src/Tests/FsRuns.antt =====
-- Runs of the path-addressed view over `rows_tree`, and its theorems there.
use okayeg.Prelude.{lit, ◌≡◌, refl, Option, none, some, [], ◌∷◌, lit, Result, ok, err, arith}
use okayeg.Tree.{file}
use okayeg.Fs.Path.{FsError, invalid_path, not_empty, components, join, valid_name}
use okayeg.Fs.Path.RoundTrip.{AllValid}
use okayeg.Fs.View.{resolve, path_of}
use okayeg.Fs.View.PathOf.{path_of-resolve}
use okayeg.Fs.Edit.{create_file, create_dir, remove_dir}
use okayeg.Fs.Edit.Creation.{IsPlaced, create_file-IsPlaced}
use okayeg.Fs.Edit.Failure.{perform, del_dir, failed_edit_changes_nothing}
use okayeg.Tests.Rows.{Rows, listed_from, row, write, rows_tree, rows-IsTree}

-- What an edit leaves, or the rows before it.
abbrev left_by : {A : Type 0} → Rows → Option (Result FsError A × Rows) → Rows
left_by d none = d
left_by d (some (_, d')) = d'

unfoldable pub d1 : Rows
unfolding create_dir listed_from row write
d1 = left_by [] (create_dir rows_tree [] (lit "src"))

unfoldable pub d2 : Rows
unfolding create_file d1
d2 = left_by d1 (create_file rows_tree d1 (lit "src//main.rs"))

components_collapse : components (lit "/a//b/") ≡ ok (lit "a" ∷ lit "b" ∷ [])
unfolding components
components_collapse = refl

components_refuse : components (lit "a/../b") ≡ err invalid_path
unfolding components
components_refuse = refl

names_valid : AllValid (lit "a" ∷ lit "b" ∷ [])
unfolding valid_name
names_valid = (refl, (refl, tt))

made_file : create_file rows_tree d1 (lit "src//main.rs") ≡ some (ok 1, d2)
unfolding create_file d2
made_file = refl

create_file-IsPlaced_example : IsPlaced rows_tree d1 (lit "src//main.rs") file (some []) 1 d2
create_file-IsPlaced_example =
    create_file-IsPlaced rows_tree rows-IsTree d1 (lit "src//main.rs") 1 d2 made_file

resolved : resolve rows_tree d2 (lit "/src/main.rs") ≡ ok 1
unfolding resolve d2
resolved = refl

split_path : components (lit "/src/main.rs") ≡ ok (lit "src" ∷ lit "main.rs" ∷ [])
unfolding components
split_path = refl

path_of-resolve_example :
    path_of rows_tree 2 d2 1 ≡ some (some (join (lit "src" ∷ lit "main.rs" ∷ [])))
path_of-resolve_example =
    path_of-resolve rows_tree rows-IsTree d2 (lit "/src/main.rs") (lit "src" ∷ lit "main.rs" ∷ []) 1
      2 split_path resolved (omega arith)

refused : perform rows_tree d2 (del_dir (lit "src")) ≡ some (err not_empty, d2)
unfolding perform remove_dir d2
refused = refl

failed_edit_changes_nothing_example : d2 ≡ d2
failed_edit_changes_nothing_example =
    failed_edit_changes_nothing rows_tree d2 (del_dir (lit "src")) not_empty d2 refused
