-- ===== src/Workspace.antt =====
-- crates/eg/src/workspace.rs: the trait `Workspace`, the files that a repository is kept with. The
-- files on disk are outside, so the operations are a record, with what the trait promises as laws.
use okayeg.Prelude.{
  ◌≡◌, ◌≢◌, refl, Bool, true, false, ◌&&◌, Option, List, [], ◌∷◌, Str, Str_eq, Bytes, Result, Eq,
  str_beq, str_beq_iff, arith, ◌↔◌,
}
use okayeg.Trust.File.{IoError}

-- A relative path, as its components.
abbrev pub RelPath : Type 0
RelPath = List Str

abbrev pub path_beq : RelPath → RelPath → Bool
path_beq [] [] = true
path_beq [] (b ∷ t) = false
path_beq (a ∷ s) [] = false
path_beq (a ∷ s) (b ∷ t) = str_beq a b && path_beq s t

pub path_beq_iff : (s t : RelPath) → (path_beq s t ≡ true) ↔ (s ≡ t)
path_beq_iff [] [] = (λ h. refl, λ h. refl)
path_beq_iff [] (b ∷ t) = (λ h. cc, λ h. cc)
path_beq_iff (a ∷ s) [] = (λ h. cc, λ h. cc)
path_beq_iff (a ∷ s) (b ∷ t) = ground (arith, path_beq_iff s t, str_beq_iff a b)

instance abbrev pub RelPath_eq : Eq RelPath
RelPath_eq = record { eq = path_beq; eq_iff = path_beq_iff }

pub data Kind : Type 0 where
  file dir : Kind

pub data Entry : Type 0 where
  file_entry dir_entry : Str → Entry

-- An operation that changes the files says whether it succeeded.
pub record Workspace : Type 1 where
  pub Files : Type 0
  pub read_dir : Files → RelPath → Result IoError (List Entry)
  pub read_file : Files → RelPath → Result IoError Bytes
  pub write_file : Files → RelPath → Bytes → Files × Bool
  pub write_private : Files → RelPath → Bytes → Files × Bool
  pub create_dir : Files → RelPath → Files × Bool
  pub remove_file : Files → RelPath → Files × Bool
  pub remove_dir : Files → RelPath → Files × Bool
  pub kind : Files → RelPath → Result IoError (Option Kind)

-- A removal takes away no file but the one that it names, and none where it is of a directory, which
-- has to be empty.
pub record RemovesOne (W : Workspace) : Type 0 where
  pub remove_file_lem :
      (w : W.Files) (p q : RelPath) → p ≢ q → W.read_file (W.remove_file w q).0 p ≡ W.read_file w p
  pub remove_dir_lem :
      (w : W.Files) (p q : RelPath) → W.read_file (W.remove_dir w q).0 p ≡ W.read_file w p
