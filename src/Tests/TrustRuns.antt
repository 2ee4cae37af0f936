-- ===== src/Tests/TrustRuns.antt =====
-- Formats of ids and trust files that meet the laws, and the theorems on trust sets there.
use okayeg.Prelude.{
  ℕ, ◌≡◌, ◌∙◌, refl, Bool, true, false, Option, none, some, [], ◌∷◌, Str, Str_eq, Bytes, ok, nat_eq,
  ap, none_is_not_some, some_injective, subst, Bool-cases, inl, inr, all, if◌then◌else◌, arith,
  ◌>>=◌, ok_or, Result,
}
use okayeg.Prelude.Assoc.{Assoc, lookup, insert}
use okayeg.Prelude.Ordered.{put}
use okayeg.Utf8.{is_scalar, as_bytes, from_utf8, encode_char}
use okayeg.Utf8.RoundTrip.{AllScalar}
use okayeg.Sync.Msg.{Perms, all_perms}
use okayeg.Trust.{
  Report, Trust, access_push, TrustAction, remove, perms, perform, may, drop_perms, drop_all,
}
use okayeg.Trust.Change.{granted, perms-perform}
use okayeg.Trust.Reported.{Says, perform-Says}
use okayeg.Trust.File.{
  Row, Formats, IsFaithful, load, save, rows_of, authorize, load_rows, acted, finished,
  perform_action, file_after, written, other_error, IoError,
}
use okayeg.Trust.File.RoundTrip.{load-save}
use okayeg.Trust.File.Gate.{Decides, authorize-perform_action}

-- An id is its text; a file has at most one row, without a label: two letters and the id.
abbrev letter : Bool → ℕ
letter true = 49
letter false = 48

abbrev print_row : Str → Row → Option Str
print_row k row = if all is_scalar k then some (letter row.pull ∷ letter row.push ∷ k) else none

abbrev unlabelled : Str → Row → Option Str → Option Str
unlabelled k row none = print_row k row
unlabelled k row (some _) = none

abbrev print_rows : Assoc Str Row → Option Str
print_rows [] = some []
print_rows ((k, row) ∷ []) = unlabelled k row row.label
print_rows (_ ∷ _ ∷ _) = none

abbrev parse_rows : Str → Option (Assoc Str Row)
parse_rows [] = some []
parse_rows (_ ∷ []) = none
parse_rows (a ∷ b ∷ k) =
    some ((k, record { pull = nat_eq a 49; push = nat_eq b 49; label = none }) ∷ [])

abbrev flat : Formats Str
flat = record { from_str = λ s. some s; to_string = λ s. s; parse = parse_rows; print = print_rows }

AllScalar-of_all : (k : Str) → all is_scalar k ≡ true → AllScalar k
unfolding all
AllScalar-of_all [] h = tt
AllScalar-of_all (c ∷ k) h = (ground arith, AllScalar-of_all k (ground arith))

letter-is_scalar : (b : Bool) → is_scalar (letter b) ≡ true
unfolding is_scalar
letter-is_scalar true = refl
letter-is_scalar false = refl

letter-read : (b : Bool) → nat_eq (letter b) 49 ≡ b
letter-read true = refl
letter-read false = refl

print_row-inv :
    (k : Str) (row : Row) (text : Str)
    → print_row k row ≡ some text
    → (all is_scalar k ≡ true) × (letter row.pull ∷ letter row.push ∷ k ≡ text)
print_row-inv k row text h = elim (Bool-cases (all is_scalar k)) [
  | inl scalar ↦ (scalar, ground arith)
  | inr other ↦ cc
]

parse-unlabelled :
    (k : Str) (x y : Bool) (l : Option Str) (text : Str)
    → unlabelled k (record { pull = x; push = y; label = l }) l ≡ some text
    → (parse_rows text ≡ some ((k, record { pull = x; push = y; label = l }) ∷ [])) × AllScalar text
parse-unlabelled k x y (some _) text h = elim (none_is_not_some h) [ ]
parse-unlabelled k x y none text h =
    let (scalar, e) = print_row-inv k (record { pull = x; push = y; label = none }) text h in
    subst
      (λ (s : Str).
        (parse_rows s ≡ some ((k, record { pull = x; push = y; label = none }) ∷ [])) × AllScalar s)
      e
      (
        ap
              (λ (a : Bool).
                some ((k, record { pull = a; push = nat_eq (letter y) 49; label = none }) ∷ []))
              (letter-read x)
            ∙ ap (λ (b : Bool). some ((k, record { pull = x; push = b; label = none }) ∷ []))
                (letter-read y),
        (letter-is_scalar x, (letter-is_scalar y, AllScalar-of_all k scalar)),
      )

read_back :
    (rows : Assoc Str Row) (text : Str)
    → print_rows rows ≡ some text
    → (parse_rows text ≡ some rows) × AllScalar text
read_back [] text h =
    subst (λ (s : Str). (parse_rows s ≡ some []) × AllScalar s) (some_injective h) (refl, tt)
read_back ((k, row) ∷ []) text h = parse-unlabelled k row.pull row.push row.label text h
read_back (_ ∷ _ ∷ _) text h = elim (none_is_not_some h) [ ]

flat-IsFaithful : IsFaithful flat
flat-IsFaithful = record {
  from_str-to_string = λ id. refl;
  parse-print = λ rows text o h. (read_back rows text h).0;
  print-AllScalar = λ rows text h. (read_back rows text h).1;
}

abbrev ann : Str
ann = 65 ∷ []

abbrev nobody : Trust Str
nobody = record { peers = [] }

abbrev only_pull : Perms
only_pull = record { pull = true; push = false }

-- Ann is given both rights, and then loses one.
abbrev one_right : Trust Str
one_right = record { peers = (ann, record { perms = only_pull; label = none }) ∷ [] }

abbrev both_rights : Trust Str
both_rights = record { peers = (ann, record { perms = all_perms; label = none }) ∷ [] }

abbrev takes_push : TrustAction
takes_push = remove ann (access_push ∷ [])

taken : perform flat.from_str both_rights takes_push ≡ some (one_right, may ann only_pull)
unfolding perform drop_perms lookup insert drop_all
taken = refl

perms-perform_example :
    perms one_right ann ≡ granted flat.from_str takes_push (perms both_rights) ann
perms-perform_example =
    perms-perform flat.from_str both_rights one_right takes_push (may ann only_pull) taken ann

perform-Says_example : Says both_rights one_right (may ann only_pull)
perform-Says_example =
    perform-Says flat.from_str both_rights one_right takes_push (may ann only_pull) taken

abbrev file : Bytes
file = 49 ∷ 48 ∷ 65 ∷ []

saved : save flat one_right ≡ ok file
unfolding save rows_of put as_bytes encode_char all is_scalar
saved = refl

load-save_example :
    (t' : Trust Str) × (load flat (ok file) ≡ ok t')
    × ((id : Str) → lookup id t'.peers ≡ lookup id one_right.peers)
load-save_example = load-save flat flat-IsFaithful one_right file saved

abbrev before : Bytes
before = 49 ∷ 49 ∷ 65 ∷ []

was_loaded : load flat (ok before) ≡ ok both_rights
unfolding load load_rows insert from_utf8
was_loaded = refl

was_performed : perform_action flat (ok before) takes_push ≡ ok (some file, may ann only_pull)
unfolding perform_action
was_performed =
    ap (λ (q : Result IoError (Trust Str)). q >>= λ (t : Trust Str). acted flat takes_push t)
      was_loaded
    ∙ ap (λ (o : Option (Trust Str × Report Str)). ok_or o other_error >>= finished flat takes_push)
        taken
    ∙ ap (λ (b : Result IoError Bytes). written b (may ann only_pull)) saved

authorize-perform_action_example :
    Decides flat flat-IsFaithful
      (authorize flat (file_after (ok before) (some file)) ann)
      (granted flat.from_str takes_push (perms both_rights) ann)
authorize-perform_action_example =
    authorize-perform_action flat flat-IsFaithful (ok before) takes_push both_rights (some file)
      (may ann only_pull) ann was_loaded was_performed
