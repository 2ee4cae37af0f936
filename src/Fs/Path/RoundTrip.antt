-- ===== src/Fs/Path/RoundTrip.antt =====
-- crates/okayeg/src/fs.rs: which lists of names a path stands for.
use okayeg.Prelude.{
  ◌≡◌, refl, ◌∙◌, ap, true, false, not, List, [], ◌∷◌, ◌++◌, Str, ℕ_eq, Str_eq, contains, keep, all,
  is_empty, ok, arith, All,
}
use okayeg.Fs.Path.{valid_name, split, join, components}

abbrev pub AllValid : List Str → Type 0
AllValid = All (λ c. valid_name c ≡ true)

AllValid-of_all : (cs : List Str) → all valid_name cs ≡ true → AllValid cs
unfolding all
AllValid-of_all [] h = tt
AllValid-of_all (c ∷ cs) h = (ground arith, AllValid-of_all cs (ground arith))

all_of_AllValid : (cs : List Str) → AllValid cs → all valid_name cs ≡ true
unfolding all
all_of_AllValid [] h = refl
all_of_AllValid (c ∷ cs) (v, vs) = rw (v, all_of_AllValid cs vs)

-- Components that are accepted are valid names.
pub components-valid : (path : Str) (cs : List Str) → components path ≡ ok cs → AllValid cs
unfolding components
components-valid path cs h = AllValid-of_all cs (ground arith)

split-free : (s : Str) → contains s b'/' ≡ false → split b'/' s ≡ s ∷ []
unfolding split contains
split-free [] h = refl
split-free (c ∷ s) h = ground (arith, split-free s)

split-append :
    (s t : Str) → contains s b'/' ≡ false → split b'/' (s ++ (b'/' ∷ t)) ≡ s ∷ split b'/' t
unfolding split contains
split-append [] t h = refl
split-append (c ∷ s) t h = ground (arith, split-append s t)

valid_name-free : (c : Str) → valid_name c ≡ true → contains c b'/' ≡ false
unfolding valid_name
valid_name-free c h = ground arith

valid_name-ne : (c : Str) → valid_name c ≡ true → not (is_empty c) ≡ true
unfolding valid_name
valid_name-ne c h = ground arith

split-join : (c : Str) (cs : List Str) → AllValid (c ∷ cs) → split b'/' (join (c ∷ cs)) ≡ c ∷ cs
unfolding join
split-join c [] (v, _) = split-free c (valid_name-free c v)
split-join c (d ∷ ds) (v, vs) =
    split-append c (join (d ∷ ds)) (valid_name-free c v) ∙ ap (λ l. c ∷ l) (split-join d ds vs)

keep-AllValid : (cs : List Str) → AllValid cs → keep (λ c. not (is_empty c)) cs ≡ cs
unfolding keep
keep-AllValid [] h = refl
keep-AllValid (c ∷ cs) (v, vs) = rw (valid_name-ne c v, keep-AllValid cs vs)

-- Valid names joined by `/` split into the same names.
pub components-join : (cs : List Str) → AllValid cs → components (join cs) ≡ ok cs
unfolding components
components-join [] h = unfold join in refl
components-join (c ∷ cs) h =
    rw (split-join c cs h, keep-AllValid (c ∷ cs) h, all_of_AllValid (c ∷ cs) h)
