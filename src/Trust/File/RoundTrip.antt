-- ===== src/Trust/File/RoundTrip.antt =====
-- crates/eg/src/trust.rs: a trust set that was saved loads as the same set.
use okayeg.Prelude.{
  ◌≡◌, refl, sym, ap, subst, ◌∙◌, Bool, true, Option, none, some, some_injective, ok_injective, [],
  ◌∷◌, Str, Bytes, Str_eq, str_beq, str_beq_iff, Result, ok, ok_or, Eq, ◌>>=◌, arith, if◌then◌else◌,
}
use okayeg.Prelude.Assoc.{Assoc, lookup, insert, lookup-insert}
use okayeg.Prelude.Ordered.{
  by_test, str_lt, put, Ordered, Above, lookup-put, lookup-Above, put-Ordered,
}
use okayeg.Utf8.{as_bytes}
use okayeg.Utf8.RoundTrip.{from_utf8-as_bytes}
use okayeg.Trust.{GrantData, Trust}
use okayeg.Trust.File.{
  Row, Formats, IsFaithful, IoError, invalid_data, other_error, row_of, grant_of, load_rows, loaded,
  load, rows_of, save,
}

abbrev option_map {ℓ κ} : {A : Type ℓ} {B : Type κ} → (A → B) → Option A → Option B
option_map f none = none
option_map f (some a) = some (f a)

abbrev or_else {ℓ} : {A : Type ℓ} → Option A → Option A → Option A
or_else none b = b
or_else (some a) b = some a

module _ {EndpointId : Type 0} ⦃e : Eq EndpointId⦄ (F : Formats EndpointId)
    (faithful : IsFaithful F) where
  -- Every key is an id as it is printed.
  unfoldable Printed : Assoc Str Row → Type 0
  Printed [] = Unit
  Printed ((k, row) ∷ rows) = ((id : EndpointId) × (F.to_string id ≡ k)) × Printed rows

  to_string_injective : (i j : EndpointId) → F.to_string i ≡ F.to_string j → i ≡ j
  to_string_injective i j h =
      some_injective
        (sym (faithful.from_str-to_string i) ∙ ap F.from_str h ∙ faithful.from_str-to_string j)

  same_string : (i j : EndpointId) → str_beq (F.to_string i) (F.to_string j) ≡ e.eq i j
  same_string i j = ground (
    arith,
    str_beq_iff (F.to_string i) (F.to_string j),
    e.eq_iff i j,
    to_string_injective i j,
    λ (h : i ≡ j). ap F.to_string h,
  )

  put-Printed :
      (id : EndpointId) (row : Row) (rows : Assoc Str Row)
      → Printed rows
      → Printed (put (F.to_string id) row rows)
  unfolding Printed put
  put-Printed id row [] p = ((id, refl), tt)
  put-Printed id row ((k, w) ∷ rows) p =
      by_test Printed (str_beq (F.to_string id) k) (λ _. ((id, refl), p.1))
        (λ _.
          by_test Printed (str_lt (F.to_string id) k) (λ _. ((id, refl), p))
            (λ _. (p.0, put-Printed id row rows p.1)))

  rows_of-Printed : (peers : Assoc EndpointId GrantData) → Printed (rows_of F peers)
  unfolding rows_of
  rows_of-Printed [] = unfold Printed in tt
  rows_of-Printed ((id, g) ∷ peers) =
      put-Printed id (row_of g) (rows_of F peers) (rows_of-Printed peers)

  rows_of-Ordered : (peers : Assoc EndpointId GrantData) → Ordered (rows_of F peers)
  unfolding rows_of
  rows_of-Ordered [] = unfold Ordered in tt
  rows_of-Ordered ((id, g) ∷ peers) =
      put-Ordered (F.to_string id) (row_of g) (rows_of F peers) (rows_of-Ordered peers)

  lookup-rows_of :
      (id : EndpointId) (peers : Assoc EndpointId GrantData)
      → lookup (F.to_string id) (rows_of F peers) ≡ option_map row_of (lookup id peers)
  unfolding rows_of lookup
  lookup-rows_of id [] = refl
  lookup-rows_of id ((j, g) ∷ peers) = ground (
    arith,
    lookup-put (F.to_string id) (F.to_string j) (row_of g) (rows_of F peers),
    same_string id j,
    lookup-rows_of id peers,
  )

  -- What the loop of `load` gives, where it gives anything.
  Loaded :
      Assoc EndpointId GrantData
      → Assoc Str Row
      → Result IoError (Assoc EndpointId GrantData)
      → Type 0
  Loaded peers rows r =
      (m : Assoc EndpointId GrantData) × (r ≡ ok m)
      × ((id : EndpointId)
          → lookup id m
            ≡ or_else (option_map grant_of (lookup (F.to_string id) rows)) (lookup id peers))

  absent_below :
      (i id : EndpointId) (rows : Assoc Str Row)
      → Above (F.to_string i) rows
      → e.eq id i ≡ true
      → lookup (F.to_string id) rows ≡ none
  absent_below i id rows above same =
      ap (λ (j : EndpointId). lookup (F.to_string j) rows) ((e.eq_iff id i).0 same)
      ∙ lookup-Above (F.to_string i) rows above

  lookup-step :
      (i id : EndpointId) (row : Row) (rows : Assoc Str Row) (peers m : Assoc EndpointId GrantData)
      → Above (F.to_string i) rows
      → lookup id m
        ≡ or_else
            (option_map grant_of (lookup (F.to_string id) rows))
            (lookup id (insert i (grant_of row) peers))
      → lookup id m
        ≡ or_else
            (option_map grant_of (lookup (F.to_string id) ((F.to_string i, row) ∷ rows)))
            (lookup id peers)
  lookup-step i id row rows peers m above h =
      let first : lookup (F.to_string id) ((F.to_string i, row) ∷ rows)
          ≡ (if e.eq id i then some row else lookup (F.to_string id) rows) =
        unfold lookup in
        ap (λ (b : Bool). if b then some row else lookup (F.to_string id) rows)
          (same_string id i) in
      ground
        (arith, h, first, lookup-insert id i (grant_of row) peers, absent_below i id rows above)

  first_row :
      (i : EndpointId) (row : Row) (rows : Assoc Str Row) (peers : Assoc EndpointId GrantData)
      → load_rows F peers ((F.to_string i, row) ∷ rows)
        ≡ load_rows F (insert i (grant_of row) peers) rows
  unfolding load_rows
  first_row i row rows peers =
      ap
        (λ (q : Option EndpointId). ok_or q invalid_data >>= λ (id : EndpointId).
          load_rows F (insert id (grant_of row) peers) rows)
        (faithful.from_str-to_string i)

  next_row :
      (i : EndpointId) (row : Row) (rows : Assoc Str Row) (peers : Assoc EndpointId GrantData)
      → Above (F.to_string i) rows
      → Loaded
          (insert i (grant_of row) peers)
          rows
          (load_rows F (insert i (grant_of row) peers) rows)
      → Loaded peers ((F.to_string i, row) ∷ rows) (load_rows F peers ((F.to_string i, row) ∷ rows))
  unfolding Loaded
  next_row i row rows peers above (m, r, f) =
      (m, first_row i row rows peers ∙ r, λ id. lookup-step i id row rows peers m above (f id))

  load_rows-Loaded :
      (rows : Assoc Str Row) (peers : Assoc EndpointId GrantData)
      → Printed rows
      → Ordered rows
      → Loaded peers rows (load_rows F peers rows)
  unfolding Printed Ordered
  load_rows-Loaded [] peers p o = unfold Loaded load_rows lookup in (peers, refl, λ id. refl)
  load_rows-Loaded ((k, row) ∷ rows) peers ((i, printed), p) (above, o) =
      subst
        (λ (j : Str).
          Above j rows → Loaded peers ((j, row) ∷ rows) (load_rows F peers ((j, row) ∷ rows)))
        printed
        (λ a.
          next_row i row rows peers a (load_rows-Loaded rows (insert i (grant_of row) peers) p o))
        above

  restored : (o : Option GrantData) → or_else (option_map grant_of (option_map row_of o)) none ≡ o
  restored none = refl
  restored (some g) = refl

  read_back :
      (id : EndpointId) (peers : Assoc EndpointId GrantData)
      → or_else (option_map grant_of (lookup (F.to_string id) (rows_of F peers))) (lookup id [])
        ≡ lookup id peers
  unfolding lookup
  read_back id peers =
      ap (λ (q : Option Row). or_else (option_map grant_of q) none) (lookup-rows_of id peers)
      ∙ restored (lookup id peers)

  parsed :
      (t : Trust EndpointId) (text : Str)
      → F.print (rows_of F t.peers) ≡ some text
      → load F (ok (as_bytes text)) ≡ loaded F (rows_of F t.peers)
  unfolding load
  parsed t text h =
      ap
        (λ (q : Option Str).
          ok_or q invalid_data >>= λ (s : Str). ok_or (F.parse s) invalid_data >>= loaded F)
        (from_utf8-as_bytes text (faithful.print-AllScalar (rows_of F t.peers) text h))
      ∙ ap (λ (q : Option (Assoc Str Row)). ok_or q invalid_data >>= loaded F)
          (faithful.parse-print (rows_of F t.peers) text (rows_of-Ordered t.peers) h)

  saved_text :
      (o : Option Str) (bytes : Bytes)
      → (ok_or o other_error >>= λ text. ok (as_bytes text)) ≡ ok bytes
      → (text : Str) × (o ≡ some text) × (as_bytes text ≡ bytes)
  saved_text none bytes h = cc
  saved_text (some text) bytes h = (text, refl, ok_injective h)

  loaded-rows_of :
      (t : Trust EndpointId)
      → (t' : Trust EndpointId) × (loaded F (rows_of F t.peers) ≡ ok t')
        × ((id : EndpointId) → lookup id t'.peers ≡ lookup id t.peers)
  unfolding Loaded
  loaded-rows_of t =
      let (m, r, f) =
        load_rows-Loaded (rows_of F t.peers) [] (rows_of-Printed t.peers)
          (rows_of-Ordered t.peers) in
      (
        record { peers = m },
        ap
            (λ (q : Result IoError (Assoc EndpointId GrantData)).
              q >>= λ (peers : Assoc EndpointId GrantData). ok (record { peers = peers }))
            r,
        λ id. f id ∙ read_back id t.peers,
      )

  -- Where ids and trust files read back as they are printed, what was saved loads, and gives every
  -- peer the same permissions and label as before.
  pub load-save :
      (t : Trust EndpointId) (bytes : Bytes)
      → save F t ≡ ok bytes
      → (t' : Trust EndpointId) × (load F (ok bytes) ≡ ok t')
        × ((id : EndpointId) → lookup id t'.peers ≡ lookup id t.peers)
  unfolding save
  load-save t bytes h =
      let (text, printed, e) = saved_text (F.print (rows_of F t.peers)) bytes h in
      let (t', l, f) = loaded-rows_of t in
      (t', ap (λ (b : Bytes). load F (ok b)) (sym e) ∙ parsed t text printed ∙ l, f)
