-- ===== src/Engine/Storage.antt =====
-- internal/eventstore/sqlite.go: what Append does to the stream of an aggregate in the table of events.
use Prim.Native.Nat.{max}
use mathlib.Core.List.{append-nil, append_assoc}
use rick_driven_development.Prelude.{
  ℕ, ◌+◌, ◌≤◌, ◌≡◌, ◌≢◌, refl, ap, sym, subst, ◌∙◌, String, Bool, true, false, not, ◌&&◌, List, [],
  ◌∷◌, ◌++◌, arith, ◌==◌, eqb, eq_iff, contains, length, if◌then◌else◌, Bool-cases, inl, inr,
}
use rick_driven_development.Event.Envelope.{Envelope}
use rick_driven_development.Engine.{
  current_version, rows_of, rows_in, violates_unique, committed, conflict, already_exists,
  insert_rows, append,
}
use rick_driven_development.Engine.Numbering.{
  IsContiguous, append-IsContiguous, current_version_contiguous,
}

rows_of-IsContiguous :
    (id : String) (base : ℕ) (es : List Envelope) → IsContiguous id base (rows_of id base es)
unfolding rows_of
rows_of-IsContiguous id base [] = tt
rows_of-IsContiguous id base (e ∷ es) = (refl, refl, rows_of-IsContiguous id (base + 1) es)

abbrev pub event_ids : List Envelope → List String
event_ids [] = []
event_ids (e ∷ es) = e.id ∷ event_ids es

-- None of the events has an id that is known or that one before it has.
abbrev pub all_new : List String → List Envelope → Bool
all_new known [] = true
all_new known (e ∷ es) = not (contains known e.id) && all_new (known ++ e.id ∷ []) es

event_ids-append :
    (xs : List Envelope) (y : Envelope) → event_ids (xs ++ y ∷ []) ≡ event_ids xs ++ y.id ∷ []
event_ids-append [] y = refl
event_ids-append (x ∷ xs) y = ap (λ l. x.id ∷ l) (event_ids-append xs y)

rows_in-append :
    (id : String) (xs : List Envelope) (y : Envelope)
    → rows_in id (xs ++ y ∷ [])
      ≡ (if y.aggregate_id == id then rows_in id xs ++ y ∷ [] else rows_in id xs)
unfolding rows_in
rows_in-append id [] y = refl
rows_in-append id (x ∷ xs) y = ground (arith, rows_in-append id xs y)

current_version-append :
    (xs : List Envelope) (y : Envelope)
    → current_version (xs ++ y ∷ []) ≡ max (current_version xs) y.version
unfolding current_version
current_version-append [] y = omega arith
current_version-append (x ∷ xs) y = omega (arith, current_version-append xs y)

-- A row of a later version than the aggregate's violates a constraint just when its id is taken.
violates_unique_later :
    (row : Envelope) (n : ℕ) (table : List Envelope)
    → current_version (rows_in row.aggregate_id table) ≤ n
    → row.version ≡ n + 1
    → violates_unique row table ≡ contains (event_ids table) row.id
unfolding violates_unique contains rows_in current_version
violates_unique_later row n [] h v = refl
violates_unique_later row n (e ∷ es) h v = elim (Bool-cases (e.aggregate_id == row.aggregate_id)) [
  | inl own ↦ ground (arith, own, v, violates_unique_later row n es (ground (arith, own)) v)
  | inr other ↦ ground (arith, other, violates_unique_later row n es (ground (arith, other)) v)
]

inserted_version :
    (row : Envelope) (n : ℕ) (table : List Envelope)
    → current_version (rows_in row.aggregate_id table) ≤ n
    → row.version ≡ n + 1
    → current_version (rows_in row.aggregate_id (table ++ row ∷ [])) ≤ n + 1
inserted_version row n table h v = rw (rows_in-append row.aggregate_id table row) (
    ground (
      arith,
      h,
      v,
      eq_iff row.aggregate_id row.aggregate_id,
      current_version-append (rows_in row.aggregate_id table) row,
    ))

-- The row that the loop inserts for an event.
abbrev pub row_of : String → ℕ → Envelope → Envelope
row_of id n e = record e { aggregate_id = id; version = n + 1 }

insert_rows-new :
    (id : String) (n : ℕ) (es table : List Envelope)
    → current_version (rows_in id table) ≤ n
    → all_new (event_ids table) es ≡ true
    → insert_rows (rows_of id n es) table ≡ committed (table ++ rows_of id n es)
unfolding insert_rows rows_of
insert_rows-new id n [] table h new = ap committed (sym (append-nil table))
insert_rows-new id n (e ∷ es) table h new =
    let row = row_of id n e in
    let later =
      insert_rows-new id (n + 1) es (table ++ row ∷ []) (inserted_version row n table h refl)
        (rw (event_ids-append table row) (ground (arith, new))) in
    let clear : violates_unique row table ≡ false =
      violates_unique_later row n table h refl ∙ ground (arith, new) in
    rw clear (later ∙ ap committed (append_assoc table (row ∷ []) (rows_of id (n + 1) es)))

insert_rows-old :
    (id : String) (n : ℕ) (es table : List Envelope)
    → current_version (rows_in id table) ≤ n
    → all_new (event_ids table) es ≡ false
    → (v : ℕ) × (n + 1 ≤ v)
      × (v ≤ n + length es)
      × (insert_rows (rows_of id n es) table ≡ already_exists v)
unfolding insert_rows rows_of
insert_rows-old id n [] table h old = cc
insert_rows-old id n (e ∷ es) table h old =
    let row = row_of id n e in
    let meets = violates_unique_later row n table h refl in
    elim (Bool-cases (contains (event_ids table) e.id)) [
      | inl taken ↦ (n + 1, omega arith, omega arith, rw (meets ∙ taken) refl)
      | inr free ↦
          let (v, above, below, fails) =
            insert_rows-old id (n + 1) es (table ++ row ∷ []) (inserted_version row n table h refl)
              (rw (event_ids-append table row) (ground (arith, old, free))) in
          (v, omega arith, omega arith, rw (meets ∙ free) fails)
    ]

rows_in-rows_of :
    (x id : String) (n : ℕ) (es : List Envelope)
    → rows_in x (rows_of id n es) ≡ (if id == x then rows_of id n es else [])
unfolding rows_in rows_of
rows_in-rows_of x id n [] = ground arith
rows_in-rows_of x id n (e ∷ es) = ground (arith, rows_in-rows_of x id (n + 1) es)

rows_in-split :
    (x : String) (xs ys : List Envelope) → rows_in x (xs ++ ys) ≡ rows_in x xs ++ rows_in x ys
unfolding rows_in
rows_in-split x [] ys = refl
rows_in-split x (e ∷ xs) ys = ground (arith, rows_in-split x xs ys)

current_version_gapless :
    (id : String) (rows : List Envelope)
    → IsContiguous id 0 rows
    → current_version rows ≡ length rows
current_version_gapless id rows h = omega (arith, current_version_contiguous id 0 rows h)

-- What Append makes of the table where it commits.
pub record Extends (id : String) (new : List Envelope) (table table' : List Envelope) : Type 0 where
  pub gapless : IsContiguous id 0 (rows_in id table')
  pub own : rows_in id table' ≡ rows_in id table ++ rows_of id (length (rows_in id table)) new
  pub others : (x : String) → x ≢ id → rows_in x table' ≡ rows_in x table

module _ (id : String) (e : Envelope) (es table : List Envelope)
    (h : IsContiguous id 0 (rows_in id table)) where
  abbrev stream : List Envelope
  stream = rows_in id table

  abbrev appended : List Envelope
  appended = rows_of id (length stream) (e ∷ es)

  extends : Extends id (e ∷ es) table (table ++ appended)
  extends = record {
    gapless = subst (IsContiguous id 0) (sym grown) (
        append-IsContiguous id 0 stream appended h (
          subst (λ n. IsContiguous id n appended) (omega arith)
            (rows_of-IsContiguous id (length stream) (e ∷ es))));
    own = grown;
    others = λ x other.
        let miss : id == x ≡ false = ground (arith, other, eq_iff id x) in
        rows_in-split x table appended
        ∙ rw (rows_in-rows_of x id (length stream) (e ∷ es), miss) (append-nil (rows_in x table));
  }
    where
      grown : rows_in id (table ++ appended) ≡ stream ++ appended
      grown =
          rows_in-split id table appended
          ∙ ap (λ l. stream ++ l)
              (rows_in-rows_of id id (length stream) (e ∷ es) ∙ ground (arith, eq_iff id id))

  latest : current_version stream ≡ length stream
  latest = current_version_gapless id stream h

  append-expected :
      append id (length stream) (e ∷ es) table
      ≡ insert_rows (rows_of id (length stream) (e ∷ es)) table
  unfolding append
  append-expected =
      let meets : eqb (current_version stream) (length stream) ≡ true = ground (arith, latest) in
      rw meets refl

  -- Append of one event or more to an aggregate whose stream in the table is gapless. With another
  -- expected version than the number of the stream's events it is a conflict. With that number it commits
  -- if no event's id is in the table or repeated among the events, extends the stream by exactly the
  -- events, without a gap, and leaves the streams of all other aggregates; and if an id is taken or
  -- repeated it fails at one of the new versions.
  pub append_gapless :
      (expected : ℕ)
      → (expected ≢ length (rows_in id table)
          → append id expected (e ∷ es) table ≡ conflict expected (length (rows_in id table)))
        × (expected ≡ length (rows_in id table)
            → all_new (event_ids table) (e ∷ es) ≡ true
            → (table' : List Envelope) × (append id expected (e ∷ es) table ≡ committed table')
              × Extends id (e ∷ es) table table')
        × (expected ≡ length (rows_in id table)
            → all_new (event_ids table) (e ∷ es) ≡ false
            → (v : ℕ) × (expected + 1 ≤ v)
              × (v ≤ expected + length (e ∷ es))
              × (append id expected (e ∷ es) table ≡ already_exists v))
  unfolding append
  append_gapless expected = (
    λ n. ground (arith, latest, n),
    λ q new. (
      table ++ appended,
      ap (λ n. append id n (e ∷ es) table) q
          ∙ append-expected
          ∙ insert_rows-new id (length stream) (e ∷ es) table (omega (arith, latest)) new,
      extends,
    ),
    λ q old.
        let (v, above, below, fails) =
          insert_rows-old id (length stream) (e ∷ es) table (omega (arith, latest)) old in
        (
          v,
          omega (arith, q),
          omega (arith, q),
          ap (λ n. append id n (e ∷ es) table) q ∙ append-expected ∙ fails,
        ),
  )
