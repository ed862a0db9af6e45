-- ===== src/Outbox/Table/Pick.antt =====
-- The row that a relay takes: the oldest of those that are neither published nor locked.
use mathlib.Core.List.{Memᴰ}
use tf_man.Prelude.{
  ℕ, ◌≤◌, Bool, true, false, not, ◌&&◌, ◌≡◌, ◌⊎◌, inl, inr, refl, List, [], ◌∷◌, leb, take, All,
  if◌then◌else◌, Bool-cases, arith,
}
use tf_man.Outbox.Table.{
  Row, free_rows, insert_by_created, order_by_created, list_unpublished_outbox_events,
}

not_free : (p l : Bool) → not p && not l ≡ false → (p ≡ false) × (l ≡ false) → ⊥
not_free p l e free = ground arith

module _ {P : Type 0} where
  All-le :
      {a b : ℕ} (rows : List (Row P))
      → a ≤ b
      → All (λ x. b ≤ x.created_at) rows
      → All (λ x. a ≤ x.created_at) rows
  All-le [] h all = tt
  All-le (x ∷ rows) h (k, all) = (omega arith, All-le rows h all)

  -- The head of a sorted list.
  data First (rows : List (Row P)) : List (Row P) → Type 0 where
    no_row : rows ≡ [] → First rows []
    first :
        (r : Row P) (rest : List (Row P))
        → Memᴰ r rows
        → All (λ x. r.created_at ≤ x.created_at) rows
        → First rows (r ∷ rest)

  insert-First :
      (r : Row P) (rows : List (Row P)) {sorted : List (Row P)}
      → First rows sorted
      → First (r ∷ rows) (insert_by_created r sorted)
  unfolding insert_by_created
  insert-First r rows (no_row e) = first r [] (Memᴰ.head refl) (rw e (omega arith, tt))
  insert-First r rows (first s rest m all) = elim (Bool-cases (leb r.created_at s.created_at)) [
    | inl h ↦
        rw h (first r (s ∷ rest) (Memᴰ.head refl) (omega arith, All-le rows (ground arith) all))
    | inr h ↦ rw h (first s (insert_by_created r rest) (Memᴰ.tail m) (ground arith, all))
  ]

  order-First : (rows : List (Row P)) → First rows (order_by_created rows)
  unfolding order_by_created
  order-First [] = no_row refl
  order-First (r ∷ rows) = insert-First r rows (order-First rows)

  module _ (is_locked : ℕ → Bool) where
    abbrev pub IsFree : Row P → Type 0
    IsFree r = (r.published ≡ false) × (is_locked r.id ≡ false)

    if-mem :
        (b : Bool) {x r : Row P} {rest : List (Row P)}
        → Memᴰ r (if b then x ∷ rest else rest)
        → ((b ≡ true) × (r ≡ x)) ⊎ Memᴰ r rest
    if-mem true (Memᴰ.head e) = inl (refl, e)
    if-mem true (Memᴰ.tail m) = inr m
    if-mem false m = inr m

    -- Only free rows are left, and all of them.
    free_rows-mem :
        (rows : List (Row P)) {r : Row P}
        → Memᴰ r (free_rows is_locked rows)
        → Memᴰ r rows × IsFree r
    unfolding free_rows
    free_rows-mem [] m = elim m [ ]
    free_rows-mem (x ∷ rows) m = elim (if-mem (not x.published && not (is_locked x.id)) m) [
      | inl (free, same) ↦ (Memᴰ.head same, rw same (ground arith))
      | inr later ↦ let (there, free) = free_rows-mem rows later in (Memᴰ.tail there, free)
    ]

    free_rows-All :
        (Q : Row P → Type 0) (rows : List (Row P))
        → All Q (free_rows is_locked rows)
        → All (λ r. IsFree r → Q r) rows
    unfolding free_rows
    free_rows-All Q [] all = tt
    free_rows-All Q (x ∷ rows) all = elim (Bool-cases (not x.published && not (is_locked x.id))) [
      | inl e ↦ let (q, later) = (rw e at all) in (λ _. q, free_rows-All Q rows later)
      | inr e ↦ (
        λ free. absurd (not_free x.published (is_locked x.id) e free),
        free_rows-All Q rows (rw e at all),
      )
    ]

    -- What the statement returns under `LIMIT 1`.
    pub data Pick (rows : List (Row P)) : List (Row P) → Type 0 where
      nothing : All (λ r. ¬ IsFree r) rows → Pick rows []
      oldest :
          (r : Row P)
          → Memᴰ r rows
          → IsFree r
          → All (λ x. IsFree x → r.created_at ≤ x.created_at) rows
          → Pick rows (r ∷ [])

    take-Pick :
        (rows sorted : List (Row P))
        → First (free_rows is_locked rows) sorted
        → Pick rows (take 1 sorted)
    take-Pick rows sorted (no_row e) = nothing (free_rows-All (λ _. ⊥) rows (rw e tt))
    take-Pick rows sorted (first r rest m all) =
        let (there, free) = free_rows-mem rows m in
        oldest r there free (free_rows-All (λ x. r.created_at ≤ x.created_at) rows all)

    -- The relay's query returns no row exactly when every row is published or locked, and else one
    -- free row that is no younger than any free row.
    pub list-Pick :
        (rows : List (Row P)) → Pick rows (list_unpublished_outbox_events is_locked 1 rows)
    unfolding list_unpublished_outbox_events
    list-Pick rows = take-Pick rows _ (order-First (free_rows is_locked rows))
