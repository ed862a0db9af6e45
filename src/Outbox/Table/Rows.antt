-- ===== src/Outbox/Table/Rows.antt =====
-- Tables with distinct ids, and the number of rows that wait.
use mathlib.Core.List.{Memᴰ}
use tf_man.Prelude.{
  ℕ, suc, Bool, true, false, ◌||◌, ◌≡◌, inl, inr, refl, sym, ap, subst, ◌∙◌, List, [], ◌∷◌, ◌++◌,
  ◌==◌, ==_iff, ==_self, if◌then◌else◌, Bool-cases, arith, any-append_last, String, All, All-append,
}
use tf_man.Outbox.Table.{Row, has_id, mark_row, mark_outbox_event_published, insert_outbox_event}

module _ {P : Type 0} where
  -- The primary key.
  abbrev pub HasDistinctIds : List (Row P) → Type 0
  HasDistinctIds [] = Unit
  HasDistinctIds (r ∷ rows) = (has_id r.id rows ≡ false) × HasDistinctIds rows

  id-mark_row : (id : ℕ) (r : Row P) → (mark_row id r).id ≡ r.id
  unfolding mark_row
  id-mark_row id r = ground arith

  pub has_id-mark :
      (i id : ℕ) (rows : List (Row P))
      → has_id i (mark_outbox_event_published id rows) ≡ has_id i rows
  unfolding has_id mark_outbox_event_published
  has_id-mark i id [] = refl
  has_id-mark i id (r ∷ rows) = rw (id-mark_row id r, has_id-mark i id rows)

  pub mark-HasDistinctIds :
      (id : ℕ) (rows : List (Row P))
      → HasDistinctIds rows
      → HasDistinctIds (mark_outbox_event_published id rows)
  unfolding mark_outbox_event_published
  mark-HasDistinctIds id [] h = tt
  mark-HasDistinctIds id (r ∷ rows) (fresh, h) =
      (rw (id-mark_row id r) (has_id-mark r.id id rows ∙ fresh), mark-HasDistinctIds id rows h)

  -- A table in which no row has the id.
  pub mark_absent :
      (id : ℕ) (rows : List (Row P))
      → has_id id rows ≡ false
      → mark_outbox_event_published id rows ≡ rows
  unfolding has_id mark_outbox_event_published
  mark_absent id [] h = refl
  mark_absent id (r ∷ rows) h = ground (arith, mark_absent id rows)

  pub mem-has_id : {r : Row P} (rows : List (Row P)) → Memᴰ r rows → has_id r.id rows ≡ true
  unfolding has_id
  mem-has_id [] m = elim m [ ]
  mem-has_id (x ∷ rows) (Memᴰ.head e) = rw e (ground arith)
  mem-has_id (x ∷ rows) (Memᴰ.tail m) = ground (arith, mem-has_id rows m)

  -- The number of rows that are not yet published.
  unfoldable pub pending : List (Row P) → ℕ
  pending [] = 0
  pending (r ∷ rows) = if r.published then pending rows else suc (pending rows)

  published-mark_row :
      (id : ℕ) (r : Row P) → (mark_row id r).published ≡ (r.id == id || r.published)
  unfolding mark_row
  published-mark_row id r = ground arith

  pub absent_ne :
      {r : Row P} (x : Row P) (rows : List (Row P))
      → has_id x.id rows ≡ false
      → Memᴰ r rows
      → (x.id == r.id) ≡ false
  absent_ne {r} x rows fresh m = elim (Bool-cases (x.id == r.id)) [
    | inl e ↦ absurd (different (rw ((==_iff x.id r.id).0 e) at fresh) (mem-has_id rows m))
    | inr e ↦ e
  ]
    where
      different : {b : Bool} → b ≡ false → b ≡ true → ⊥
      different p q = cc

  pending-mark_head :
      (x : Row P) (rows : List (Row P))
      → has_id x.id rows ≡ false
      → x.published ≡ false
      → suc (pending (mark_outbox_event_published x.id (x ∷ rows))) ≡ pending (x ∷ rows)
  unfolding pending mark_outbox_event_published
  pending-mark_head x rows fresh e =
      rw (mark_absent x.id rows fresh, published-mark_row x.id x, ==_self x.id) (rw e refl)

  pub pending-mark :
      {r : Row P} (rows : List (Row P))
      → HasDistinctIds rows
      → Memᴰ r rows
      → r.published ≡ false
      → suc (pending (mark_outbox_event_published r.id rows)) ≡ pending rows
  unfolding pending mark_outbox_event_published
  pending-mark [] h m e = elim m [ ]
  pending-mark {r} (x ∷ rows) (fresh, h) (Memᴰ.head same) e =
      subst
        (λ (y : Row P).
          suc (pending (mark_outbox_event_published y.id (x ∷ rows))) ≡ pending (x ∷ rows))
        (sym same) (pending-mark_head x rows fresh (ap (λ (y : Row P). y.published) (sym same) ∙ e))
  pending-mark {r} (x ∷ rows) (fresh, h) (Memᴰ.tail m) e =
      rw (published-mark_row r.id x, absent_ne x rows fresh m)
        (ground (arith, pending-mark rows h m e))

  -- An insertion keeps the ids distinct, and does nothing where the id is taken.
  has_id_taken :
      (i id : ℕ) (rows : List (Row P))
      → has_id id rows ≡ true
      → has_id i rows ≡ (has_id i rows || id == i)
  has_id_taken i id rows e = elim (Bool-cases (id == i)) [
    | inl same ↦ rw (← (==_iff id i).0 same, e) refl
    | inr other ↦ rw other (ground arith)
  ]

  pub has_id-insert :
      (i now id : ℕ) (ty : String) (p : P) (rows : List (Row P))
      → has_id i (insert_outbox_event now id ty p rows) ≡ (has_id i rows || id == i)
  unfolding insert_outbox_event
  has_id-insert i now id ty p rows = elim (Bool-cases (has_id id rows)) [
    | inl e ↦ rw e (has_id_taken i id rows e)
    | inr e ↦ rw e (any-append_last (λ (r : Row P). r.id == i) rows _)
  ]

  append-HasDistinctIds :
      (r : Row P) (rows : List (Row P))
      → has_id r.id rows ≡ false
      → HasDistinctIds rows
      → HasDistinctIds (rows ++ r ∷ [])
  unfolding has_id
  append-HasDistinctIds r [] fresh h = (refl, tt)
  append-HasDistinctIds r (x ∷ rows) fresh (f, h) = (
    rw (any-append_last (λ (y : Row P). y.id == x.id) rows r, f) (ground arith),
    append-HasDistinctIds r rows (ground arith) h,
  )

  pub insert-HasDistinctIds :
      (now id : ℕ) (ty : String) (p : P) (rows : List (Row P))
      → HasDistinctIds rows
      → HasDistinctIds (insert_outbox_event now id ty p rows)
  unfolding insert_outbox_event
  insert-HasDistinctIds now id ty p rows h = elim (Bool-cases (has_id id rows)) [
    | inl e ↦ rw e h
    | inr e ↦ rw e (append-HasDistinctIds _ rows e h)
  ]

  -- What holds of the id and the payload of every row still holds when one is marked, and when one is
  -- inserted for which it holds.
  module _ (R : ℕ → P → Type 0) where
    pub mark-All :
        (id : ℕ) (rows : List (Row P))
        → All (λ r. R r.id r.payload) rows
        → All (λ r. R r.id r.payload) (mark_outbox_event_published id rows)
    unfolding mark_outbox_event_published
    mark-All id [] h = tt
    mark-All id (r ∷ rows) (p, h) = elim (Bool-cases (r.id == id)) [
      | inl e ↦ rw e (p, mark-All id rows h)
      | inr e ↦ rw e (p, mark-All id rows h)
    ]

    pub insert-All :
        (now id : ℕ) (ty : String) (p : P) (rows : List (Row P))
        → (has_id id rows ≡ false → R id p)
        → All (λ r. R r.id r.payload) rows
        → All (λ r. R r.id r.payload) (insert_outbox_event now id ty p rows)
    unfolding insert_outbox_event
    insert-All now id ty p rows new h = elim (Bool-cases (has_id id rows)) [
      | inl e ↦ rw e h
      | inr e ↦ rw e (All-append _ rows _ h (new e, tt))
    ]
