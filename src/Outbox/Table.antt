-- ===== src/Outbox/Table.antt =====
-- The table `outbox` and its statements, from internal/sqlcgen/query.sql.go and models.go.
pub mod Pick
pub mod Rows
use tf_man.Prelude.{
  ℕ, String, Bool, true, false, not, ◌&&◌, ◌≡◌, List, [], ◌∷◌, ◌++◌, map, ◌==◌, leb, any, take,
  if◌then◌else◌,
}

pub record Row (P : Type 0) : Type 0 where
  pub id : ℕ
  pub event_type : String
  pub payload : P
  pub published : Bool
  pub created_at : ℕ

module _ {P : Type 0} where
  unfoldable pub has_id : ℕ → List (Row P) → Bool
  has_id id rows = any (λ r. r.id == id) rows

  -- `INSERT … ON CONFLICT (id) DO NOTHING`; `published` and `created_at` have their defaults.
  unfoldable pub insert_outbox_event : ℕ → ℕ → String → P → List (Row P) → List (Row P)
  unfolding has_id
  insert_outbox_event now id event_type payload rows =
      if has_id id rows
      then rows
      else rows
        ++ record {
          id = id;
          event_type = event_type;
          payload = payload;
          published = false;
          created_at = now;
        }
          ∷ []

  -- `WHERE published = false … FOR UPDATE SKIP LOCKED`: rows that another transaction holds are
  -- passed over.
  unfoldable pub free_rows : (ℕ → Bool) → List (Row P) → List (Row P)
  free_rows is_locked [] = []
  free_rows is_locked (r ∷ rows) =
      let rest = free_rows is_locked rows in
      if not r.published && not (is_locked r.id) then r ∷ rest else rest

  unfoldable pub insert_by_created : Row P → List (Row P) → List (Row P)
  insert_by_created r [] = r ∷ []
  insert_by_created r (s ∷ rows) =
      if leb r.created_at s.created_at then r ∷ s ∷ rows else s ∷ insert_by_created r rows

  -- `ORDER BY created_at`
  unfoldable pub order_by_created : List (Row P) → List (Row P)
  unfolding insert_by_created
  order_by_created [] = []
  order_by_created (r ∷ rows) = insert_by_created r (order_by_created rows)

  unfoldable pub list_unpublished_outbox_events : (ℕ → Bool) → ℕ → List (Row P) → List (Row P)
  unfolding free_rows order_by_created
  list_unpublished_outbox_events is_locked limit rows =
      take limit (order_by_created (free_rows is_locked rows))

  pub mark_row : ℕ → Row P → Row P
  mark_row id r = if r.id == id then record r { published = true } else r

  -- `UPDATE outbox SET published = true WHERE id = $1`
  unfoldable pub mark_outbox_event_published : ℕ → List (Row P) → List (Row P)
  unfolding mark_row
  mark_outbox_event_published id [] = []
  mark_outbox_event_published id (r ∷ rows) = mark_row id r ∷ mark_outbox_event_published id rows
