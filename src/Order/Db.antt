-- ===== src/Order/Db.antt =====
-- stampede/apps/order-service/internal/sqlcgen: the table `orders` and its statements. The table
-- `outbox` is that of Outbox.Table.
use tf_man.Prelude.{ℕ, String, Option, none, some, List, [], ◌∷◌, ◌++◌, ℤ, ◌==◌, if◌then◌else◌}
use tf_man.Outbox.Table.{Row}

pub record Order : Type 0 where
  pub id : ℕ
  pub user_id : String
  pub item_id : String
  pub quantity : ℤ
  pub status : String
  pub created_at : ℕ

pub record CreateOrderParams : Type 0 where
  pub id : ℕ
  pub user_id : String
  pub item_id : String
  pub quantity : ℤ
  pub status : String

pub record Db (P : Type 0) : Type 0 where
  pub orders : List Order
  pub outbox : List (Row P)

-- `SELECT … WHERE id = $1`
unfoldable pub get_order : ℕ → List Order → Option Order
get_order id [] = none
get_order id (o ∷ orders) = if o.id == id then some o else get_order id orders

-- `INSERT … ON CONFLICT (id) DO UPDATE SET id = EXCLUDED.id RETURNING …`: where the id is taken, the
-- row stays as it is and is returned.
insert_order : ℕ → CreateOrderParams → Option Order → List Order → Order × List Order
insert_order now arg (some o) orders = (o, orders)
insert_order now arg none orders =
    let o : Order = record {
      id = arg.id;
      user_id = arg.user_id;
      item_id = arg.item_id;
      quantity = arg.quantity;
      status = arg.status;
      created_at = now;
    } in
    (o, orders ++ o ∷ [])

unfoldable pub create_order : ℕ → CreateOrderParams → List Order → Order × List Order
unfolding insert_order
create_order now arg orders = insert_order now arg (get_order arg.id orders) orders

-- `UPDATE orders SET status = $2 WHERE id = $1`
unfoldable pub update_order_status : ℕ → String → List Order → List Order
update_order_status id status [] = []
update_order_status id status (o ∷ orders) =
    (if o.id == id then record o { status = status } else o) ∷ update_order_status id status orders
