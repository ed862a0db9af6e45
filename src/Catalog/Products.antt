-- ===== src/Catalog/Products.antt =====
-- stampede/apps/catalog-service/internal/sqlcgen: the table `products` and its statements. The table
-- `outbox` is that of Outbox.Table.
use tf_man.Prelude.{ℕ, String, Option, none, some, List, [], ◌∷◌, ◌++◌, ℤ, ◌==◌, if◌then◌else◌}
use tf_man.Outbox.Table.{Row}

pub record Product : Type 0 where
  pub id : ℕ
  pub name : String
  pub description : String
  pub price_cents : ℤ
  pub created_at : ℕ

pub record CreateProductParams : Type 0 where
  pub id : ℕ
  pub name : String
  pub description : String
  pub price_cents : ℤ

pub record Db (P : Type 0) : Type 0 where
  pub products : List Product
  pub outbox : List (Row P)

-- `SELECT … WHERE id = $1`
unfoldable pub get_product : ℕ → List Product → Option Product
get_product id [] = none
get_product id (p ∷ products) = if p.id == id then some p else get_product id products

-- `INSERT … ON CONFLICT (id) DO UPDATE SET id = EXCLUDED.id RETURNING …`: where the id is taken, the
-- row stays as it is and is returned.
unfoldable pub insert_product :
    ℕ → CreateProductParams → Option Product → List Product → Product × List Product
insert_product now arg (some p) products = (p, products)
insert_product now arg none products =
    let p : Product = record {
      id = arg.id;
      name = arg.name;
      description = arg.description;
      price_cents = arg.price_cents;
      created_at = now;
    } in
    (p, products ++ p ∷ [])

unfoldable pub create_product : ℕ → CreateProductParams → List Product → Product × List Product
unfolding insert_product
create_product now arg products = insert_product now arg (get_product arg.id products) products
