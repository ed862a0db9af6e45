-- ===== src/Setup/Tests.antt =====
-- A connection URL.
use tf_man.Prelude.{String, ◌≡◌, refl, pos, ◌+++◌, Free}
use tf_man.Setup.Dsn.{DbCredentials, decimal, dsn}
use tf_man.Setup.Dsn.Cut.{is_at, authority, authority-dsn}

abbrev stored : DbCredentials
stored = record {
  username = "shop";
  password = "a:b";
  host = "db.local";
  port = pos 5432;
  db_name = "orders";
}

decimal_5432 : decimal (pos 5432) ≡ "5432"
unfolding decimal
decimal_5432 = refl

abbrev hashed : DbCredentials
hashed = record stored { password = "a#b" }

authority-dsn_example :
    (body : String) × (dsn hashed "" ≡ "postgres://" +++ body)
    × (authority body ≡ "shop:a")
    × Free is_at (authority body)
authority-dsn_example =
    authority-dsn hashed "" "a" "b" "#" refl (refl, (refl, (refl, (refl, tt)))) (refl, tt) refl
