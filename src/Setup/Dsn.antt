-- ===== src/Setup/Dsn.antt =====
-- The connection URLs that the `main` of the order service and of the catalog service make.
pub mod Cut
pub mod Decimal
use Prim.Native.Nat.{◌/◌}
use tf_man.Prelude.{
  ℕ, zero, suc, ◌+◌, ◌*◌, ◌%◌, String, Bool, true, false, ◌||◌, Option, none, some, ℤ, pos, negsuc,
  ltb, ◌==◌, ◌+++◌, until, strip, if◌then◌else◌,
}
use mathlib.Core.Option

-- stampede/apps/internal/secrets/secrets.go
pub record DbCredentials : Type 0 where
  pub username : String
  pub password : String
  pub host : String
  pub port : ℤ
  pub db_name : String

digit : ℕ → String
digit n =
    if n == 0
    then "0"
    else if n == 1
    then "1"
    else if n == 2
    then "2"
    else if n == 3
    then "3"
    else if n == 4
    then "4"
    else if n == 5
    then "5"
    else if n == 6
    then "6"
    else if n == 7
    then "7"
    else if n == 8
    then "8"
    else "9"

-- On fuel above the number.
digits : ℕ → ℕ → String
digits zero n = ""
digits (suc f) n =
    let front = digits f (n / 10) in if ltb n 10 then digit n else front +++ digit (n % 10)

-- `%d`
unfoldable pub decimal : ℤ → String
unfolding digits digit
decimal (pos n) = digits (suc n) n
decimal (negsuc n) = "-" +++ digits (suc (suc n)) (suc n)

-- The two formats, with what stands after the name of the database.
abbrev pub dsn : DbCredentials → String → String
dsn c query =
    "postgres://"
    +++ (c.username
        +++ (":"
            +++ (c.password
                +++ ("@"
                    +++ (c.host
                        +++ (":"
                            +++ (decimal c.port +++ ("/" +++ (c.db_name +++ ("?" +++ query))))))))))

pub pool_query : String → String
pool_query max_conns = "sslmode=require&pool_max_conns=" +++ (max_conns +++ "&pool_min_conns=2")

abbrev pub relay_query : String
relay_query = "sslmode=require&pool_max_conns=5&pool_min_conns=1"
