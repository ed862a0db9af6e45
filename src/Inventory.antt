-- ===== src/Inventory.antt =====
-- stampede/apps/inventory-service: main.go, and redis/reserve.lua, which it embeds and runs as one
-- atomic Redis script. A handler takes the decoder's answer (`none` is a decoding error) and the
-- answer of its Redis call, and returns the reply with the new state.
pub mod Reserve
pub mod Exact
pub mod Stock
pub mod Tests
use tf_man.Prelude.{
  ℕ, String, ◌≡◌, Bool, true, false, Option, none, some, List, ◌∷◌, ℤ, pos, ◌+++◌, str_eq, ◌||◌,
  ◌==◌, ltb_ℤ, leb_ℤ, is_some, if◌then◌else◌, append_ne, append_eq, arith,
}
use tf_man.Net.{Answer, done, refused, lost, Reply, error, bare}
use tf_man.Redis.{Redis, or_zero}

-- Keys of the script and of `handleSetStock`.
unfoldable pub reservation_key : String → String
reservation_key order_id = "reservation:" +++ order_id

unfoldable pub stock_key : String → String
stock_key item_id = "stock:" +++ item_id

pub reservation_ne_stock : (o i : String) → str_eq (reservation_key o) (stock_key i) ≡ false
unfolding reservation_key stock_key
reservation_ne_stock o i = append_ne "r" "s" "eservation:" o "tock:" i (omega arith)

pub stock_ne_reservation : (i o : String) → str_eq (stock_key i) (reservation_key o) ≡ false
unfolding reservation_key stock_key
stock_ne_reservation i o = append_ne "s" "r" "tock:" i "eservation:" o (omega arith)

pub stock_key_eq : (i j : String) → str_eq (stock_key i) (stock_key j) ≡ str_eq i j
unfolding stock_key
stock_key_eq i j = append_eq "stock:" i j

pub reservation_key_eq :
    (o p : String) → str_eq (reservation_key o) (reservation_key p) ≡ str_eq o p
unfolding reservation_key
reservation_key_eq o p = append_eq "reservation:" o p

-- The database, and what was published on the channel `stock-updates`, newest first.
pub record State (D : Type 0) : Type 0 where
  pub db : D
  pub updates : List (String × ℤ)

pub record ReserveRequest : Type 0 where
  pub item_id : String
  pub quantity : ℤ
  pub order_id : String

-- The guard of `handleReserve`.
abbrev pub is_bad : ReserveRequest → Bool
is_bad req = str_eq req.item_id "" || str_eq req.order_id "" || leb_ℤ req.quantity (pos 0)

module _ (redis : Redis) where
  open redis use {Db, value, set, decr_by, to_number, printed}

  -- redis/reserve.lua: the script's result and the state that it leaves. Its numbers are doubles.
  unfoldable pub reserve_script : String → String → ℤ → String → State Db → ℕ × State Db
  reserve_script reservation stock quantity item_id s =
      let qty = to_number quantity in
      if is_some (value reservation s.db)
      then (1, s)
      else if ltb_ℤ (to_number (or_zero (value stock s.db))) qty
      then (0, s)
      else (let (remaining, db) = decr_by stock qty s.db in
          (
            1,
            record s {
              db = set reservation qty (some 86400) db;
              updates = (item_id, printed remaining) ∷ s.updates;
            },
          ))

  -- What `handleReserve` makes of the call of the script: `ran` is what a run returns and leaves.
  unfoldable pub reserve_reply : Answer → State Db → ℕ × State Db → Reply (Unit {0}) × State Db
  reserve_reply done s (result, t) =
      (if result == 0 then error 409 "insufficient stock" else bare 200, t)
  reserve_reply refused s (result, t) = (error 500 "internal error", s)
  reserve_reply lost s (result, t) = (error 500 "internal error", t)

  unfoldable pub handle_reserve :
      Answer → Option ReserveRequest → State Db → Reply (Unit {0}) × State Db
  handle_reserve answer none s = (error 400 "invalid request body", s)
  handle_reserve answer (some req) s =
      if is_bad req
      then (error 400 "item_id, order_id, and a positive quantity are required", s)
      else reserve_reply answer s (
          reserve_script (reservation_key req.order_id) (stock_key req.item_id) req.quantity
            req.item_id s)

  -- `itemID` is the path value, the request holds the quantity alone.
  pub handle_set_stock : Answer → String → Option ℤ → State Db → Reply (Unit {0}) × State Db
  handle_set_stock answer item_id none s =
      (error 400 (if str_eq item_id "" then "item id is required" else "invalid request body"), s)
  handle_set_stock answer item_id (some quantity) s =
      if str_eq item_id ""
      then (error 400 "item id is required", s)
      else if ltb_ℤ quantity (pos 0)
      then (error 400 "quantity must not be negative", s)
      else (let written = record s { db = set (stock_key item_id) quantity none s.db } in
          elim answer [
            | done ↦ (bare 200, written)
            | refused ↦ (error 500 "internal error", s)
            | lost ↦ (error 500 "internal error", written)
          ])
