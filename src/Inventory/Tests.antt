-- ===== src/Inventory/Tests.antt =====
-- Runs of the inventory service, with Redis as a function from keys.
use tf_man.Prelude.{
  ◌⊎◌, refl, if◌then◌else◌, str_eq, none, some, [], ◌∷◌, pos, ◌≤ℤ◌, arith, List, Option, ◌≡◌, ◌+ℤ◌,
}
use tf_man.Net.{Answer, done, lost}
use tf_man.Tests.{Store, empty_store, memory}
use tf_man.Inventory.{State, ReserveRequest, handle_reserve}
use tf_man.Inventory.Reserve.{Effect}
use tf_man.Inventory.Exact.{Exactly, handle_reserve_exact}
use tf_man.Inventory.Stock.{
  available, Op, reserve, set_stock, run, IsStocked, run-IsStocked, sold, reserve_all,
  reserve_all_balance,
}

abbrev pub order_1 : ReserveRequest
order_1 = record { item_id = "tea"; quantity = pos 2; order_id = "u7" }

abbrev pub start : State Store
start = record {
  db = record empty_store { values = λ k. if str_eq k "stock:tea" then some (pos 3) else none };
  updates = [];
}

abbrev empty : State Store
empty = record { db = empty_store; updates = [] }

empty-IsStocked : IsStocked memory empty
empty-IsStocked i = (omega arith, omega arith)

handle_reserve_exact_example :
    let (r, t) = handle_reserve memory lost (some order_1) start in
    Effect memory order_1 start r t × ((t ≡ start) ⊎ Exactly memory order_1 start t)
handle_reserve_exact_example = handle_reserve_exact memory lost order_1 start refl (omega arith)

abbrev answers : List Answer
answers = lost ∷ done ∷ done ∷ []

abbrev ops : List (Op memory)
ops = set_stock done "tea" (some (pos 3)) ∷ reserve lost (some order_1) ∷ []

run-IsStocked_example : IsStocked memory (run memory ops empty)
run-IsStocked_example = run-IsStocked memory ops empty (omega arith) empty-IsStocked

abbrev requests : List (Answer × Option ReserveRequest)
requests = (lost, some order_1) ∷ (done, some order_1) ∷ []

reserve_all_balance_example :
    (available memory "tea" (reserve_all memory requests empty) +ℤ sold memory "tea" requests empty
      ≡ available memory "tea" empty)
    × (sold memory "tea" requests empty ≤ℤ available memory "tea" empty)
reserve_all_balance_example = reserve_all_balance memory "tea" requests empty empty-IsStocked
