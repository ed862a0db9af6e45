-- ===== src/Order/Tests.antt =====
-- Requests, relay batches and status events of the order service.

use tf_man.Prelude.{
  ℕ, String, zero, suc, ◌+◌, ◌-◌, ◌*◌, ◌≤◌, ◌<◌, ◌^◌, ◌↔◌, ◌⊎◌, ◌≢◌, Bool, true, false, refl,
  Option, none, some, List, [], ◌∷◌, ◌≡◌, ℤ, pos, arith,
}
use tf_man.Net.{done, lost, json, status}
use tf_man.Tests.{Store, memory, plain_codec, one_uuid, tally, tally-parse}
use tf_man.Events.{Event, type_order_placed, type_order_confirmed}
use tf_man.Inventory.{
  State, handle_reserve, reserve_reply, reserve_script, reservation_key, stock_key,
}
use tf_man.Inventory.Tests.{order_1, start}
use tf_man.Outbox.Table.{Row}
use tf_man.Outbox.Table.Pick.{Pick, list-Pick}
use tf_man.Outbox.Table.Rows.{HasDistinctIds, pending}
use tf_man.Outbox.Table
use tf_man.Outbox.Relay.{Round, Outbox}
use tf_man.Outbox.Relay.Progress.{IsSmooth}
use tf_man.Inventory.Exact.{Exactly}
use tf_man.Order.Client.{ReserveError, prepared, do_reserve, reserve}
use tf_man.Order.Client.Once.{
  Link, request_lost, reply_lost, delivered, post, AtMostOnce, Means, reserve_once_exact,
}
use tf_man.Order.Client.Bounds.{count_calls, Spent, reserve_spends}
use tf_man.Order.Db.{Order, get_order}
use tf_man.Order.Handlers.{
  CreateOrderRequest, CreateOrderResponse, CreateEnv, World, order_id_of, store_order,
  handle_create_order, handle_get_order,
}
use tf_man.Order.Handlers.Atomic.{InStep, handle_create_order_reply}
use tf_man.Order.Handlers.Replay.{handle_create_order_again, handle_create_order_quantity}
use tf_man.Order.Handlers.Reserved.{reserve_over, handle_create_order_reserved}
use tf_man.Order.Handlers.Read.{handle_get_order-create}
use tf_man.Order.Relay.{publish_outbox_batch, run_outbox_relay}
use tf_man.Order.Relay.Delivery.{
  IsDelivered, publish_outbox_batch-IsDelivered, pending-run_outbox_relay,
}

-- The first response gets lost, the second request too.
abbrev link : ℕ → Link
link zero = reply_lost done
link (suc zero) = request_lost
link _ = delivered done

abbrev never : ℕ → Bool
never _ = false

reserve_once_exact_example :
    let o = reserve prepared (post memory order_1 link) never (start, 0) in
    ((o.net.0 ≡ start) ⊎ Exactly memory order_1 start o.net.0)
    × AtMostOnce memory order_1 link start refl o.net.0
    × Means memory order_1 link start refl o.err o.net.0
reserve_once_exact_example =
    reserve_once_exact memory order_1 link start refl prepared never 0 (omega arith)

abbrev unreachable_net : ℕ → Option ℕ × ℕ
unreachable_net s = (none, s)

reserve_spends_example :
    let o = reserve prepared (count_calls unreachable_net) never (4, 0) in
    Spent unreachable_net never 0 (100 ∷ 200 ∷ []) o × (o.net.1 ≤ 3)
reserve_spends_example = reserve_spends unreachable_net never 4 0

abbrev request : CreateOrderRequest
request = record { user_id = "ann"; item_id = "tea"; quantity = pos 2; idempotency_key = "u7" }

abbrev env : CreateEnv
env = record {
  fresh = 3;
  now = 5;
  begins = true;
  inserts_order = true;
  inserts_event = true;
  commit = done;
}

abbrev yes : String → ℤ → String → ℕ → Option ReserveError × ℕ
yes _ _ _ n = (none, n + 1)

abbrev no_rows : World Event ℕ
no_rows = record { db = record { orders = []; outbox = [] }; net = 0 }

handle_create_order_reply_example :
    let (r, v) = handle_create_order plain_codec one_uuid yes env (some request) no_rows in
    (status r ≢ 201 → (v.db ≡ no_rows.db) ⊎ (done ≡ lost))
    × (status r ≡ 201
        → (o : Order) × (get_order o.id v.db.orders ≡ some o)
          × (r ≡ json 201 (record { order_id = "u7"; status = o.status })))
handle_create_order_reply_example =
    handle_create_order_reply plain_codec one_uuid yes env (some request) no_rows

abbrev order_7 : Order
order_7 = record {
  id = 7;
  user_id = "ann";
  item_id = "tea";
  quantity = pos 2;
  status = "confirmed";
  created_at = 1;
}

abbrev event_7 : Event
event_7 = record {
  event_type = type_order_confirmed;
  user_id = "ann";
  order_id = "u7";
  timestamp = 1;
  metadata = [];
}

abbrev row_7 : Row Event
row_7 = record {
  id = 7;
  event_type = type_order_placed;
  payload = event_7;
  published = false;
  created_at = 1;
}

abbrev one_row : World Event ℕ
one_row = record { db = record { orders = order_7 ∷ []; outbox = row_7 ∷ [] }; net = 0 }

one-InStep : InStep one_row.db
unfolding get_order Table.has_id
one-InStep i = ground arith

found_7 : get_order 7 one_row.db.orders ≡ some order_7
unfolding get_order
found_7 = refl

handle_create_order_again_example :
    let (r, v) = handle_create_order plain_codec one_uuid yes env (some request) one_row in
    (v.db ≡ one_row.db)
    × (status r ≡ 201 → r ≡ json 201 (record { order_id = "u7"; status = "confirmed" }))
handle_create_order_again_example =
    handle_create_order_again plain_codec one_uuid yes env request one_row 7 order_7 refl refl
      found_7 one-InStep

named_7 : order_id_of plain_codec one_uuid env request ≡ some 7
unfolding order_id_of
named_7 = refl

absent_7 : get_order 7 no_rows.db.orders ≡ none
unfolding get_order
absent_7 = refl

created_7 : status (handle_create_order plain_codec one_uuid yes env (some request) no_rows).0 ≡ 201
unfolding handle_create_order order_id_of store_order
created_7 = refl

handle_create_order_quantity_example :
    let (r, v) = handle_create_order plain_codec one_uuid yes env (some request) no_rows in
    (o : Order) × (get_order 7 v.db.orders ≡ some o)
    × ((o.quantity ≡ request.quantity) ↔ (2 < 2 ^ 31))
handle_create_order_quantity_example =
    handle_create_order_quantity plain_codec one_uuid yes env request no_rows 7 2 refl named_7
      absent_7 created_7

abbrev keyless : CreateOrderRequest
keyless = record request { idempotency_key = "" }

created_3 : status (handle_create_order plain_codec tally yes env (some keyless) no_rows).0 ≡ 201
unfolding handle_create_order order_id_of store_order
created_3 = refl

handle_get_order-create_example :
    let (r, v) = handle_create_order plain_codec tally yes env (some keyless) no_rows in
    (body : CreateOrderResponse) × (r ≡ json 201 body)
    × (handle_get_order plain_codec tally true body.order_id v.db ≡ json 200 body)
handle_get_order-create_example =
    handle_get_order-create plain_codec tally yes tally-parse env (some keyless) no_rows created_3

abbrev smooth_round : Round
smooth_round = record {
  begins = true;
  lists = true;
  is_locked = λ _. false;
  deliver = done;
  marks = true;
  commit = done;
}

abbrev rounds : ℕ → Round
rounds _ = smooth_round

abbrev waiting : Outbox Event (List Event)
waiting = record { rows = row_7 ∷ []; sink = [] }

waiting-HasDistinctIds : HasDistinctIds waiting.rows
unfolding Table.has_id
waiting-HasDistinctIds = (refl, tt)

waiting-IsDelivered : IsDelivered plain_codec waiting
waiting-IsDelivered = record { distinct = waiting-HasDistinctIds; got_all = (λ e. cc, tt) }

publish_outbox_batch-IsDelivered_example :
    IsDelivered plain_codec (publish_outbox_batch plain_codec rounds waiting)
publish_outbox_batch-IsDelivered_example =
    publish_outbox_batch-IsDelivered plain_codec rounds waiting waiting-IsDelivered

rounds-IsSmooth : (i : ℕ) → IsSmooth (rounds i)
rounds-IsSmooth i = record {
  begins = refl;
  lists = refl;
  unlocked = λ _. refl;
  delivers = refl;
  marks = refl;
  commits = refl;
}

pending-run_outbox_relay_example :
    pending (run_outbox_relay plain_codec (rounds ∷ []) waiting).rows
    ≡ pending waiting.rows - 20 * 1
pending-run_outbox_relay_example =
    pending-run_outbox_relay plain_codec (rounds ∷ []) waiting (rounds-IsSmooth, tt)
      waiting-HasDistinctIds ((event_7, refl), tt)

list-Pick_example :
    Pick
      (λ _. false)
      waiting.rows
      (Table.list_unpublished_outbox_events (λ _. false) 1 waiting.rows)
list-Pick_example = list-Pick (λ _. false) waiting.rows

abbrev in_order : ℕ → Link
in_order _ = delivered done

abbrev stocked : World Event (State Store × ℕ)
stocked = record { db = no_rows.db; net = (start, 0) }

reserved_7 :
    status
      (handle_create_order plain_codec one_uuid
        (reserve_over plain_codec one_uuid memory in_order never)
        env
        (some request)
        stocked).0
    ≡ 201
unfolding handle_create_order order_id_of store_order reserve do_reserve post handle_reserve
    reserve_reply reserve_script reservation_key stock_key
reserved_7 = refl

handle_create_order_reserved_example :
    (id : ℕ) × (order_id_of plain_codec one_uuid env request ≡ some id)
    × (memory.value
          (reservation_key (one_uuid.print id))
          (handle_create_order plain_codec one_uuid
            (reserve_over plain_codec one_uuid memory in_order never)
            env
            (some request)
            stocked).1.net.0.db
        ≢ none)
handle_create_order_reserved_example =
    handle_create_order_reserved plain_codec one_uuid memory in_order never env request stocked
      (λ _. refl) reserved_7
