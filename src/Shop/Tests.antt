-- ===== src/Shop/Tests.antt =====
-- One order, from its request to its payment.
use mathlib.Core.List.{Memᴰ}
use tf_man.Prelude.{ℕ, String, ◌+◌, true, false, refl, Option, none, some, ℤ, pos}
use tf_man.Net.{done}
use tf_man.Tests.{Store, empty_store, memory, plain_codec, tally, tally-parse}
use tf_man.Events.{Event, publish}
use tf_man.Outbox.Table.{insert_outbox_event, list_unpublished_outbox_events, has_id}
use tf_man.Outbox.Relay.{Round, relay_next}
use tf_man.Order.Client.{ReserveError}
use tf_man.Order.Db.{create_order, get_order}
use tf_man.Order.Handlers.{
  CreateOrderRequest, CreateEnv, placed_event, store_order, order_id_of, handle_create_order,
}
use tf_man.Order.Relay.{publish_row, publish_next_outbox_event}
use tf_man.Worker.Payment.{Delivery}
use tf_man.Shop.{Shop, create, relay, pay, here, next, created, relayed, paid, opened}
use tf_man.Shop.Traced.{IsTraced}
use tf_man.Shop.Reached.{Reach-IsTraced}

abbrev yes : String → ℤ → String → ℕ → Option ReserveError × ℕ
yes _ _ _ n = (none, n + 1)

abbrev request : CreateOrderRequest
request = record { user_id = "ann"; item_id = "tea"; quantity = pos 2; idempotency_key = "" }

abbrev env : CreateEnv
env = record {
  fresh = 3;
  now = 5;
  begins = true;
  inserts_order = true;
  inserts_event = true;
  commit = done;
}

abbrev round : Round
round = record {
  begins = true;
  lists = true;
  is_locked = λ _. false;
  deliver = done;
  marks = true;
  commit = done;
}

abbrev delivery : Delivery
delivery = record {
  now = 6;
  seen = done;
  declines = false;
  marshals = true;
  publish = done;
  unclaim = done;
}

abbrev ordered : Shop Event ℕ Store
ordered =
    created plain_codec tally memory yes env (some request)
      (opened plain_codec tally memory yes 0 empty_store)

abbrev sent : Shop Event ℕ Store
sent = relayed plain_codec tally memory yes round ordered

abbrev placed : Event
placed = placed_event plain_codec tally env request 3

sent-placed : Memᴰ placed sent.topic
unfolding handle_create_order store_order order_id_of create_order get_order insert_outbox_event
    has_id publish_next_outbox_event publish_row relay_next list_unpublished_outbox_events publish
sent-placed = Memᴰ.head refl

Reach-IsTraced_example :
    let s = paid plain_codec tally memory yes delivery "m1" placed sent in
    IsTraced plain_codec tally s.db s.topic
Reach-IsTraced_example = Reach-IsTraced plain_codec tally tally-parse memory yes (
    next (next (next here (create env (some request))) (relay round))
      (pay delivery "m1" placed sent-placed))
