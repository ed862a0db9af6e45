-- ===== src/Order/Status.antt =====
-- stampede/apps/order-service/main.go: `handleStatusEvent`, the handler of the queue of status
-- events. `none` for the event is a body that cannot be unmarshalled.
pub mod Effect
pub mod Keeps
use tf_man.Prelude.{ℕ, String, Bool, true, false, not, Option, none, some, str_eq, if◌then◌else◌}
use tf_man.Net.{Answer, done, refused, lost, applied}
use tf_man.Events.{Event, type_order_confirmed, type_payment_failed}
use tf_man.Order.Db.{Order, Db, update_order_status}
use tf_man.Order.Handlers.{Uuid}

pub data StatusError : Type 0 where
  unmarshal_failed parse_failed update_failed : StatusError

-- The `switch` on the type of the event; `none` is `default`.
unfoldable pub status_of : Event → Option String
status_of event =
    if str_eq event.event_type type_order_confirmed
    then some "confirmed"
    else if str_eq event.event_type type_payment_failed
    then some "payment_failed"
    else none

module _ {P : Type 0} (uuid : Uuid) where
  set_status : Answer → Option ℕ → String → Db P → Option StatusError × Db P
  set_status answer none status db = (some parse_failed, db)
  set_status answer (some id) status db =
      let updated = record db { orders = update_order_status id status db.orders } in
      elim answer [
        | done ↦ (none, updated)
        | refused ↦ (some update_failed, db)
        | lost ↦ (some update_failed, updated)
      ]

  change_status : Answer → Event → Option String → Db P → Option StatusError × Db P
  unfolding set_status
  change_status answer event none db = (none, db)
  change_status answer event (some status) db =
      set_status answer (uuid.parse event.order_id) status db

  unfoldable pub handle_status_event : Answer → Option Event → Db P → Option StatusError × Db P
  unfolding change_status
  handle_status_event answer none db = (some unmarshal_failed, db)
  handle_status_event answer (some event) db = change_status answer event (status_of event) db
