-- ===== src/Order/Status/Keeps.antt =====
-- What a status event does to the database, for invariants of it.
use tf_man.Prelude.{ℕ, String, ◌≡◌, refl, Option, none, some}
use tf_man.Net.{Answer, done, refused, lost}
use tf_man.Events.{Event}
use tf_man.Order.Db.{Db, update_order_status}
use tf_man.Order.Handlers.{Uuid}
use tf_man.Order.Status.{status_of, set_status, change_status, handle_status_event}

module _ {P : Type 0} (uuid : Uuid) (Q : Db P → Type 0) (db : Db P) (same : Q db) where
  set_status-keeps :
      (answer : Answer) (id : Option ℕ) (status : String)
      → ((i : ℕ) → id ≡ some i → Q (record db { orders = update_order_status i status db.orders }))
      → Q (set_status uuid answer id status db).1
  unfolding set_status
  set_status-keeps answer none status h = same
  set_status-keeps done (some id) status h = h id refl
  set_status-keeps refused (some id) status h = same
  set_status-keeps lost (some id) status h = h id refl

  change_status-keeps :
      (answer : Answer) (event : Event) (status : Option String)
      → ((i : ℕ) (st : String)
          → status ≡ some st
          → uuid.parse event.order_id ≡ some i
          → Q (record db { orders = update_order_status i st db.orders }))
      → Q (change_status uuid answer event status db).1
  unfolding change_status
  change_status-keeps answer event none h = same
  change_status-keeps answer event (some status) h =
      set_status-keeps answer (uuid.parse event.order_id) status λ i e. h i status refl e

  -- The database after a status event: as it was, or with the status of the event on its order.
  pub handle_status_event-keeps :
      (answer : Answer) (event : Event)
      → ((i : ℕ) (st : String)
          → status_of event ≡ some st
          → uuid.parse event.order_id ≡ some i
          → Q (record db { orders = update_order_status i st db.orders }))
      → Q (handle_status_event uuid answer (some event) db).1
  unfolding handle_status_event
  handle_status_event-keeps answer event h = change_status-keeps answer event (status_of event) h
