-- ===== src/Order/Status/Effect.antt =====
-- What a status event does to the orders, once and when it is delivered again.
use mathlib.Core.Option
use tf_man.Prelude.{
  ℕ, String, ◌≡◌, refl, ◌∙◌, Option, none, some, List, [], ◌∷◌, ◌==◌, is_some, is_some-map,
  Bool-cases, inl, inr, if◌then◌else◌, arith,
}
use tf_man.Net.{Answer, done, refused, lost}
use tf_man.Events.{Event}
use tf_man.Order.Db.{Order, Db, get_order, update_order_status}
use tf_man.Order.Handlers.{Uuid}
use tf_man.Order.Handlers.Atomic.{InStep}
use tf_man.Order.Status.{StatusError, status_of, set_status, change_status, handle_status_event}

abbrev pub with_status : String → Order → Order
with_status status o = record o { status = status }

get_order-update :
    (i id : ℕ) (status : String) (orders : List Order)
    → get_order i (update_order_status id status orders) ≡ (
        if id == i
        then Option.map (with_status status) (get_order i orders)
        else get_order i orders)
unfolding get_order update_order_status
get_order-update i id status [] = ground arith
get_order-update i id status (o ∷ orders) = ground (arith, get_order-update i id status orders)

update-update :
    (id : ℕ) (a b : String) (orders : List Order)
    → update_order_status id b (update_order_status id a orders) ≡ update_order_status id b orders
unfolding update_order_status
update-update id a b [] = refl
update-update id a b (o ∷ orders) = ground (arith, update-update id a b orders)

pub is_some-update :
    (i id : ℕ) (status : String) (orders : List Order)
    → is_some (get_order i (update_order_status id status orders)) ≡ is_some (get_order i orders)
is_some-update i id status orders =
    rw (get_order-update i id status orders) (elim (Bool-cases (id == i)) [
      | inl e ↦ rw e (is_some-map (with_status status) (get_order i orders))
      | inr e ↦ rw e refl
    ])

module _ {P : Type 0} (uuid : Uuid) where
  -- An event that sets a status and is handled without an error sets that status on the order that
  -- it names and on no other.
  handle_status_event_sets :
      (answer : Answer) (event : Event) (db : Db P) (id i : ℕ) (status : String)
      → status_of event ≡ some status
      → uuid.parse event.order_id ≡ some id
      → let (err, t) = handle_status_event uuid answer (some event) db in
        err ≡ none
        → get_order i t.orders ≡ (
            if id == i
            then Option.map (with_status status) (get_order i db.orders)
            else get_order i db.orders)
  unfolding handle_status_event
  handle_status_event_sets done event db id i status s p ok =
      rw (s, p) (get_order-update i id status db.orders)
  handle_status_event_sets refused event db id i status s p ok = absurd (differ (rw (s, p) at ok))
    where
      differ : {e : StatusError} → some e ≡ none → ⊥
      differ q = cc
  handle_status_event_sets lost event db id i status s p ok = absurd (differ (rw (s, p) at ok))
    where
      differ : {e : StatusError} → some e ≡ none → ⊥
      differ q = cc

  -- Events of every other type are dropped without an error.
  pub handle_status_event_other :
      (answer : Answer) (event : Event) (db : Db P)
      → status_of event ≡ none
      → handle_status_event uuid answer (some event) db ≡ (none, db)
  unfolding handle_status_event
  handle_status_event_other answer event db e = rw e

  set_status-InStep :
      (answer : Answer) (id : Option ℕ) (status : String) (db : Db P)
      → InStep db
      → InStep (set_status uuid answer id status db).1
  unfolding set_status
  set_status-InStep answer none status db h i = h i
  set_status-InStep done (some id) status db h i = is_some-update i id status db.orders ∙ h i
  set_status-InStep refused (some id) status db h i = h i
  set_status-InStep lost (some id) status db h i = is_some-update i id status db.orders ∙ h i

  change_status-InStep :
      (answer : Answer) (event : Event) (status : Option String) (db : Db P)
      → InStep db
      → InStep (change_status uuid answer event status db).1
  unfolding change_status
  change_status-InStep answer event none db h = h
  change_status-InStep answer event (some status) db h =
      set_status-InStep answer (uuid.parse event.order_id) status db h

  -- No status event breaks the step between orders and outbox.
  handle_status_event-InStep :
      (answer : Answer) (event : Option Event) (db : Db P)
      → InStep db
      → InStep (handle_status_event uuid answer event db).1
  unfolding handle_status_event
  handle_status_event-InStep answer none db h = h
  handle_status_event-InStep answer (some event) db h =
      change_status-InStep answer event (status_of event) db h

  set_status_again :
      (answer : Answer) (id : Option ℕ) (status : String) (db : Db P)
      → (set_status uuid done id status (set_status uuid answer id status db).1).1
        ≡ (set_status uuid done id status db).1
  unfolding set_status
  set_status_again answer none status db = refl
  set_status_again done (some id) status db = rw (update-update id status status db.orders) refl
  set_status_again refused (some id) status db = refl
  set_status_again lost (some id) status db = rw (update-update id status status db.orders) refl

  change_status_again :
      (answer : Answer) (event : Event) (status : Option String) (db : Db P)
      → (change_status uuid done event status (change_status uuid answer event status db).1).1
        ≡ (change_status uuid done event status db).1
  unfolding change_status
  change_status_again answer event none db = refl
  change_status_again answer event (some status) db =
      set_status_again answer (uuid.parse event.order_id) status db

  -- A status event that is delivered again, after whatever became of the first delivery, leaves the
  -- database that a single successful delivery leaves.
  handle_status_event_again :
      (answer : Answer) (event : Option Event) (db : Db P)
      → (handle_status_event uuid done event (handle_status_event uuid answer event db).1).1
        ≡ (handle_status_event uuid done event db).1
  unfolding handle_status_event
  handle_status_event_again answer none db = refl
  handle_status_event_again answer (some event) db =
      change_status_again answer event (status_of event) db
