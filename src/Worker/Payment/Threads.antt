-- ===== src/Worker/Payment/Threads.antt =====
-- The handler of payment-worker in steps: the consumer runs it in many goroutines, whose calls of
-- Redis and of SNS come in any order. A step that is not possible gives `none`.
pub mod Once
pub mod Race
mod Tests
use tf_man.Prelude.{
  String, Bool, true, false, not, ◌&&◌, ◌≡◌, Option, none, some, List, [], ◌∷◌, ℕ, pick, str_eq,
  if◌then◌else◌,
}
use tf_man.Net.{Answer, applied}
use tf_man.Redis.{Redis}
use tf_man.Events.{Event, publish, type_order_placed}
use tf_man.Worker.Dedup.{seen, unclaim}
use tf_man.Worker.Payment.{
  PaymentError, unmarshal_failed, dedup_failed, publish_failed, Delivery, State, dedup_key,
  payment_event, handle,
}

-- Where a goroutine stands: before `Seen`, before `Publish`, before `Unclaim`, or after the handler,
-- with what that returned.
pub data Stage : Type 0 where
  claiming publishing releasing : Event → Stage
  ended : Option PaymentError → Stage

pub record Thread : Type 0 where
  pub id : String
  pub stage : Stage

-- `paid` records the past: the ids of the messages whose event SNS took.
pub record Threads (D : Type 0) : Type 0 where
  pub db : D
  pub topic : List Event
  pub paid : List String
  pub threads : List Thread

-- A message is delivered; the i-th goroutine makes its next call.
pub data Action : Type 0 where
  deliver : String → Option Event → Action
  call : ℕ → Delivery → Action

-- What a handler does before its first call.
pub arrived : Option Event → Stage
arrived none = ended (some unmarshal_failed)
arrived (some event) =
    if not (str_eq event.event_type type_order_placed) then ended none else claiming event

-- After `Seen`.
pub looked : Event → Option Bool → Stage
looked event none = ended (some dedup_failed)
looked event (some true) = ended none
looked event (some false) = publishing event

-- After `Publish`.
pub published : Event → Bool → Stage
published event true = ended none
published event false = releasing event

module _ (redis : Redis) where
  open redis use {Db}

  -- The next call of a goroutine, the others being `rest`.
  pub call_of : Stage → String → Delivery → List Thread → Threads Db → Option (Threads Db)
  unfolding looked published
  call_of (claiming event) id d rest s =
      let (answer, db) = seen redis d.seen (dedup_key id) s.db in
      some (record s { db = db; threads = record { id = id; stage = looked event answer } ∷ rest })
  call_of (publishing event) id d rest s =
      let (ok, topic) = publish d.marshals d.publish (payment_event d event) s.topic in
      some (record s {
        topic = topic;
        paid = if d.marshals && applied d.publish then id ∷ s.paid else s.paid;
        threads = record { id = id; stage = published event ok } ∷ rest;
      })
  call_of (releasing event) id d rest s = some (record s {
    db = (unclaim redis d.unclaim (dedup_key id) s.db).1;
    threads = record { id = id; stage = ended (some publish_failed) } ∷ rest;
  })
  call_of (ended r) id d rest s = none

  pub called : Option (Thread × List Thread) → Delivery → Threads Db → Option (Threads Db)
  unfolding call_of
  called none d s = none
  called (some (t, rest)) d s = call_of t.stage t.id d rest s

  unfoldable pub act : Action → Threads Db → Option (Threads Db)
  unfolding arrived called
  act (deliver id event) s =
      some (record s { threads = record { id = id; stage = arrived event } ∷ s.threads })
  act (call i d) s = called (pick i s.threads) d s

  abbrev pub start : Db → List Event → Threads Db
  start db topic = record { db = db; topic = topic; paid = []; threads = [] }

  -- A step in which no publication is taken by SNS and reported as an error.
  abbrev pub is_honest : Action → Bool
  is_honest (deliver id event) = true
  is_honest (call i d) = elim d.publish [ Answer.lost ↦ false | _ ↦ true ]

  -- The states that a run of such steps reaches.
  pub data Reach (db : Db) (topic : List Event) : Threads Db → Type 0 where
    here : Reach db topic (start db topic)
    next :
        {s t : Threads Db} (a : Action)
        → is_honest a ≡ true
        → Reach db topic s
        → act a s ≡ some t
        → Reach db topic t
