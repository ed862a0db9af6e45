-- ===== src/Worker/Tests.antt =====
-- Deliveries to the workers, with Redis as a function from keys.
use tf_man.Prelude.{
  ℕ, String, Option, ◌+◌, Bool, length, true, false, refl, none, some, List, [], ◌∷◌, ◌≡◌, ◌≤◌, pos,
  leb_ℤ, ℤ, ◌+ℤ◌, int_laws, arith,
}
use tf_man.Net.{Answer, lost, done, refused}
use tf_man.Events.{Event, type_order_placed}
use tf_man.Tests.{Store, empty_store, memory}
use tf_man.Worker.Payment
use tf_man.Worker.Payment.Once.{Message, NoneLost, sends, sends_le}
use tf_man.Consumer
use tf_man.Consumer.{Queued, spawning, cancel, check, receive, act, Reach, here, next, start}
use tf_man.Consumer.Stops.{Moves, nil, cons}
use tf_man.Worker.Start.{zero_blocks}
use tf_man.Worker.Fraud
use tf_man.Worker.Notification
use tf_man.Worker.Notification.Once
use tf_man.Worker.Notification.Once.{handle_once}
use tf_man.Worker.Dedup.Claims.{IsClaimed}
use tf_man.Worker.Fraud.Claims.{deliver_all}
use tf_man.Worker.Fraud.Endless.{IsEndless, counter-IsEndless}
use tf_man.Worker.Fraud.Lost.{next_count, alert_lost}

abbrev placed : Event
placed = record {
  event_type = type_order_placed;
  user_id = "ann";
  order_id = "u7";
  timestamp = 5;
  metadata = [];
}

abbrev good : Payment.Delivery
good = record {
  now = 9;
  seen = done;
  declines = false;
  marshals = true;
  publish = done;
  unclaim = done;
}

abbrev failing : Payment.Delivery
failing = record good { publish = refused }

abbrev unpaid : Payment.State Store
unpaid = record { db = empty_store; topic = [] }

abbrev messages : List Message
messages =
    record { id = "m1"; event = some placed; delivery = failing }
    ∷ record { id = "m1"; event = some placed; delivery = good }
    ∷ record { id = "m1"; event = some placed; delivery = good }
    ∷ []

-- no publication of the messages is lost
none_lost : NoneLost messages
none_lost = (λ e. cc, (λ e. cc, (λ e. cc, tt)))

sends_le_example : sends memory "m1" messages unpaid ≤ 1
sends_le_example = sends_le memory "m1" messages unpaid none_lost

abbrev detector : Fraud.Detector
detector = record { threshold = pos 0; window = pos 60 }

abbrev refusing : Fraud.Delivery
refusing = record {
  now = 9;
  seen = done;
  incr = done;
  expire = done;
  marshals = true;
  publish = refused;
}

abbrev uncounted : Fraud.State Store
uncounted = record { db = empty_store; topic = [] }

-- the first event of a user is one too many
is_over : leb_ℤ (next_count memory detector placed uncounted) detector.threshold ≡ false
is_over = over refl
  where
    over : {a : ℤ} → a ≡ pos 0 → leb_ℤ (a +ℤ pos 1) (pos 0) ≡ false
    over e = grind (arith, e, int_laws)

alert_lost_example :
    let (err, t) = Fraud.handle memory detector refusing "m1" (some placed) uncounted in
    (err ≡ some Fraud.publish_failed)
    × (t.topic ≡ [])
    × ((calls : List (Fraud.Delivery × String × Option Event)) (again : Fraud.Delivery)
          (m : Option Event)
        → let u = deliver_all memory detector calls t in
          IsClaimed memory (Fraud.dedup_key "m1") u.db
          × ((Fraud.handle memory detector again "m1" m u).1.topic ≡ u.topic))
alert_lost_example =
    alert_lost memory detector refusing "m1" placed uncounted refl refl refl refl refl refl is_over

abbrev unexpired : Fraud.Delivery
unexpired = record refusing { expire = refused }

counter-IsEndless_example :
    let (err, t) = Fraud.handle memory detector unexpired "m1" (some placed) uncounted in
    (err ≡ some Fraud.expire_failed)
    × ((calls : List (Fraud.Delivery × String × Option Event))
        → IsEndless memory
            (Fraud.counter_key placed.user_id)
            (deliver_all memory detector calls t).db)
counter-IsEndless_example =
    counter-IsEndless memory detector unexpired "m1" placed uncounted refl refl refl refl refl refl
      refl

abbrev unnotified : Notification.State memory
unnotified = record { db = empty_store; sent = [] }

abbrev between : List (Answer × String × Option Event)
between = (refused, "m2", some placed) ∷ (done, "m2", some placed) ∷ (lost, "m1", some placed) ∷ []

handle_once_example :
    let t =
      Once.deliver_all memory between
        (Notification.handle memory done "m1" (some placed) unnotified).1 in
    (Notification.handle memory done "m1" (some placed) t).1.sent ≡ t.sent
handle_once_example =
    handle_once memory done done "m1" placed (some placed) unnotified between (λ e. cc)

abbrev note : Queued ℕ
note = record { receipt = 4; body = 7 }

abbrev count : Unit {0} → Queued ℕ → ℕ → Bool × ℕ
count _ m n = (true, n + 1)

abbrev fresh : Consumer.State ℕ ℕ
fresh = start none 0

abbrev blocked : Consumer.State ℕ ℕ
blocked = record fresh { loop = spawning (note ∷ []) }

blocked-Reach : Reach 0 count fresh blocked
unfolding act
blocked-Reach =
    next {t = record fresh { loop = Consumer.Loop.receiving }} (receive 5 (note ∷ []))
      (next check here refl) refl

blocked-Moves : Moves 0 count blocked (cancel ∷ []) (record blocked { cancelled = true })
unfolding act
blocked-Moves = cons {t = record blocked { cancelled = true }} cancel refl nil

zero_blocks_example : (blocked.loop ≡ spawning (note ∷ [])) × (length blocked.running + 0 ≡ 0)
zero_blocks_example =
    zero_blocks count (λ _. some (pos 0)) "0" 0 note [] refl refl blocked-Reach refl blocked-Moves
