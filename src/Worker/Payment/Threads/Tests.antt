-- ===== src/Worker/Payment/Threads/Tests.antt =====
-- Two goroutines of payment-worker with one message.
use tf_man.Prelude.{◌+◌, true, false, ◌≡◌, refl, none, some, [], ◌∷◌, pick, length}
use tf_man.Net.{done, refused}
use tf_man.Events.{Event, type_order_placed}
use tf_man.Tests.{Store, empty_store, memory}
use tf_man.Worker.Dedup.{seen}
use tf_man.Worker.Payment.{Delivery, dedup_key, publish_failed}
use tf_man.Worker.Payment.Retry.{IsReleased}
use tf_man.Worker.Payment.Threads.{
  claiming, publishing, ended, Threads, deliver, call, act, start, Reach, here, next,
}
use tf_man.Worker.Payment.Threads.Once.{IsSingle, Reach-IsSingle}
use tf_man.Worker.Payment.Threads.Race.{Runs, payment_lost}

abbrev placed : Event
placed = record {
  event_type = type_order_placed;
  user_id = "ann";
  order_id = "u7";
  timestamp = 5;
  metadata = [];
}

abbrev good : Delivery
good = record {
  now = 9;
  seen = done;
  declines = false;
  marshals = true;
  publish = done;
  unclaim = done;
}

abbrev failing : Delivery
failing = record good { publish = refused }

abbrev idle : Threads Store
idle = start memory empty_store []

abbrev begun : Threads Store
begun = record idle { threads = record { id = "m1"; stage = claiming placed } ∷ [] }

abbrev held : Threads Store
held = record begun {
  db = (seen memory done (dedup_key "m1") empty_store).1;
  threads = record { id = "m1"; stage = publishing placed } ∷ [];
}

held-Reach : Reach memory empty_store [] held
unfolding act pick seen
held-Reach =
    next (call 0 good) refl (next {t = begun} (deliver "m1" (some placed)) refl here refl) refl

Reach-IsSingle_example : IsSingle memory held × (0 ≡ 0 + length held.paid)
Reach-IsSingle_example = Reach-IsSingle memory held-Reach

failing-IsReleased : IsReleased failing
failing-IsReleased = record { seen = refl; publish = refl; unclaim = refl }

payment_lost_example :
    (t : Threads Store) × Runs memory idle
      (deliver "m1" (some placed)
        ∷ (call 0 failing
            ∷ (deliver "m1" (some placed)
                ∷ (call 0 failing ∷ (call 1 failing ∷ (call 0 failing ∷ []))))))
      t
    × (t.topic ≡ [])
    × (t.paid ≡ [])
    × (memory.value (dedup_key "m1") t.db ≡ none)
    × (t.threads
        ≡ record { id = "m1"; stage = ended (some publish_failed) }
          ∷ (record { id = "m1"; stage = ended none } ∷ []))
payment_lost_example = payment_lost memory failing "m1" placed idle failing-IsReleased refl refl
