-- ===== src/Consumer/Tests.antt =====
-- A run of a consumer with one slot, whose handler counts.
use tf_man.Prelude.{
  pick, ℕ, ◌+◌, ◌*◌, ◌≤◌, ◌≡◌, ◌⊎◌, refl, Bool, true, none, List, [], ◌∷◌, length, arith,
}
use tf_man.Consumer.{
  Queued, Loop, spawning, returned, State, Action, cancel, check, receive, spawn, arrive, handle,
  act, Reach, here, next, start,
}
use tf_man.Consumer.Sound.{IsSound, Reach-IsSound}
use tf_man.Consumer.Stops.{Moves, nil, cons, CanMove, consumer_terminates}

abbrev count : Unit {0} → Queued ℕ → ℕ → Bool × ℕ
count _ m n = (true, n + 1)

abbrev letter : Queued ℕ
letter = record { receipt = 4; body = 7 }

abbrev fresh : State ℕ ℕ
fresh = start none 0

abbrev arrived : State ℕ ℕ
arrived = record fresh { stored = letter ∷ []; arrived = letter ∷ [] }

abbrev asking : State ℕ ℕ
asking = record arrived { loop = Loop.receiving }

abbrev got : State ℕ ℕ
got = record arrived { loop = spawning (letter ∷ []) }

abbrev working : State ℕ ℕ
working = record arrived { loop = spawning []; running = letter ∷ [] }

abbrev cancelled : State ℕ ℕ
cancelled = record working { cancelled = true }

abbrev handled : State ℕ ℕ
handled = record cancelled {
  running = [];
  deleting = letter ∷ [];
  finished = letter ∷ [];
  world = 1;
}

reaches_arrived : Reach 1 count fresh arrived
unfolding act
reaches_arrived = next (arrive letter) here refl

reaches_asking : Reach 1 count fresh asking
unfolding act
reaches_asking = next check reaches_arrived refl

reaches_got : Reach 1 count fresh got
unfolding act
reaches_got = next (receive 5 (letter ∷ [])) reaches_asking refl

reaches_working : Reach 1 count fresh working
unfolding act
reaches_working = next spawn reaches_got refl

reaches_cancelled : Reach 1 count fresh cancelled
unfolding act
reaches_cancelled = next cancel reaches_working refl

Reach-IsSound_example : IsSound 1 count cancelled
Reach-IsSound_example = Reach-IsSound 1 count reaches_cancelled

abbrev moves : List (Action ℕ (Unit {0}))
moves = handle 0 tt ∷ []

one_move : Moves 1 count cancelled moves handled
unfolding act pick
one_move = cons {s = cancelled} {t = handled} (handle 0 tt) refl nil

consumer_terminates_example :
    (length moves ≤ 34 + 2 * 1) × ((handled.loop ≡ returned) ⊎ CanMove 1 count handled)
consumer_terminates_example =
    consumer_terminates 1 count tt (omega arith) reaches_cancelled refl (refl, tt) one_move
