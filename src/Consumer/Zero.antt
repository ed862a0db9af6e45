-- ===== src/Consumer/Zero.antt =====
-- A consumer without slots: `CONCURRENCY` is taken as it is parsed, also where it is 0.
use tf_man.Prelude.{ℕ, ◌+◌, ◌≡◌, refl, Bool, Option, none, some, List, [], ◌∷◌, length, pick, arith}
use tf_man.Health.{Tracker}
use tf_man.Consumer.{Queued, spawning, State, Action, handle, delete, go_on, act, Reach, start}
use tf_man.Consumer.Sound.{Reach-IsSound}
use tf_man.Consumer.Stops.{Moves, nil, cons}

module _ {B W E : Type 0} (handler : E → Queued B → W → Bool × W) where
  -- A consumer that waits for a slot for `m`, while no goroutine runs.
  record IsBlocked (m : Queued B) (ms : List (Queued B)) (s : State B W) : Type 0 where
    at : s.loop ≡ spawning (m ∷ ms)
    idle : length s.running + length s.deleting ≡ 0

  no_goroutine : (i : ℕ) (xs : List (Queued B)) → length xs ≡ 0 → pick i xs ≡ none
  unfolding pick
  no_goroutine i [] h = refl
  no_goroutine i (x ∷ xs) h = absurd (omega (arith, h))

  act-IsBlocked :
      (m : Queued B) (ms : List (Queued B)) (a : Action B E) (s t : State B W)
      → IsBlocked m ms s
      → act 0 handler a s ≡ some t
      → IsBlocked m ms t
  unfolding act go_on
  act-IsBlocked m ms (handle i x) s t v e = cc (e, no_goroutine i s.running (omega (arith, v.idle)))
  act-IsBlocked m ms (delete i answer) s t v e =
      cc (e, no_goroutine i s.deleting (omega (arith, v.idle)))
  act-IsBlocked m ms a s t v e = record {
    at = ground (arith, v.at);
    idle = ground (arith, v.idle, v.at);
  }

  Moves-IsBlocked :
      (m : Queued B) (ms : List (Queued B)) {s t : State B W} {moves : List (Action B E)}
      → IsBlocked m ms s
      → Moves 0 handler s moves t
      → IsBlocked m ms t
  Moves-IsBlocked m ms v nil = v
  Moves-IsBlocked m ms v (cons a e rest) = Moves-IsBlocked m ms (act-IsBlocked m ms a _ _ v e) rest

  -- A consumer with 0 slots that has received a message waits for a slot for good: whatever happens,
  -- also when its context is done, it starts no handler and `Run` does not return.
  pub never_returns :
      {tracker : Option Tracker} {world : W} {s t : State B W} {moves : List (Action B E)}
      (m : Queued B) (ms : List (Queued B))
      → Reach 0 handler (start tracker world) s
      → s.loop ≡ spawning (m ∷ ms)
      → Moves 0 handler s moves t
      → (t.loop ≡ spawning (m ∷ ms)) × (length t.running + length t.deleting ≡ 0)
  never_returns m ms r waits moves =
      let few = (Reach-IsSound 0 handler r).bounded in
      let v = Moves-IsBlocked m ms (record { at = waits; idle = omega (arith, few) }) moves in
      (v.at, v.idle)
