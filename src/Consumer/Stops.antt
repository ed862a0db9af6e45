-- ===== src/Consumer/Stops.antt =====
-- How a consumer ends once its context is done.
use tf_man.Prelude.{
  pick, ℕ, ◌+◌, ◌*◌, ◌≤◌, ◌<◌, ◌≡◌, ◌⊎◌, inl, inr, refl, sym, subst, is_some, Bool, true, false,
  Option, some, List, [], ◌∷◌, All, length, leb, ltb, Bool-cases, arith,
}
use tf_man.Net.{Answer, done}
use tf_man.Health.{Tracker}
use tf_man.Consumer.{
  Queued, Loop, polling, receiving, pausing, spawning, waiting, returned, State, Action, cancel,
  check, receive_error, resume, spawn, poll_again, stop, arrive, handle, delete, unspawned,
  max_messages, after_handler, after_delete, act, Reach, start,
}
use tf_man.Consumer.Sound.{Picked, pick-Picked, go_on-some, Reach-IsSound}

-- The moves of `Run` and of its goroutines; the others are those of its caller and of its producers.
abbrev pub is_own : {B E : Type 0} → Action B E → Bool
is_own cancel = false
is_own (arrive _) = false
is_own _ = true

module _ {B W E : Type 0} (concurrency : ℕ) (handler : E → Queued B → W → Bool × W) where
  -- Moves one after another.
  pub data Moves : State B W → List (Action B E) → State B W → Type 0 where
    nil : {s : State B W} → Moves s [] s
    cons :
        {s t u : State B W} {moves : List (Action B E)} (a : Action B E)
        → act concurrency handler a s ≡ some t
        → Moves t moves u
        → Moves s (a ∷ moves) u

  -- The moves that the loop may still make, a message that is received counting three.
  abbrev weight : Loop B → ℕ
  weight returned = 0
  weight waiting = 1
  weight polling = 2
  weight pausing = 3
  weight (spawning ms) = 3 + 3 * length ms
  weight receiving = 34

  abbrev measure : State B W → ℕ
  measure s = weight s.loop + 2 * length s.running + length s.deleting

  abbrev Falls : State B W → State B W → Type 0
  Falls s t = (measure t < measure s) × (t.cancelled ≡ true)

  after_handler-Falls :
      (m : Queued B) (rest : List (Queued B)) (r : Bool × W) (s : State B W)
      → Picked s.running m rest
      → s.cancelled ≡ true
      → Falls s (after_handler concurrency handler m rest r s)
  unfolding after_handler
  after_handler-Falls m rest (ok, w) s p c = ground (arith, p.one_less)

  after_delete-Falls :
      (m : Queued B) (rest : List (Queued B)) (answer : Answer) (s : State B W)
      → Picked s.deleting m rest
      → s.cancelled ≡ true
      → Falls s (after_delete concurrency handler m rest answer s)
  unfolding after_delete
  after_delete-Falls m rest answer s p c = ground (arith, p.one_less)

  act-Falls :
      (a : Action B E) (s t : State B W)
      → is_own a ≡ true
      → s.cancelled ≡ true
      → act concurrency handler a s ≡ some t
      → Falls s t
  unfolding act
  act-Falls (handle i x) s t own c e =
      let (m, rest, f, out) = go_on-some concurrency handler (pick i s.running) _ t e in
      subst (Falls s) (sym out)
        (after_handler-Falls m rest (handler x m s.world) s (pick-Picked i s.running m rest f) c)
  act-Falls (delete i answer) s t own c e =
      let (m, rest, f, out) = go_on-some concurrency handler (pick i s.deleting) _ t e in
      subst (Falls s) (sym out)
        (after_delete-Falls m rest answer s (pick-Picked i s.deleting m rest f) c)
  act-Falls a s t own c e = (ground arith, ground arith)

  Moves-falls :
      {moves : List (Action B E)} {s t : State B W}
      → Moves s moves t
      → All (λ a. is_own a ≡ true) moves
      → s.cancelled ≡ true
      → (length moves + measure t ≤ measure s) × (t.cancelled ≡ true)
  Moves-falls nil h c = (omega arith, c)
  Moves-falls (cons {s} {t} a e m) (own, h) c =
      let (less, kept) = act-Falls a s t own c e in
      let (rest, last) = Moves-falls m h kept in (omega arith, last)

  -- Some own move is possible.
  abbrev pub CanMove : State B W → Type 0
  CanMove s = (a : Action B E) × (is_own a ≡ true) × (is_some (act concurrency handler a s) ≡ true)

  busy-CanMove :
      (x : E) (s : State B W) (running deleting : List (Queued B))
      → s.running ≡ running
      → s.deleting ≡ deleting
      → 0 < length running + length deleting
      → CanMove s
  unfolding act pick
  busy-CanMove x s [] [] e f h = absurd (omega arith)
  busy-CanMove x s (m ∷ ms) deleting e f h = (handle 0 x, refl, rw e refl)
  busy-CanMove x s [] (m ∷ ms) e f h = (delete 0 done, refl, rw f refl)

  progress :
      (x : E) (l : Loop B) (s : State B W)
      → 0 < concurrency
      → s.loop ≡ l
      → (s.loop ≡ returned) ⊎ CanMove s
  unfolding act
  progress x polling s h e = inr (check, refl, rw e refl)
  progress x receiving s h e = inr (receive_error, refl, rw e refl)
  progress x pausing s h e = inr (resume, refl, rw e refl)
  progress x returned s h e = inl e
  progress x (spawning []) s h e = inr (poll_again, refl, rw e refl)
  progress x (spawning (m ∷ ms)) s h e =
      elim (Bool-cases (ltb (length s.running + length s.deleting) concurrency)) [
        | inl room ↦ inr (spawn, refl, rw e (rw room refl))
        | inr full ↦ inr (busy-CanMove x s s.running s.deleting refl refl (ground arith))
      ]
  progress x waiting s h e = elim (Bool-cases (leb (length s.running + length s.deleting) 0)) [
    | inl empty ↦ inr (stop, refl, rw e (rw empty refl))
    | inr left ↦ inr (busy-CanMove x s s.running s.deleting refl refl (ground arith))
  ]

  weight-le : (l : Loop B) → length (unspawned l) ≤ max_messages → weight l ≤ 34
  weight-le l h = ground arith

  -- From the moment that its context is done, a consumer with a slot and a handler that returns makes
  -- at most 34 own moves and two for each slot, and as long as it has not returned, one is possible:
  -- `Run` ends, and waits for every handler.
  pub consumer_terminates :
      {tracker : Option Tracker} {world : W} {s t : State B W} {moves : List (Action B E)} (x : E)
      → 0 < concurrency
      → Reach concurrency handler (start tracker world) s
      → s.cancelled ≡ true
      → All (λ a. is_own a ≡ true) moves
      → Moves s moves t
      → (length moves ≤ 34 + 2 * concurrency) × ((t.loop ≡ returned) ⊎ CanMove t)
  consumer_terminates {s} {t} x slot r c own m =
      let v = Reach-IsSound concurrency handler r in
      let (most, last) = Moves-falls m own c in
      (omega (arith, v.bounded, weight-le s.loop v.batch), progress x t.loop t slot refl)
