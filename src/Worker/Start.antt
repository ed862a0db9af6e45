-- ===== src/Worker/Start.antt =====
-- How many slots the `main` of a worker under stampede/apps gives its consumer.
use tf_man.Prelude.{
  ℕ, ◌+◌, String, ◌≡◌, sym, subst, Bool, Option, none, some, List, ◌∷◌, ℤ, pos, negsuc, length,
  or_else, some-injective, ap, ◌∙◌,
}
use tf_man.Health.{Tracker}
use tf_man.Consumer.{Queued, spawning, State, Action, Reach, start}
use tf_man.Consumer.Stops.{Moves}
use tf_man.Consumer.Zero.{never_returns}

-- `CONCURRENCY`, or 10 where `strconv.Atoi` does not take it.
abbrev pub worker_concurrency : (String → Option ℤ) → String → ℤ
worker_concurrency atoi text = or_else (atoi text) (pos 10)

-- `make(chan struct{}, n)`: `none` is a panic.
abbrev pub slots : ℤ → Option ℕ
slots (pos n) = some n
slots (negsuc n) = none

-- A worker whose CONCURRENCY is read as 0, with whatever handler, waits for a slot for good once it has
-- received a message: whatever happens, also when its context is done, it starts no handler and `Run`
-- does not return.
pub zero_blocks :
    {B W E : Type 0} (handler : E → Queued B → W → Bool × W) (atoi : String → Option ℤ)
    (text : String) (n : ℕ) {tracker : Option Tracker} {world : W} {s t : State B W}
    {moves : List (Action B E)} (m : Queued B) (ms : List (Queued B))
    → atoi text ≡ some (pos 0)
    → slots (worker_concurrency atoi text) ≡ some n
    → Reach n handler (start tracker world) s
    → s.loop ≡ spawning (m ∷ ms)
    → Moves n handler s moves t
    → (t.loop ≡ spawning (m ∷ ms)) × (length t.running + length t.deleting ≡ 0)
zero_blocks {B} {W} {E} handler atoi text n {tracker} {world} {s} {t} {moves} m ms zero_read given r
      waits run =
    let none_given : n ≡ 0 =
      some-injective (sym given ∙ ap (λ o. slots (or_else o (pos 10))) zero_read) in
    never_returns handler m ms (subst (λ k. Reach k handler (start tracker world) s) none_given r)
      waits (subst (λ k. Moves k handler s moves t) none_given run)
