-- ===== src/Consumer/World.antt =====
-- What the handlers of a consumer do together: they act on the world one after another.
use tf_man.Prelude.{
  pick, ℕ, ◌≡◌, refl, sym, ap, subst, ◌∙◌, Bool, true, false, Option, some, List, [], ◌∷◌, ◌++◌,
  arith,
}
use tf_man.Health.{Tracker}
use tf_man.Consumer.{
  Queued, State, Action, handle, delete, after_handler, act, Reach, here, next, start,
}
use tf_man.Consumer.Sound.{go_on-some}

module _ {B W E : Type 0} (concurrency : ℕ) (handler : E → Queued B → W → Bool × W) where
  -- The world after a row of calls of the handler, the first at the head.
  abbrev pub delivered : List (E × Queued B) → W → W
  delivered [] w = w
  delivered ((e, m) ∷ calls) w = delivered calls (handler e m w).1

  delivered-append :
      (calls : List (E × Queued B)) (e : E) (m : Queued B) (w : W)
      → delivered (calls ++ (e, m) ∷ []) w ≡ (handler e m (delivered calls w)).1
  delivered-append [] e m w = refl
  delivered-append ((d, x) ∷ calls) e m w = delivered-append calls e m (handler d x w).1

  abbrev pub IsDelivered : W → W → Type 0
  IsDelivered world w = (calls : List (E × Queued B)) × (w ≡ delivered calls world)

  handled :
      {world : W} (m : Queued B) (rest : List (Queued B)) (x : E) (s : State B W)
      → IsDelivered world s.world
      → IsDelivered world (after_handler concurrency handler m rest (handler x m s.world) s).world
  unfolding after_handler
  handled {world} m rest x s (calls, e) = (
    calls ++ (x, m) ∷ [],
    world_of m rest (handler x m s.world) s
        ∙ ap (λ w. (handler x m w).1) e
        ∙ sym (delivered-append calls x m world),
  )
    where
      world_of :
          (m : Queued B) (rest : List (Queued B)) (r : Bool × W) (s : State B W)
          → (after_handler concurrency handler m rest r s).world ≡ r.1
      world_of m rest (true, w) s = refl
      world_of m rest (false, w) s = refl

  act-IsDelivered :
      {world : W} (a : Action B E) (s t : State B W)
      → IsDelivered world s.world
      → act concurrency handler a s ≡ some t
      → IsDelivered world t.world
  unfolding act after_handler
  act-IsDelivered {world} (handle i x) s t v e =
      let (m, rest, f, out) = go_on-some concurrency handler (pick i s.running) _ t e in
      subst (λ (u : State B W). IsDelivered world u.world) (sym out) (handled m rest x s v)
  act-IsDelivered (delete i answer) s t (calls, d) e =
      let (m, rest, f, out) = go_on-some concurrency handler (pick i s.deleting) _ t e in
      (calls, ap (λ (u : State B W). u.world) out ∙ d)
  act-IsDelivered a s t (calls, d) e = (calls, ground arith)

  -- Whatever the goroutines, SQS and the context do, the world of a consumer is the one that a row of
  -- calls of its handler makes, each taken as one step.
  pub Reach-IsDelivered :
      {tracker : Option Tracker} {world : W} {t : State B W}
      → Reach concurrency handler (start tracker world) t
      → IsDelivered world t.world
  Reach-IsDelivered here = ([], refl)
  Reach-IsDelivered (next a r e) = act-IsDelivered a _ _ (Reach-IsDelivered r) e
