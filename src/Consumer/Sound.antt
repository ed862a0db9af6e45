-- ===== src/Consumer/Sound.antt =====
-- What holds of a consumer in every reachable state.
use tf_man.Prelude.{
  pick, ℕ, zero, suc, ◌+◌, ◌≤◌, ◌≡◌, refl, sym, subst, Bool, true, ◌||◌, Option, none, some, List,
  [], ◌∷◌, length, ◌==◌, Option-cases, inl, inr, arith,
}
use tf_man.Net.{Answer}
use tf_man.Health.{Tracker}
use tf_man.Consumer.{
  Queued, waiting, returned, State, Action, handle, delete, has, unspawned, max_messages, remove,
  go_on, after_handler, after_delete, act, Reach, here, next, start,
}

module _ {B : Type 0} where
  -- What `pick` takes out.
  pub record Picked (xs : List (Queued B)) (m : Queued B) (rest : List (Queued B)) : Type 0 where
    pub one_less : length xs ≡ suc (length rest)
    pub members : (r : ℕ) → has r xs ≡ (m.receipt == r) || has r rest

  pub pick-Picked :
      (i : ℕ) (xs : List (Queued B)) (m : Queued B) (rest : List (Queued B))
      → pick i xs ≡ some (m, rest)
      → Picked xs m rest
  unfolding pick
  pick-Picked i [] m rest e = record { one_less = cc; members = λ r. cc }
  pick-Picked zero (x ∷ xs) m rest e = record {
    one_less = ground arith;
    members = λ r. ground arith;
  }
  pick-Picked (suc i) (x ∷ xs) m rest e = elim (Option-cases (pick i xs)) [
    | inl f ↦ record { one_less = ground arith; members = λ r. ground arith }
    | inr ((y, ys), f) ↦
        let p = pick-Picked i xs y ys f in
        let q = p.one_less in
        record { one_less = ground arith; members = λ r. ground (arith, p.members r) }
  ]

  has-remove :
      (r d : ℕ) (ms : List (Queued B)) → has r ms ≡ true → has r (remove d ms) || d == r ≡ true
  unfolding remove
  has-remove r d [] h = cc
  has-remove r d (m ∷ ms) h = ground (arith, has-remove r d ms)

module _ {B W E : Type 0} (concurrency : ℕ) (handler : E → Queued B → W → Bool × W) where
  pub record IsSound (s : State B W) : Type 0 where
    pub bounded : length s.running + length s.deleting ≤ concurrency
    pub ended : (r : ℕ) → has r s.deleting ≡ true → has r s.finished ≡ true
    pub kept : (r : ℕ) → has r s.arrived ≡ true → has r s.stored || has r s.finished ≡ true
    pub batch : length (unspawned s.loop) ≤ max_messages
    pub told : s.loop ≡ waiting → s.cancelled ≡ true
    pub quiet :
        s.loop ≡ returned → (length s.running + length s.deleting ≡ 0) × (s.cancelled ≡ true)

  after_handler-IsSound :
      (m : Queued B) (rest : List (Queued B)) (r : Bool × W) (s : State B W)
      → Picked s.running m rest
      → IsSound s
      → IsSound (after_handler concurrency handler m rest r s)
  unfolding after_handler
  after_handler-IsSound m rest (ok, w) s p v = record {
    bounded = ground (arith, p.one_less, v.bounded);
    ended = λ r h. ground (arith, v.ended r);
    kept = λ r h. ground (arith, v.kept r);
    batch = ground (arith, v.batch);
    told = λ h. ground (arith, v.told);
    quiet = λ h. ground (arith, p.one_less, v.quiet);
  }

  after_delete-IsSound :
      (m : Queued B) (rest : List (Queued B)) (answer : Answer) (s : State B W)
      → Picked s.deleting m rest
      → IsSound s
      → IsSound (after_delete concurrency handler m rest answer s)
  unfolding after_delete
  after_delete-IsSound m rest answer s p v = record {
    bounded = ground (arith, p.one_less, v.bounded);
    ended = λ r h. ground (arith, p.members r, v.ended r);
    kept = λ r h. ground (arith, v.kept r, has-remove r m.receipt s.stored, p.members r, v.ended r);
    batch = ground (arith, v.batch);
    told = λ h. ground (arith, v.told);
    quiet = λ h. ground (arith, p.one_less, v.quiet);
  }

  pub go_on-some :
      (o : Option (Queued B × List (Queued B))) (f : Queued B → List (Queued B) → State B W)
      (t : State B W)
      → go_on concurrency handler o f ≡ some t
      → (m : Queued B) × (rest : List (Queued B)) × (o ≡ some (m, rest)) × (t ≡ f m rest)
  unfolding go_on
  go_on-some none f t e = absurd (none-ne-some e)
    where
      none-ne-some : none ≡ some t → ⊥
      none-ne-some q = cc
  go_on-some (some (m, rest)) f t e = (m, rest, refl, cc)

  act-IsSound :
      (a : Action B E) (s t : State B W)
      → IsSound s
      → act concurrency handler a s ≡ some t
      → IsSound t
  unfolding act
  act-IsSound (handle i x) s t v e =
      let (m, rest, f, out) = go_on-some (pick i s.running) _ t e in
      subst IsSound (sym out)
        (after_handler-IsSound m rest (handler x m s.world) s (pick-Picked i s.running m rest f) v)
  act-IsSound (delete i answer) s t v e =
      let (m, rest, f, out) = go_on-some (pick i s.deleting) _ t e in
      subst IsSound (sym out)
        (after_delete-IsSound m rest answer s (pick-Picked i s.deleting m rest f) v)
  act-IsSound a s t v e = record {
    bounded = ground (arith, v.bounded);
    ended = λ r h. ground (arith, v.ended r);
    kept = λ r h. ground (arith, v.kept r);
    batch = ground (arith, v.batch);
    told = λ h. ground (arith, v.told);
    quiet = λ h. ground (arith, v.quiet, v.told);
  }

  -- In every reachable state of a consumer at most `concurrency` goroutines run, every message that
  -- arrived is still stored or was handled without an error, and once `Run` returned no goroutine
  -- is left and the context is done.
  pub Reach-IsSound :
      {tracker : Option Tracker} {world : W} {t : State B W}
      → Reach concurrency handler (start tracker world) t
      → IsSound t
  Reach-IsSound here = record {
    bounded = omega arith;
    ended = λ r h. cc;
    kept = λ r h. cc;
    batch = omega arith;
    told = λ h. cc;
    quiet = λ h. cc;
  }
  Reach-IsSound (next a r e) = act-IsSound a _ _ (Reach-IsSound r) e
