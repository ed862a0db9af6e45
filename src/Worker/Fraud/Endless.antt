-- ===== src/Worker/Fraud/Endless.antt =====
-- A counter of the fraud detector that has no time to live.
use tf_man.Prelude.{
  String, suc, Bool, true, false, ◌≡◌, refl, sym, ap, ◌∙◌, Option, none, some, List, [], ◌∷◌, ℕ, ℤ,
  ◌+ℤ◌, pos, eq_of_parts, int_laws, leb_ℤ, str_eq, str_eq_iff, str_eq_refl, subst, if_cases,
  Bool-cases, inl, inr, arith,
}
use tf_man.Net.{Answer, Answer-cases, done, refused, lost}
use tf_man.Redis.{Redis, or_zero}
use tf_man.Events.{Event, type_fraud_flagged}
use tf_man.Worker.Dedup.{claim_ttl, seen}
use tf_man.Worker.Fraud.{
  FraudError, expire_failed, Detector, Delivery, State, dedup_key, counter_key, is_one, fraud_event,
  alert_error, judge, start_window, count_event, after_seen, handle,
}
use tf_man.Worker.Fraud.Claims.{dedup_ne_counter, deliver_all}
use tf_man.Worker.Fraud.Lost.{handle_free}

module _ (redis : Redis) where
  open redis use {
    Db, value, ttl, set_nx, incr, expire, value-set_nx, ttl-set_nx, value-incr, ttl-incr,
    value-expire, ttl-expire, incr_result,
  }

  -- The key counts, from one on, and does not expire.
  abbrev pub IsEndless : String → Db → Type 0
  IsEndless k db = (n : ℕ) × (value k db ≡ some (pos (suc n))) × (ttl k db ≡ none)

  set_nx-IsEndless :
      (k j : String) (db : Db)
      → str_eq j k ≡ false
      → IsEndless k db
      → IsEndless k (set_nx j (pos 1) claim_ttl db).1
  set_nx-IsEndless k j db e (n, v, t) = (
    n,
    value-set_nx k j (pos 1) claim_ttl db ∙ rw e v,
    ttl-set_nx k j (pos 1) claim_ttl db ∙ rw e t,
  )

  next_of : (o : Option ℤ) (n : ℕ) → o ≡ some (pos (suc n)) → or_zero o +ℤ pos 1 ≡ pos (suc (suc n))
  next_of o n e = rw e (eq_of_parts _ _ (omega int_laws))

  incr-IsEndless : (k j : String) (db : Db) → IsEndless k db → IsEndless k (incr j db).1
  incr-IsEndless k j db (n, v, t) = elim (Bool-cases (str_eq j k)) [
    | inl e ↦ (
      suc n,
      value-incr k j db ∙ rw e (ap some (next_of (value j db) n (rw ((str_eq_iff j k).0 e) v))),
      ttl-incr k j db ∙ t,
    )
    | inr e ↦ (n, value-incr k j db ∙ rw e v, ttl-incr k j db ∙ t)
  ]

  expire-IsEndless :
      (k j : String) (w : ℤ) (db : Db)
      → str_eq j k ≡ false
      → IsEndless k db
      → IsEndless k (expire j w db)
  expire-IsEndless k j w db e (n, v, t) =
      (n, value-expire k j w db e ∙ v, ttl-expire k j w db e ∙ t)

  -- The count of an event of the user is not one.
  count_goes_on :
      (k j : String) (db : Db) → IsEndless k db → is_one (incr j db).0 ≡ true → str_eq j k ≡ false
  count_goes_on k j db (n, v, t) one = elim (Bool-cases (str_eq j k)) [
    | inl e ↦
        let count : (incr j db).0 ≡ pos (suc (suc n)) =
          incr_result j db ∙ next_of (value j db) n (rw ((str_eq_iff j k).0 e) v) in
        absurd (not_one n (ap is_one (sym count) ∙ one))
    | inr e ↦ e
  ]
    where
      not_one : (m : ℕ) → is_one (pos (suc (suc m))) ≡ true → ⊥
      not_one m h = ground arith

  seen-IsEndless :
      (user id : String) (a : Answer) (db : Db)
      → IsEndless (counter_key user) db
      → IsEndless (counter_key user) (seen redis a (dedup_key id) db).1
  unfolding seen
  seen-IsEndless user id done db h =
      set_nx-IsEndless (counter_key user) (dedup_key id) db (dedup_ne_counter id user) h
  seen-IsEndless user id refused db h = h
  seen-IsEndless user id lost db h =
      set_nx-IsEndless (counter_key user) (dedup_key id) db (dedup_ne_counter id user) h

  module _ (d : Detector) (user : String) where
    abbrev Keeps : Option FraudError × State Db → Type 0
    Keeps r = IsEndless (counter_key user) r.1.db

    judge-IsEndless :
        (v : Delivery) (event : Event) (count : ℤ) (s : State Db)
        → IsEndless (counter_key user) s.db
        → Keeps (judge redis d v event count s)
    unfolding judge
    judge-IsEndless v event count s h =
        if_cases Keeps (leb_ℤ count d.threshold) (λ _. h) (λ _. alerts _)
      where
        alerts : (sent : Bool × List Event) → Keeps (alert_error redis d sent s.db)
        alerts (true, topic) = h
        alerts (false, topic) = h

    start_window-IsEndless :
        (v : Delivery) (event : Event) (count : ℤ) (s : State Db)
        → IsEndless (counter_key user) s.db
        → (is_one count ≡ true → str_eq (counter_key event.user_id) (counter_key user) ≡ false)
        → Keeps (start_window redis d v event count s)
    unfolding start_window
    start_window-IsEndless v event count s h other = elim (Bool-cases (is_one count)) [
      | inl one ↦
          let key = counter_key event.user_id in
          let kept = expire-IsEndless (counter_key user) key d.window s.db (other one) h in
          rw one (elim (Answer-cases v.expire) [
            | inl e ↦ rw e (judge-IsEndless v event count _ kept)
            | inr (inl e) ↦ rw e h
            | inr (inr e) ↦ rw e kept
          ])
      | inr more ↦ rw more (judge-IsEndless v event count s h)
    ]

    count_event-IsEndless :
        (v : Delivery) (event : Event) (s : State Db)
        → IsEndless (counter_key user) s.db
        → Keeps (count_event redis d v event s)
    unfolding count_event fraud_event
    count_event-IsEndless v event s h =
        let key = counter_key event.user_id in
        let counted = incr-IsEndless (counter_key user) key s.db h in
        elim (Answer-cases v.incr) [
          | inl e ↦ rw e (
              start_window-IsEndless v event (incr key s.db).0 _ counted
                (count_goes_on (counter_key user) key s.db h))
          | inr (inl e) ↦ rw e h
          | inr (inr e) ↦ rw e counted
        ]

    after_seen-IsEndless :
        (v : Delivery) (event : Event) (topic : List Event) (r : Option Bool × Db)
        → IsEndless (counter_key user) r.1
        → Keeps (after_seen redis d v event topic r)
    unfolding after_seen
    after_seen-IsEndless v event topic (none, db) h = h
    after_seen-IsEndless v event topic (some true, db) h = h
    after_seen-IsEndless v event topic (some false, db) h = count_event-IsEndless v event _ h

    handle-IsEndless :
        (v : Delivery) (id : String) (m : Option Event) (s : State Db)
        → IsEndless (counter_key user) s.db
        → Keeps (handle redis d v id m s)
    unfolding handle
    handle-IsEndless v id none s h = h
    handle-IsEndless v id (some event) s h =
        if_cases Keeps (str_eq event.event_type type_fraud_flagged) (λ _. h)
          (λ _. after_seen-IsEndless v event s.topic _ (seen-IsEndless user id v.seen s.db h))

    deliver_all-IsEndless :
        (calls : List (Delivery × String × Option Event)) (s : State Db)
        → IsEndless (counter_key user) s.db
        → IsEndless (counter_key user) (deliver_all redis d calls s).db
    unfolding deliver_all
    deliver_all-IsEndless [] s h = h
    deliver_all-IsEndless ((v, id, m) ∷ rest) s h =
        deliver_all-IsEndless rest _ (handle-IsEndless v id m s h)

  -- The count of the first event, whose `Expire` is refused.
  module _ (d : Detector) (v : Delivery) (event : Event) where
    abbrev key : String
    key = counter_key event.user_id

    start_window_refused :
        (count : ℤ) (s : State Db)
        → v.expire ≡ refused
        → is_one count ≡ true
        → start_window redis d v event count s ≡ (some expire_failed, s)
    unfolding start_window
    start_window_refused count s x one = simp (one, x) refl

    first_count : (db : Db) → value key db ≡ none → (incr key db).0 ≡ pos 1
    first_count db new = incr_result key db ∙ rw new (eq_of_parts _ _ (omega int_laws))

    first-IsEndless :
        (db : Db) → value key db ≡ none → ttl key db ≡ none → IsEndless key (incr key db).1
    first-IsEndless db new free = (
      0,
      value-incr key key db
          ∙ rw (str_eq_refl key, ← incr_result key db) (ap some (first_count db new)),
      ttl-incr key key db ∙ free,
    )

    count_event_refused :
        (s : State Db)
        → v.incr ≡ done
        → v.expire ≡ refused
        → value key s.db ≡ none
        → count_event redis d v event s ≡ (some expire_failed, record s { db = (incr key s.db).1 })
    unfolding count_event
    count_event_refused s i x new =
        simp (i, count_event)
          (start_window_refused (incr key s.db).0 _ x (ap is_one (first_count s.db new)))

  -- An event, no alert itself, whose message is not claimed and whose user has no counter: where `Seen`
  -- and `Incr` succeed and `Expire` is refused, it ends in an error that sends the message back to the
  -- queue; but whatever is delivered from then on, that message too, and whatever fails, the counter of
  -- the user is above 0 and has no time to live.
  pub counter-IsEndless :
      (d : Detector) (v : Delivery) (id : String) (event : Event) (s : State Db)
      → str_eq event.event_type type_fraud_flagged ≡ false
      → value (dedup_key id) s.db ≡ none
      → value (counter_key event.user_id) s.db ≡ none
      → ttl (counter_key event.user_id) s.db ≡ none
      → v.seen ≡ done
      → v.incr ≡ done
      → v.expire ≡ refused
      → let (err, t) = handle redis d v id (some event) s in
        (err ≡ some expire_failed)
        × ((calls : List (Delivery × String × Option Event))
            → IsEndless (counter_key event.user_id) (deliver_all redis d calls t).db)
  unfolding after_seen
  counter-IsEndless d v id event s other fresh new free k i x =
      let key = counter_key event.user_id in
      let t : State Db = record s { db = (set_nx (dedup_key id) (pos 1) claim_ttl s.db).1 } in
      let other_key = dedup_ne_counter id event.user_id in
      let new_t : value key t.db ≡ none =
        value-set_nx key (dedup_key id) (pos 1) claim_ttl s.db ∙ rw other_key new in
      let free_t : ttl key t.db ≡ none =
        ttl-set_nx key (dedup_key id) (pos 1) claim_ttl s.db ∙ rw other_key free in
      let ran =
        handle_free redis d v id event s other fresh k
        ∙ count_event_refused d v event t i x new_t in
      (
        ap (λ (r : Option FraudError × State Db). r.0) ran,
        λ calls. deliver_all-IsEndless d event.user_id calls _ (
            subst (λ (r : Option FraudError × State Db). IsEndless key r.1.db) (sym ran)
              (first-IsEndless d v event t.db new_t free_t)),
      )
