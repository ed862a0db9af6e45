-- ===== src/Worker/Fraud/Claims.antt =====
-- The claims of the fraud detector on its messages, over rows of deliveries.
use tf_man.Prelude.{
  String, Bool, true, false, ◌≡◌, refl, Option, none, some, List, [], ◌∷◌, ℤ, leb_ℤ, str_eq,
  append_ne_after, is_some, if_cases, Bool-cases, inl, inr, arith,
}
use tf_man.Net.{Answer-cases}
use tf_man.Redis.{Redis}
use tf_man.Events.{Event, type_fraud_flagged}
use tf_man.Worker.Dedup.{seen}
use tf_man.Worker.Dedup.Claims.{IsClaimed, Looked, seen-Looked}
use tf_man.Worker.Fraud.{
  FraudError, Detector, Delivery, State, dedup_key, counter_key, is_one, fraud_event, alert_error,
  judge, start_window, count_event, after_seen, handle,
}

-- "fraud:seen:…" and "fraud:events:…" differ after the common prefix.
pub counter_ne_dedup : (user id : String) → str_eq (counter_key user) (dedup_key id) ≡ false
unfolding counter_key dedup_key
counter_ne_dedup user id = append_ne_after "fraud:" "e" "s" "vents:" user "een:" id (omega arith)

pub dedup_ne_counter : (id user : String) → str_eq (dedup_key id) (counter_key user) ≡ false
unfolding counter_key dedup_key
dedup_ne_counter id user = append_ne_after "fraud:" "s" "e" "een:" id "vents:" user (omega arith)

module _ (redis : Redis) (d : Detector) where
  open redis use {Db, value, incr, expire, value-incr, value-expire}

  -- The state after a row of deliveries.
  unfoldable pub deliver_all : List (Delivery × String × Option Event) → State Db → State Db
  deliver_all [] s = s
  deliver_all ((v, id, m) ∷ rest) s = deliver_all rest (handle redis d v id m s).1

  module _ (id : String) where
    abbrev Keeps : Option FraudError × State Db → Type 0
    Keeps r = IsClaimed redis (dedup_key id) r.1.db

    judge-IsClaimed :
        (v : Delivery) (event : Event) (count : ℤ) (s : State Db)
        → IsClaimed redis (dedup_key id) s.db
        → Keeps (judge redis d v event count s)
    unfolding judge
    judge-IsClaimed v event count s h =
        if_cases Keeps (leb_ℤ count d.threshold) (λ _. h) (λ _. alerts _)
      where
        alerts : (sent : Bool × List Event) → Keeps (alert_error redis d sent s.db)
        alerts (true, topic) = h
        alerts (false, topic) = h

    start_window-IsClaimed :
        (v : Delivery) (event : Event) (count : ℤ) (s : State Db)
        → IsClaimed redis (dedup_key id) s.db
        → Keeps (start_window redis d v event count s)
    unfolding start_window
    start_window-IsClaimed v event count s h =
        let key = counter_key event.user_id in
        let kept : IsClaimed redis (dedup_key id) (expire key d.window s.db) =
          rw (value-expire (dedup_key id) key d.window s.db (counter_ne_dedup event.user_id id))
            h in
        elim (Bool-cases (is_one count)) [
          | inl one ↦ rw one (elim (Answer-cases v.expire) [
            | inl e ↦ rw e (judge-IsClaimed v event count _ kept)
            | inr (inl e) ↦ rw e h
            | inr (inr e) ↦ rw e kept
          ])
          | inr more ↦ rw more (judge-IsClaimed v event count s h)
        ]

    count_event-IsClaimed :
        (v : Delivery) (event : Event) (s : State Db)
        → IsClaimed redis (dedup_key id) s.db
        → Keeps (count_event redis d v event s)
    unfolding count_event fraud_event
    count_event-IsClaimed v event s h =
        let key = counter_key event.user_id in
        let kept : IsClaimed redis (dedup_key id) (incr key s.db).1 =
          rw (value-incr (dedup_key id) key s.db, counter_ne_dedup event.user_id id) h in
        elim (Answer-cases v.incr) [
          | inl e ↦ rw e (start_window-IsClaimed v event (incr key s.db).0 _ kept)
          | inr (inl e) ↦ rw e h
          | inr (inr e) ↦ rw e kept
        ]

    after_seen-IsClaimed :
        (v : Delivery) (event : Event) (topic : List Event) (r : Option Bool × Db)
        → IsClaimed redis (dedup_key id) r.1
        → Keeps (after_seen redis d v event topic r)
    unfolding after_seen
    after_seen-IsClaimed v event topic (none, db) h = h
    after_seen-IsClaimed v event topic (some true, db) h = h
    after_seen-IsClaimed v event topic (some false, db) h = count_event-IsClaimed v event _ h

    handle-IsClaimed :
        (v : Delivery) (j : String) (m : Option Event) (s : State Db)
        → IsClaimed redis (dedup_key id) s.db
        → Keeps (handle redis d v j m s)
    unfolding handle
    handle-IsClaimed v j none s h = h
    handle-IsClaimed v j (some event) s h =
        if_cases Keeps (str_eq event.event_type type_fraud_flagged) (λ _. h)
          (λ _.
            after_seen-IsClaimed v event s.topic _
              ((seen-Looked redis v.seen (dedup_key j) s.db).keeps (dedup_key id) h))

    -- A claim on a message stays through any row of deliveries.
    pub deliver_all-IsClaimed :
        (calls : List (Delivery × String × Option Event)) (s : State Db)
        → IsClaimed redis (dedup_key id) s.db
        → IsClaimed redis (dedup_key id) (deliver_all calls s).db
    unfolding deliver_all
    deliver_all-IsClaimed [] s h = h
    deliver_all-IsClaimed ((v, j, m) ∷ rest) s h =
        deliver_all-IsClaimed rest _ (handle-IsClaimed v j m s h)

  clash : {o : Option ℤ} → is_some o ≡ true → o ≡ none → ⊥
  clash p q = ground arith

  -- A message that is claimed puts nothing on the topic.
  pub claimed_is_silent :
      (v : Delivery) (id : String) (m : Option Event) (s : State Db)
      → IsClaimed redis (dedup_key id) s.db
      → (handle redis d v id m s).1.topic ≡ s.topic
  unfolding handle after_seen
  claimed_is_silent v id none s h = refl
  claimed_is_silent v id (some event) s h =
      elim (Bool-cases (str_eq event.event_type type_fraud_flagged)) [
        | inl e ↦ simp e refl
        | inr e ↦ simp e (
            silent (seen redis v.seen (dedup_key id) s.db)
              (seen-Looked redis v.seen (dedup_key id) s.db))
      ]
    where
      silent :
          (r : Option Bool × Db)
          → Looked redis (dedup_key id) s.db r
          → (after_seen redis d v event s.topic r).1.topic ≡ s.topic
      silent (none, db) l = refl
      silent (some true, db) l = refl
      silent (some false, db) l = absurd (clash h (l.was_free refl))
