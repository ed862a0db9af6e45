-- ===== src/Worker/Payment/Once.antt =====
-- A message is paid at most once, where no publication is lost, however often it is delivered and among
-- whatever other messages.
use tf_man.Prelude.{
  ℤ, ℕ, ◌+◌, ◌-◌, ◌≤◌, String, Bool, true, false, not, ◌≡◌, ◌≢◌, ◌⊎◌, refl, subst, Option, none,
  some, List, [], ◌∷◌, length, All, str_eq, str_eq_iff, append_eq, is_some, Bool-cases, inl, inr,
  if◌then◌else◌, arith,
}
use tf_man.Net.{Answer, done, refused, lost}
use tf_man.Redis.{Redis}
use tf_man.Events.{Event, publish, type_order_placed}
use tf_man.Worker.Dedup.{seen}
use tf_man.Worker.Dedup.Claims.{IsClaimed, Looked, seen-Looked, unclaim-keeps}
use tf_man.Worker.Payment.{
  PaymentError, Delivery, State, dedup_key, payment_event, after_publish, after_seen, handle,
}

pub dedup_key_eq : (i j : String) → str_eq (dedup_key i) (dedup_key j) ≡ str_eq i j
unfolding dedup_key
dedup_key_eq i j = append_eq "payment:seen:" i j

module _ (redis : Redis) where
  open redis use {Db, value}

  -- What one delivery does to the topic and to the claims of all messages.
  pub record Handled (id : String) (s t : State Db) (r : Option PaymentError) : Type 0 where
    pub keeps :
        (j : String) → IsClaimed redis (dedup_key j) s.db → IsClaimed redis (dedup_key j) t.db
    pub sends :
        (t.topic ≡ s.topic)
        ⊎ ((e : Event) × (t.topic ≡ e ∷ s.topic)
            × (value (dedup_key id) s.db ≡ none)
            × IsClaimed redis (dedup_key id) t.db)

  free_ne :
      (i j : String) (db before : Db)
      → value (dedup_key i) before ≡ none
      → IsClaimed redis (dedup_key j) before
      → str_eq (dedup_key i) (dedup_key j) ≡ false
  free_ne i j db before free h = elim (Bool-cases (str_eq (dedup_key i) (dedup_key j))) [
    | inl e ↦ absurd (clash (rw (← (str_eq_iff (dedup_key i) (dedup_key j)).0 e) at h) free)
    | inr e ↦ e
  ]
    where
      clash : {o : Option ℤ} → is_some o ≡ true → o ≡ none → ⊥
      clash p q = ground arith

  module _ (d : Delivery) (id : String) (event : Event) (s : State Db)
      (cheap : d.publish ≢ lost) where
    after_publish-Handled :
        (db : Db) (sent : Bool × List Event)
        → ((j : String) → IsClaimed redis (dedup_key j) s.db → IsClaimed redis (dedup_key j) db)
        → value (dedup_key id) s.db ≡ none
        → IsClaimed redis (dedup_key id) db
        → (sent.0 ≡ true → (e : Event) × (sent.1 ≡ e ∷ s.topic))
        → (sent.0 ≡ false → sent.1 ≡ s.topic)
        → Handled id s
            (after_publish redis d (dedup_key id) db sent).1
            (after_publish redis d (dedup_key id) db sent).0
    unfolding after_publish
    after_publish-Handled db (true, topic) keeps free claimed ok fails = record {
      keeps = keeps;
      sends = let (e, added) = ok refl in inr (e, added, free, claimed);
    }
    after_publish-Handled db (false, topic) keeps free claimed ok fails = record {
      keeps = λ j h.
          unclaim-keeps redis d.unclaim (dedup_key id) db (dedup_key j)
            (free_ne id j db s.db free h) (keeps j h);
      sends = inl (fails refl);
    }

    publish_adds :
        (b : Bool) (a : Answer) (e : Event) (topic : List Event)
        → (publish b a e topic).0 ≡ true
        → (publish b a e topic).1 ≡ e ∷ topic
    unfolding publish
    publish_adds true done e topic h = refl
    publish_adds true refused e topic h = cc
    publish_adds true lost e topic h = cc
    publish_adds false a e topic h = cc

    publish_fails :
        (b : Bool) (a : Answer) (e : Event) (topic : List Event)
        → a ≢ lost
        → (publish b a e topic).0 ≡ false
        → (publish b a e topic).1 ≡ topic
    unfolding publish
    publish_fails true done e topic c h = cc
    publish_fails true refused e topic c h = refl
    publish_fails true lost e topic c h = absurd (c refl)
    publish_fails false a e topic c h = refl

    after_seen-Handled :
        (looked : Option Bool × Db)
        → Looked redis (dedup_key id) s.db looked
        → Handled id s
            (after_seen redis d (dedup_key id) event s.topic looked).1
            (after_seen redis d (dedup_key id) event s.topic looked).0
    unfolding after_seen
    after_seen-Handled (none, db) l = record {
      keeps = λ j h. l.keeps (dedup_key j) h;
      sends = inl refl;
    }
    after_seen-Handled (some true, db) l = record {
      keeps = λ j h. l.keeps (dedup_key j) h;
      sends = inl refl;
    }
    after_seen-Handled (some false, db) l =
        after_publish-Handled db (publish d.marshals d.publish (payment_event d event) s.topic)
          (λ j h. l.keeps (dedup_key j) h) (l.was_free refl) (l.is_claimed refl)
          (λ ok. (payment_event d event, publish_adds d.marshals d.publish _ s.topic ok))
          (λ bad. publish_fails d.marshals d.publish _ s.topic cheap bad)

  pub handle-Handled :
      (d : Delivery) (id : String) (event : Option Event) (s : State Db)
      → d.publish ≢ lost
      → Handled id s (handle redis d id event s).1 (handle redis d id event s).0
  unfolding handle
  handle-Handled d id none s c = record { keeps = λ j h. h; sends = inl refl }
  handle-Handled d id (some event) s c =
      elim (Bool-cases (not (str_eq event.event_type type_order_placed))) [
        | inl e ↦ simp e (record { keeps = λ j h. h; sends = inl refl })
        | inr e ↦ simp e (
            after_seen-Handled d id event s c (seen redis d.seen (dedup_key id) s.db)
              (seen-Looked redis d.seen (dedup_key id) s.db))
      ]

-- A message as the queue delivers it, with the answers that its delivery meets.
pub record Message : Type 0 where
  pub id : String
  pub event : Option Event
  pub delivery : Delivery

-- No publication is taken by SNS and reported as an error.
abbrev pub NoneLost : List Message → Type 0
NoneLost ms = All (λ m. m.delivery.publish ≢ lost) ms

module _ (redis : Redis) where
  open redis use {Db, value}

  unfoldable pub step : Message → State Db → State Db
  step m s = (handle redis m.delivery m.id m.event s).1

  -- The events that the deliveries of one message put on the topic in a run.
  pub sends : String → List Message → State Db → ℕ
  sends id [] s = 0
  sends id (m ∷ ms) s =
      (if str_eq m.id id then length (step m s).topic - length s.topic else 0)
      + sends id ms (step m s)

  -- Whether the message may still be paid.
  abbrev left : String → State Db → ℕ
  left id s = if is_some (value (dedup_key id) s.db) then 0 else 1

  left-step :
      {r : Option PaymentError} {i : String} (id : String) (s t : State Db)
      → Handled redis i s t r
      → left id t ≤ left id s
  left-step id s t h = elim (Bool-cases (is_some (value (dedup_key id) s.db))) [
    | inl e ↦ rw (e, h.keeps id e) (omega arith)
    | inr e ↦ rw e (ground arith)
  ]

  sent_left :
      {r : Option PaymentError} (id : String) (s t : State Db)
      → Handled redis id s t r
      → (length t.topic - length s.topic) + left id t ≤ left id s
  sent_left {r} id s t h = elim h.sends [
    | inl e ↦ rw e (omega (arith, left-step {r = r} {i = id} id s t h))
    | inr (e, added, free, claimed) ↦ rw (added, free, claimed) (omega arith)
  ]

  -- However often a message is delivered, in whatever order with others and with whatever failures,
  -- it is paid at most once if it was not claimed before and not at all if it was, as long as no
  -- publication is taken by SNS and reported as an error.
  pub sends_le :
      (id : String) (ms : List Message) (s : State Db)
      → NoneLost ms
      → sends id ms s ≤ (if is_some (value (dedup_key id) s.db) then 0 else 1)
  unfolding sends step
  sends_le id [] s h = omega arith
  sends_le id (m ∷ ms) s (c, h) =
      let handled = handle-Handled redis m.delivery m.id m.event s c in
      let rest = sends_le id ms (handle redis m.delivery m.id m.event s).1 h in
      elim (Bool-cases (str_eq m.id id)) [
        | inl e ↦
            let same : m.id ≡ id = (str_eq_iff m.id id).0 e in
            let t : State Db = (handle redis m.delivery m.id m.event s).1 in
            let r : Option PaymentError = (handle redis m.delivery m.id m.event s).0 in
            rw e (
              omega (
                arith,
                rest,
                sent_left {r = r} id s t (subst (λ i. Handled redis i s t r) same handled),
              ))
        | inr e ↦ rw e (omega (arith, rest, left-step id s _ handled))
      ]
