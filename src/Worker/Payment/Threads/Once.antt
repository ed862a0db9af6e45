-- ===== src/Worker/Payment/Threads/Once.antt =====
-- Payments and claims, however the goroutines of the deliveries of a message mix.
use tf_man.Prelude.{
  ℕ, ◌+◌, ◌≤◌, String, Bool, true, false, ◌&&◌, ◌≡◌, inl, inr, refl, subst, ◌∙◌, Option, none, some,
  List, pick, sum, sum-pick, length, str_eq, str_eq_iff, is_some, Bool-cases, Option-cases,
  if◌then◌else◌, some-injective, arith,
}
use tf_man.Net.{Answer, done, refused, lost, applied}
use tf_man.Redis.{Redis}
use tf_man.Events.{Event, publish}
use tf_man.Worker.Dedup.{seen, unclaim}
use tf_man.Worker.Dedup.Claims.{IsClaimed, Looked, seen-Looked, unclaim-keeps}
use tf_man.Worker.Payment.{Delivery, dedup_key, payment_event}
use tf_man.Worker.Payment.Once.{dedup_key_eq}
use tf_man.Worker.Payment.Threads.{
  Stage, claiming, publishing, releasing, ended, Thread, Threads, Action, deliver, call, arrived,
  looked, published, call_of, called, act, is_honest, Reach, here, next,
}

-- A goroutine that holds the claim of its message.
abbrev pub holds : Stage → ℕ
holds (publishing event) = 1
holds (releasing event) = 1
holds _ = 0

-- How often the message `j` is held, and how often it was paid.
abbrev pub busy : String → Thread → ℕ
busy j t = if str_eq t.id j then holds t.stage else 0

abbrev pub paid_for : String → String → ℕ
paid_for j id = if str_eq id j then 1 else 0

module _ (redis : Redis) where
  open redis use {Db, value}

  abbrev pub claim : String → Db → ℕ
  claim j db = if is_some (value (dedup_key j) db) then 1 else 0

  -- A claim stands for one payment at most, made or under way.
  abbrev pub IsSingle : Threads Db → Type 0
  IsSingle s = (j : String) → sum (paid_for j) s.paid + sum (busy j) s.threads ≤ claim j s.db

  claim-le :
      (j : String) (db after : Db)
      → (IsClaimed redis (dedup_key j) db → IsClaimed redis (dedup_key j) after)
      → claim j db ≤ claim j after
  claim-le j db after keeps = ground (arith, keeps)

  -- The claim that a goroutine gets from `Seen` is a new one.
  looked-le :
      (event : Event) (j id : String) (db : Db) (r : Option Bool × Db) (n : ℕ)
      → Looked redis (dedup_key id) db r
      → n ≤ claim j db
      → n + (if str_eq id j then holds (looked event r.0) else 0) ≤ claim j r.1
  unfolding looked
  looked-le event j id db (none, after) n l h =
      ground (arith, claim-le j db after (l.keeps (dedup_key j)))
  looked-le event j id db (some true, after) n l h =
      ground (arith, claim-le j db after (l.keeps (dedup_key j)))
  looked-le event j id db (some false, after) n l h = elim (Bool-cases (str_eq id j)) [
    | inl e ↦ rw e (
        subst (λ k. n ≤ claim k db → n + 1 ≤ claim k after) ((str_eq_iff id j).0 e)
          (λ h.
            let free = l.was_free refl in
            let held = l.is_claimed refl in rw held (omega (arith, rw free at h)))
          h)
    | inr e ↦ rw e (omega (arith, h, claim-le j db after (l.keeps (dedup_key j))))
  ]

  -- A publication either pays the message or leaves it to be released.
  published-paid :
      (event e : Event) (b : Bool) (a : Answer) (topic : List Event)
      → (elim a [ Answer.lost ↦ false | _ ↦ true ]) ≡ true
      → holds (published event (publish b a e topic).0) + (if b && applied a then 1 else 0) ≡ 1
  unfolding published publish
  published-paid event e false a topic h = refl
  published-paid event e true done topic h = refl
  published-paid event e true refused topic h = refl
  published-paid event e true lost topic h = cc

  -- Releasing a claim that a goroutine holds for no payment takes it from no other message.
  unclaim-le :
      (j id : String) (a : Answer) (db : Db) (n : ℕ)
      → n + (if str_eq id j then 1 else 0) ≤ claim j db
      → n ≤ claim j (unclaim redis a (dedup_key id) db).1
  unclaim-le j id a db n h = elim (Bool-cases (str_eq id j)) [
    | inl e ↦ ground (arith, h, e)
    | inr e ↦
        let keeps =
          claim-le j db (unclaim redis a (dedup_key id) db).1
            (unclaim-keeps redis a (dedup_key id) db (dedup_key j) (dedup_key_eq id j ∙ e)) in
        omega (arith, rw e at h, keeps)
  ]

  call_of-IsSingle :
      (stage : Stage) (id : String) (d : Delivery) (rest : List Thread) (s t : Threads Db)
      → (elim d.publish [ Answer.lost ↦ false | _ ↦ true ]) ≡ true
      → ((j : String)
          → sum (paid_for j) s.paid + (if str_eq id j then holds stage else 0) + sum (busy j) rest
            ≤ claim j s.db)
      → call_of redis stage id d rest s ≡ some t
      → IsSingle t
  unfolding call_of
  call_of-IsSingle (claiming event) id d rest s t honest h e =
      subst IsSingle (some-injective e) λ j.
        let r = seen redis d.seen (dedup_key id) s.db in
        let l = seen-Looked redis d.seen (dedup_key id) s.db in
        omega (
          arith,
          looked-le event j id s.db r (sum (paid_for j) s.paid + sum (busy j) rest) l
              (ground (arith, h j)),
        )
  call_of-IsSingle (publishing event) id d rest s t honest h e =
      subst IsSingle (some-injective e) λ j. ground (
        arith,
        h j,
        published-paid event (payment_event d event) d.marshals d.publish s.topic honest,
      )
  call_of-IsSingle (releasing event) id d rest s t honest h e =
      subst IsSingle (some-injective e) λ j.
        let less =
          unclaim-le j id d.unclaim s.db (sum (paid_for j) s.paid + sum (busy j) rest)
            (ground (arith, h j)) in
        ground (arith, less)
  call_of-IsSingle (ended r) id d rest s t honest h e = absurd (none-ne-some e)
    where
      none-ne-some : none ≡ some t → ⊥
      none-ne-some q = cc

  act-IsSingle :
      (a : Action) (s t : Threads Db)
      → is_honest redis a ≡ true
      → IsSingle s
      → act redis a s ≡ some t
      → IsSingle t
  unfolding act called arrived
  act-IsSingle (deliver id none) s t honest h e =
      subst IsSingle (some-injective e) λ j. ground (arith, h j)
  act-IsSingle (deliver id (some event)) s t honest h e =
      subst IsSingle (some-injective e) λ j. ground (arith, h j)
  act-IsSingle (call i d) s t honest h e = elim (Option-cases (pick i s.threads)) [
    | inl f ↦ absurd (none-ne-some (rw f at e))
    | inr ((x, rest), f) ↦
        call_of-IsSingle x.stage x.id d rest s t honest
          (λ j. omega (arith, h j, sum-pick (busy j) i s.threads x rest f)) (rw f at e)
  ]
    where
      none-ne-some : none ≡ some t → ⊥
      none-ne-some q = cc

  length-publish :
      (b : Bool) (a : Answer) (e : Event) (topic : List Event)
      → length (publish b a e topic).1 ≡ length topic + (if b && applied a then 1 else 0)
  unfolding publish
  length-publish false a e topic = omega arith
  length-publish true done e topic = omega arith
  length-publish true refused e topic = omega arith
  length-publish true lost e topic = omega arith

  -- Events were put on the topic `n` more times than messages were paid.
  abbrev Counts : ℕ → Threads Db → Type 0
  Counts n s = length s.topic ≡ n + length s.paid

  call_of-Counts :
      (n : ℕ) (stage : Stage) (id : String) (d : Delivery) (rest : List Thread) (s t : Threads Db)
      → Counts n s
      → call_of redis stage id d rest s ≡ some t
      → Counts n t
  unfolding call_of
  call_of-Counts n (claiming event) id d rest s t h e = subst (Counts n) (some-injective e) h
  call_of-Counts n (publishing event) id d rest s t h e =
      subst (Counts n) (some-injective e)
        (ground (arith, h, length-publish d.marshals d.publish (payment_event d event) s.topic))
  call_of-Counts n (releasing event) id d rest s t h e = subst (Counts n) (some-injective e) h
  call_of-Counts n (ended r) id d rest s t h e = cc

  act-Counts :
      (n : ℕ) (a : Action) (s t : Threads Db) → Counts n s → act redis a s ≡ some t → Counts n t
  unfolding act called
  act-Counts n (deliver id event) s t h e = subst (Counts n) (some-injective e) h
  act-Counts n (call i d) s t h e = elim (Option-cases (pick i s.threads)) [
    | inl f ↦ absurd (none-ne-some (rw f at e))
    | inr ((x, rest), f) ↦ call_of-Counts n x.stage x.id d rest s t h (rw f at e)
  ]
    where
      none-ne-some : none ≡ some t → ⊥
      none-ne-some q = cc

  -- However the goroutines of the worker mix and whatever fails, as long as no publication is taken by
  -- SNS and reported as an error: the payments that were made for a message and those under way are
  -- one at most, and none where its claim is not in Redis; and each event that the worker put on the
  -- topic is the payment of one message.
  pub Reach-IsSingle :
      {db : Db} {topic : List Event} {s : Threads Db}
      → Reach redis db topic s
      → IsSingle s × (length s.topic ≡ length topic + length s.paid)
  Reach-IsSingle here = (λ j. omega arith, omega arith)
  Reach-IsSingle {topic = topic} (next a honest r e) =
      let (single, counts) = Reach-IsSingle r in
      (act-IsSingle a _ _ honest single e, act-Counts (length topic) a _ _ counts e)
