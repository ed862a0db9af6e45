-- ===== src/Gateway/Feed/Stops.antt =====
-- The end of the subscription, once the context of the process is done.
use tf_man.Prelude.{
  ℕ, String, ◌+◌, ◌≤◌, ◌≡◌, ◌⊎◌, refl, subst, sym, true, some, map-some, arith, inl, inr,
  if◌then◌else◌,
}
use tf_man.Gateway.Hub.{broadcast, move, act}
use tf_man.Gateway.Feed.{
  Gateway, Subscriber, looping, listening, failed, pausing, ended, Turn, check, stop, receive, Step,
  connect, client, cancel, turn, at_phase, subscriber_moves, happens,
}

-- The steps that the subscriber has left.
rank : Subscriber → ℕ
rank ended = 0
rank looping = 1
rank failed = 2
rank pausing = 2
rank listening = 3

rank_bound : (p : Subscriber) → rank p ≤ 3
unfolding rank
rank_bound p = ground arith

module _ {M : Type 0} where
  -- Whether a step is the subscriber's own; a message that it receives is the network's.
  unfoldable pub is_own : Step M → ℕ
  is_own (turn (receive msg)) = 0
  is_own (turn t) = 1
  is_own _ = 0

  -- A run, and how many of its steps are the subscriber's own.
  pub data Run (allowed : String) : Gateway M → ℕ → Gateway M → Type 0 where
    none_left : {g : Gateway M} → Run allowed g 0 g
    step :
        {g h k : Gateway M} {n : ℕ} (e : Step M)
        → happens allowed e g ≡ some h
        → Run allowed h n k
        → Run allowed g (is_own e + n) k

  subscriber_moves-rank :
      (p : Subscriber) (t : Turn M) (g h : Gateway M)
      → g.phase ≡ p
      → g.is_done ≡ true
      → subscriber_moves p t g ≡ some h
      → (is_own (turn t) + rank h.phase ≤ rank p) × (h.is_done ≡ true)
  unfolding subscriber_moves rank is_own
  subscriber_moves-rank listening (receive msg) g h same d e =
      let (hub, f, out) = map-some _ (act (broadcast msg) g.hub) _ e in
      subst (λ (k : Gateway M). (0 + rank k.phase ≤ 3) × (k.is_done ≡ true)) (sym out)
        (rw same (omega arith), d)
  subscriber_moves-rank p t g h same d e = (ground arith, ground arith)

  happens-rank :
      (allowed : String) (e : Step M) (g h : Gateway M)
      → g.is_done ≡ true
      → happens allowed e g ≡ some h
      → (is_own e + rank h.phase ≤ rank g.phase) × (h.is_done ≡ true)
  unfolding happens is_own act
  happens-rank allowed (connect origin upgrades) g h d f = (ground arith, ground arith)
  happens-rank allowed (client i m) g h d f =
      let (hub, k, out) = map-some _ (act (move i m) g.hub) _ f in
      subst (λ (k : Gateway M). (0 + rank k.phase ≤ rank g.phase) × (k.is_done ≡ true)) (sym out)
        (omega arith, d)
  happens-rank allowed cancel g h d f = (ground arith, ground arith)
  happens-rank allowed (turn t) g h d f = subscriber_moves-rank g.phase t g h refl d f

  Run-rank :
      {allowed : String} {g h : Gateway M} {n : ℕ}
      → Run allowed g n h
      → g.is_done ≡ true
      → (n + rank h.phase ≤ rank g.phase) × (h.is_done ≡ true)
  Run-rank none_left d = (omega arith, d)
  Run-rank (step e f r) d =
      let (less, done) = happens-rank _ e _ _ d f in
      let (rest, last) = Run-rank r done in (omega arith, last)

  -- Whether the subscriber has a step of its own.
  abbrev pub CanGoOn : String → Gateway M → Type 0
  CanGoOn allowed g =
      (e : Step M) × (h : Gateway M) × (is_own e ≡ 1) × (happens allowed e g ≡ some h)

  goes_on :
      (allowed : String) (p : Subscriber) (g : Gateway M)
      → g.phase ≡ p
      → g.is_done ≡ true
      → (p ≡ ended) ⊎ CanGoOn allowed g
  unfolding happens subscriber_moves is_own
  goes_on allowed looping g same d =
      inr (turn check, at_phase g (if g.is_done then ended else listening), refl, rw same refl)
  goes_on allowed listening g same d = inr (turn stop, at_phase g failed, refl, rw (same, d) refl)
  goes_on allowed failed g same d =
      inr (turn check, at_phase g (if g.is_done then looping else pausing), refl, rw same refl)
  goes_on allowed pausing g same d = inr (turn stop, at_phase g ended, refl, rw (same, d) refl)
  goes_on allowed ended g same d = inl refl

  -- Once the context of the process is done, the subscriber makes at most three steps of its own,
  -- whatever else happens in between: messages that it still receives, which Go may choose before the
  -- end of the context, clients and connections. As long as it has not returned, it has a step to make.
  pub subscription_ends :
      {allowed : String} {g h : Gateway M} {n : ℕ}
      → g.is_done ≡ true
      → Run allowed g n h
      → (n ≤ 3) × ((h.phase ≡ ended) ⊎ CanGoOn allowed h)
  subscription_ends {allowed} {g} {h} d r =
      let (less, last) = Run-rank r d in
      let most = rank_bound g.phase in (omega arith, goes_on allowed h.phase h refl last)
