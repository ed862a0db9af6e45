-- ===== src/Outbox/Relay/Sent.antt =====
-- A row is marked as published only after the receiver took it.
use mathlib.Core.List.{Memᴰ}
use tf_man.Prelude.{
  ℕ, zero, suc, ◌+◌, Bool, true, false, ◌≡◌, refl, sym, subst, inl, inr, ==_self, List, [], ◌∷◌,
  All, Bool-cases,
}
use tf_man.Net.{Answer, done, refused, lost}
use tf_man.Outbox.Table.{Row, has_id, mark_outbox_event_published}
use tf_man.Outbox.Table.Pick.{Pick, nothing, oldest, list-Pick}
use tf_man.Outbox.Table.Rows.{HasDistinctIds, mark-HasDistinctIds, absent_ne, mark_absent}
use tf_man.Outbox.Relay.{
  Round, Outbox, committed, finish, work, relay_next, relay_rounds, relay_batch,
}

module _ {P K : Type 0} (deliver : Answer → ℕ → P → K → Bool × K) (Got : ℕ → P → K → Type 0)
    (got : (a : Answer) (id : ℕ) (p : P) (k : K)
      → (deliver a id p k).0 ≡ true
      → Got id p (deliver a id p k).1)
    (keep : (a : Answer) (i id : ℕ) (q p : P) (k : K)
      → Got id p k
      → Got id p (deliver a i q k).1) where
  -- The receiver has what every published row says; ids are distinct.
  pub record IsSent (s : Outbox P K) : Type 0 where
    pub distinct : HasDistinctIds s.rows
    pub got_all : All (λ r. r.published ≡ true → Got r.id r.payload s.sink) s.rows

  abbrev GotAll : List (Row P) → K → Type 0
  GotAll rows k = All (λ r. r.published ≡ true → Got r.id r.payload k) rows

  GotAll-keep :
      (a : Answer) (i : ℕ) (q : P) (k : K) (rows : List (Row P))
      → GotAll rows k
      → GotAll rows (deliver a i q k).1
  GotAll-keep a i q k [] h = tt
  GotAll-keep a i q k (r ∷ rows) (g, h) =
      (λ e. keep a i r.id q r.payload k (g e), GotAll-keep a i q k rows h)

  mark_head-GotAll :
      (r : Row P) (rows : List (Row P)) (k : K)
      → has_id r.id rows ≡ false
      → Got r.id r.payload k
      → GotAll rows k
      → GotAll (mark_outbox_event_published r.id (r ∷ rows)) k
  unfolding mark_outbox_event_published
  mark_head-GotAll r rows k fresh new h =
      rw (==_self r.id, mark_absent r.id rows fresh) (λ _. new, h)

  mark-GotAll :
      {row : Row P} (rows : List (Row P)) (k : K)
      → HasDistinctIds rows
      → Memᴰ row rows
      → Got row.id row.payload k
      → GotAll rows k
      → GotAll (mark_outbox_event_published row.id rows) k
  unfolding mark_outbox_event_published
  mark-GotAll [] k d m new h = tt
  mark-GotAll {row} (r ∷ rows) k (fresh, d) (Memᴰ.head e) new (g, h) =
      subst
        (λ (y : Row P).
          Got y.id y.payload k → GotAll (mark_outbox_event_published y.id (r ∷ rows)) k)
        (sym e) (λ n. mark_head-GotAll r rows k fresh n h) new
  mark-GotAll {row} (r ∷ rows) k (fresh, d) (Memᴰ.tail m) new (g, h) =
      rw (absent_ne r rows fresh m) (g, mark-GotAll rows k d m new h)

  module _ (env : Round) (row : Row P) (rows : List (Row P)) (sink : K) (d : HasDistinctIds rows)
      (m : Memᴰ row rows) where
    committed-IsSent :
        (a : Answer)
        → Got row.id row.payload sink
        → GotAll rows sink
        → IsSent (committed deliver a (mark_outbox_event_published row.id rows) rows sink).2
    unfolding committed
    committed-IsSent done new h = record {
      distinct = mark-HasDistinctIds row.id rows d;
      got_all = mark-GotAll rows sink d m new h;
    }
    committed-IsSent refused new h = record { distinct = d; got_all = h }
    committed-IsSent lost new h = record {
      distinct = mark-HasDistinctIds row.id rows d;
      got_all = mark-GotAll rows sink d m new h;
    }

    finish-IsSent :
        (ok : Bool)
        → (ok ≡ true → Got row.id row.payload sink)
        → GotAll rows sink
        → IsSent (finish deliver env row (ok, sink) rows).2
    unfolding finish
    finish-IsSent false new h = record { distinct = d; got_all = h }
    finish-IsSent true new h = elim (Bool-cases env.marks) [
      | inl e ↦ simp e (committed-IsSent env.commit (new refl) h)
      | inr e ↦ simp e (record { distinct = d; got_all = h })
    ]

  work-IsSent :
      (env : Round) (s : Outbox P K) {l : List (Row P)}
      → Pick env.is_locked s.rows l
      → IsSent s
      → IsSent (work deliver env l s).2
  unfolding work
  work-IsSent env s (nothing none_free) h = h
  work-IsSent env s (oldest row m free least) h =
      let (ok, sink) = deliver env.deliver row.id row.payload s.sink in
      finish-IsSent env row s.rows sink h.distinct m ok (got env.deliver row.id row.payload s.sink)
        (GotAll-keep env.deliver row.id row.payload s.sink s.rows h.got_all)

  relay_next-IsSent :
      (env : Round) (s : Outbox P K) → IsSent s → IsSent (relay_next deliver env s).2
  unfolding relay_next
  relay_next-IsSent env s h = elim (Bool-cases env.begins) [
    | inl e ↦ simp e (elim (Bool-cases env.lists) [
      | inl f ↦ simp f (work-IsSent env s (list-Pick env.is_locked s.rows) h)
      | inr f ↦ simp f h
    ])
    | inr e ↦ simp e h
  ]

  relay_rounds-IsSent :
      (env : ℕ → Round) (n i : ℕ) (s : Outbox P K)
      → IsSent s
      → IsSent (relay_rounds deliver env n i s)
  unfolding relay_rounds
  relay_rounds-IsSent env zero i s h = h
  relay_rounds-IsSent env (suc n) i s h =
      let later = relay_next-IsSent (env i) s h in
      elim (Bool-cases (relay_next deliver (env i) s).0) [
        | inl e ↦ rw e (relay_rounds-IsSent env n (i + 1) (relay_next deliver (env i) s).2 later)
        | inr e ↦ rw e later
      ]

  -- Whatever PostgreSQL and the receiver answer in the rounds of a batch, the ids stay distinct and
  -- the receiver has got the payload of every row that is marked as published.
  pub relay_batch-IsSent :
      (env : ℕ → Round) (s : Outbox P K) → IsSent s → IsSent (relay_batch deliver env s)
  unfolding relay_batch
  relay_batch-IsSent env s h = relay_rounds-IsSent env 20 0 s h
