-- ===== src/Process/Tests.antt =====
-- Two runs of a process whose server fails: it ends without a consumer, and waits with one.
use tf_man.Prelude.{ℕ, ◌≡◌, refl, true, false, none, some, [], ◌∷◌}
use tf_man.Process.{
  server, stopper, background, consumer, returned, running, shutting, server_failed, finish, begin,
  signal, move, State, act, Reach, here, next, payment_worker,
}
use tf_man.Process.Ends.{process_waits}

abbrev failed : State
failed = record {
  signalled = false;
  failure = some server_failed;
  closed = false;
  members = (background, running) ∷ (server, returned) ∷ (stopper, running) ∷ [];
}

abbrev closing : State
closing = record failed {
  closed = true;
  members = (background, running) ∷ (server, returned) ∷ (stopper, shutting) ∷ [];
}

abbrev over : State
over = record {
  signalled = true;
  failure = none;
  closed = true;
  members = (server, returned) ∷ (stopper, returned) ∷ (consumer, returned) ∷ [];
}

over-Reach : Reach payment_worker over
unfolding act
over-Reach =
    next (move 2 finish)
      (next (move 1 finish)
        (next (move 0 finish) (next (move 1 begin) (next signal here refl) refl) refl) refl)
      refl

process_waits_example :
    (true ≡ true → over.signalled ≡ true)
    × (false ≡ true → ◌≡◌ {A = ℕ} 0 1)
    × (over.failure ≡ none → (◌≡◌ {A = ℕ} 0 0) × (over.signalled ≡ true))
process_waits_example = process_waits refl over-Reach refl
