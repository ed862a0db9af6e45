-- ===== src/Process/Ends.antt =====
-- How a process ends.
use tf_man.Prelude.{
  ℕ, suc, ◌≡◌, ◌⊎◌, inl, inr, sym, subst, Bool, true, false, not, none, some, List, [], ◌∷◌, any,
  All, is_some, Bool-cases, if◌then◌else◌, some-injective, arith,
}
use tf_man.Process.{
  Member, server, stopper, background, consumer, Phase, Move, move, State, group_done, move_at, act,
  Reach, is_returned, exit_status,
}
use tf_man.Process.Sound.{fits, kinds, kinds-Reach, Reach-IsSound}

-- Some goroutine can make a move.
abbrev pub CanMove : State → Type 0
CanMove s = (i : ℕ) × (v : Move) × (is_some (act (move i v) s) ≡ true)

abbrev pub is_stopper : Member → Bool
is_stopper stopper = true
is_stopper _ = false

abbrev pub is_consumer : Member → Bool
is_consumer consumer = true
is_consumer _ = false

abbrev pub unreturned : List (Member × Phase) → Bool
unreturned ms = any (λ (_, p). not (is_returned p)) ms

abbrev CanMoveAt : State → List (Member × Phase) → Type 0
CanMoveAt s xs = (i : ℕ) × (v : Move) × (is_some (move_at i v s xs) ≡ true)

-- Moves of goroutines, one after another.
pub data Moves (s : State) : ℕ → State → Type 0 where
  none_yet : Moves s 0 s
  one_more :
      {n : ℕ} {t u : State} (i : ℕ) (v : Move)
      → Moves s n t
      → act (move i v) t ≡ some u
      → Moves s (suc n) u

-- A signal, or a failure where no goroutine waits for the signal.
abbrev pub IsEnding : List Member → State → Type 0
IsEnding members s =
    (s.signalled ≡ true) ⊎ ((is_some s.failure ≡ true) × (any is_consumer members ≡ false))

-- What is known once every goroutine has returned.
abbrev Known : State → List Member → Type 0
Known s ms =
    (any is_consumer ms ≡ true → s.signalled ≡ true)
    × (any is_stopper ms ≡ true → group_done s ≡ true)

returned-Known :
    (s : State) (xs : List (Member × Phase))
    → (s.closed ≡ true → group_done s ≡ true)
    → All (λ m. fits s m ≡ true) xs
    → unreturned xs ≡ false
    → Known s (kinds xs)
returned-Known s [] told h over = (λ e. cc, λ e. cc)
returned-Known s ((server, p) ∷ xs) told (h, hs) over =
    returned-Known s xs told hs (ground (arith, over))
returned-Known s ((background, p) ∷ xs) told (h, hs) over =
    returned-Known s xs told hs (ground (arith, over))
returned-Known s ((stopper, p) ∷ xs) told (h, hs) over =
    ((returned-Known s xs told hs (ground (arith, over))).0, λ e. ground (arith, over, told, h))
returned-Known s ((consumer, p) ∷ xs) told (h, hs) over =
    (λ e. ground (arith, over, h), (returned-Known s xs told hs (ground (arith, over))).1)

status_over :
    (s : State) (n : ℕ)
    → exit_status s ≡ some n
    → (unreturned s.members ≡ false) × (n ≡ (if is_some s.failure then 1 else 0))
status_over s n e = elim (Bool-cases (unreturned s.members)) [
  | inl left ↦ absurd (none-ne-some (rw left at e))
  | inr over ↦ (over, some-injective (sym (rw over at e)))
]
  where
    none-ne-some : none ≡ some n → ⊥
    none-ne-some q = cc

-- A process with a consumer does not exit before it is signalled, whichever of its goroutines failed.
-- One with a goroutine that shuts its server down exits with 1 where one of its goroutines failed, and
-- with 0 where none did, and then it was signalled.
pub process_waits :
    {members : List Member} {s : State} {n : ℕ}
    → any is_stopper members ≡ true
    → Reach members s
    → exit_status s ≡ some n
    → (any is_consumer members ≡ true → s.signalled ≡ true)
      × (is_some s.failure ≡ true → n ≡ 1)
      × (s.failure ≡ none → (n ≡ 0) × (s.signalled ≡ true))
process_waits {members} {s} {n} has r e =
    let h = Reach-IsSound r in
    let (over, status) = status_over s n e in
    let (signals, dones) =
      subst (Known s) (kinds-Reach r) (returned-Known s s.members h.told h.all_fit over) in
    (
      signals,
      λ f. ground (arith, status, f),
      λ f. (ground (arith, status, f), ground (arith, dones has, f)),
    )
