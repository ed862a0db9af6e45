-- ===== src/Process/Sound.antt =====
-- What holds of a process in every reachable state.
use tf_man.Prelude.{
  ℕ, zero, suc, ◌+◌, ◌<◌, ◌≡◌, refl, sym, ap, ◌∙◌, subst, Bool, true, false, ◌&&◌, ◌||◌, Option,
  none, some, List, [], ◌∷◌, map, All, All-imp, map-some, some-injective, arith,
}
use tf_man.Process.{
  Member, server, stopper, background, consumer, Phase, running, shutting, returned, Failure, Move,
  finish, fail, begin, Action, signal, move, State, group_done, member_moves, move_at, first, act,
  start, Reach, here, next, is_returned,
}

abbrev pub is_running : Phase → Bool
is_running running = true
is_running _ = false

-- What is known of a goroutine that has left its first phase.
abbrev pub fits : State → Member × Phase → Bool
fits s (stopper, p) = is_running p || s.closed
fits s (consumer, p) = is_running p || is_returned p && s.signalled
fits s (_, p) = is_running p || is_returned p && group_done s

pub record IsSound (s : State) : Type 0 where
  pub all_fit : All (λ m. fits s m ≡ true) s.members
  pub told : s.closed ≡ true → group_done s ≡ true

-- What a move of one goroutine makes of the state.
abbrev pub after : State → Option Failure → Bool → List (Member × Phase) → State
after s f c ms = record s { failure = first s.failure f; closed = s.closed || c; members = ms }

later :
    (s : State) (f : Option Failure) (c : Bool) (ms : List (Member × Phase)) (m : Member)
    (p : Phase)
    → fits s (m, p) ≡ true
    → fits (after s f c ms) (m, p) ≡ true
later s f c ms server p h = ground arith
later s f c ms stopper p h = ground arith
later s f c ms background p h = ground arith
later s f c ms consumer p h = ground arith

-- The moves that a goroutine may still make.
abbrev pub weight : Member → Phase → ℕ
weight stopper running = 2
weight stopper shutting = 1
weight _ running = 1
weight _ _ = 0

abbrev pub measure : List (Member × Phase) → ℕ
measure [] = 0
measure ((m, p) ∷ ms) = weight m p + measure ms

moved :
    (m : Member) (p q : Phase) (v : Move) (s : State) (f : Option Failure) (c : Bool)
    (ms : List (Member × Phase))
    → (s.closed ≡ true → group_done s ≡ true)
    → fits s (m, p) ≡ true
    → member_moves m p v s ≡ some (q, f, c)
    → (fits (after s f c ms) (m, q) ≡ true)
      × (c ≡ true → group_done s ≡ true)
      × (weight m q < weight m p)
unfolding member_moves
moved server running q finish s f c ms told h e = ground arith
moved server running q fail s f c ms told h e = ground arith
moved server running q begin s f c ms told h e = ground arith
moved server shutting q v s f c ms told h e = ground arith
moved server returned q v s f c ms told h e = ground arith
moved stopper running q finish s f c ms told h e = ground arith
moved stopper running q fail s f c ms told h e = ground arith
moved stopper running q begin s f c ms told h e = ground arith
moved stopper shutting q v s f c ms told h e = ground arith
moved stopper returned q v s f c ms told h e = ground arith
moved background p q v s f c ms told h e = ground arith
moved consumer p q v s f c ms told h e = ground arith

-- The goroutines after a move of one of them.
abbrev pub Moved :
    State
    → List (Member × Phase)
    → List (Member × Phase)
    → Option Failure × Bool × List (Member × Phase)
    → Type 0
Moved s xs ms (f, c, rest) =
    All (λ m. fits (after s f c ms) m ≡ true) rest
    × (c ≡ true → group_done s ≡ true)
    × (measure rest < measure xs)

pub move_at-Moved :
    (i : ℕ) (v : Move) (s : State) (xs ms : List (Member × Phase))
    (r : Option Failure × Bool × List (Member × Phase))
    → (s.closed ≡ true → group_done s ≡ true)
    → move_at i v s xs ≡ some r
    → All (λ m. fits s m ≡ true) xs
    → Moved s xs ms r
unfolding move_at
move_at-Moved i v s [] ms r told e h = absurd (none-ne-some e)
  where
    none-ne-some : none ≡ some r → ⊥
    none-ne-some q = cc
move_at-Moved zero v s ((m, p) ∷ xs) ms r told e (h, hs) =
    let ((q, g, d), found, out) = map-some _ (member_moves m p v s) r e in
    let (ok, tells, less) = moved m p q v s g d ms told h found in
    subst (Moved s ((m, p) ∷ xs) ms) (sym out)
      ((ok, All-imp _ _ xs (λ (n, x). later s g d ms n x) hs), tells, omega (arith, less))
move_at-Moved (suc i) v s ((m, p) ∷ xs) ms r told e (h, hs) =
    let ((g, d, tail), found, out) = map-some _ (move_at i v s xs) r e in
    let (ok, tells, less) = move_at-Moved i v s xs ms (g, d, tail) told found hs in
    subst (Moved s ((m, p) ∷ xs) ms) (sym out)
      ((later s g d ms m p h, ok), tells, omega (arith, less))

abbrev pub kinds : List (Member × Phase) → List Member
kinds xs = map (λ (m, _). m) xs

kinds-move_at :
    (i : ℕ) (v : Move) (s : State) (xs : List (Member × Phase))
    (r : Option Failure × Bool × List (Member × Phase))
    → move_at i v s xs ≡ some r
    → kinds r.2 ≡ kinds xs
unfolding move_at
kinds-move_at i v s [] r e = cc
kinds-move_at zero v s ((m, p) ∷ xs) r e =
    let (a, found, out) = map-some _ (member_moves m p v s) r e in
    ap (λ (y : Option Failure × Bool × List (Member × Phase)). kinds y.2) out
kinds-move_at (suc i) v s ((m, p) ∷ xs) r e =
    let (a, found, out) = map-some _ (move_at i v s xs) r e in
    ap (λ (y : Option Failure × Bool × List (Member × Phase)). kinds y.2) out
    ∙ ap (λ (l : List Member). m ∷ l) (kinds-move_at i v s xs a found)

kinds-start : (ms : List Member) → kinds (map (λ m. (m, running)) ms) ≡ ms
kinds-start [] = refl
kinds-start (m ∷ ms) = ap (λ (l : List Member). m ∷ l) (kinds-start ms)

-- The goroutines of a process are always those that `main` started.
pub kinds-Reach : {members : List Member} {s : State} → Reach members s → kinds s.members ≡ members
unfolding act
kinds-Reach {members} here = kinds-start members
kinds-Reach (next signal r e) =
    ap (λ (x : State). kinds x.members) (sym (some-injective e)) ∙ kinds-Reach r
kinds-Reach (next {s} (move i v) r e) =
    let (a, found, out) = map-some _ (move_at i v s s.members) _ e in
    ap (λ (x : State). kinds x.members) out ∙ kinds-move_at i v s s.members a found ∙ kinds-Reach r

signalled_fits :
    (s : State) (m : Member) (p : Phase)
    → fits s (m, p) ≡ true
    → fits (record s { signalled = true }) (m, p) ≡ true
signalled_fits s server p h = ground arith
signalled_fits s stopper p h = ground arith
signalled_fits s background p h = ground arith
signalled_fits s consumer p h = ground arith

told_after :
    (s : State) (f : Option Failure) (c : Bool) (ms : List (Member × Phase))
    → (s.closed ≡ true → group_done s ≡ true)
    → (c ≡ true → group_done s ≡ true)
    → (after s f c ms).closed ≡ true
    → group_done (after s f c ms) ≡ true
told_after s f c ms told tells h = ground arith

act-IsSound : (a : Action) (s t : State) → IsSound s → act a s ≡ some t → IsSound t
unfolding act
act-IsSound signal s t h e = subst IsSound (some-injective e) (record {
  all_fit = All-imp _ _ s.members (λ (m, p). signalled_fits s m p) h.all_fit;
  told = λ closed. refl;
})
act-IsSound (move i v) s t h e =
    let ((f, c, ms), found, out) = map-some _ (move_at i v s s.members) t e in
    let (ok, tells, less) = move_at-Moved i v s s.members ms (f, c, ms) h.told found h.all_fit in
    subst IsSound (sym out) (record { all_fit = ok; told = told_after s f c ms h.told tells })

start-fits :
    (s : State) (ms : List Member) → All (λ m. fits s m ≡ true) (map (λ m. (m, running)) ms)
start-fits s [] = tt
start-fits s (server ∷ ms) = (refl, start-fits s ms)
start-fits s (stopper ∷ ms) = (refl, start-fits s ms)
start-fits s (background ∷ ms) = (refl, start-fits s ms)
start-fits s (consumer ∷ ms) = (refl, start-fits s ms)

pub Reach-IsSound : {members : List Member} {s : State} → Reach members s → IsSound s
Reach-IsSound {members} here = record {
  all_fit = start-fits (start members) members;
  told = λ h. cc;
}
Reach-IsSound (next a r e) = act-IsSound a _ _ (Reach-IsSound r) e
