-- ===== src/Gateway/Hub/Fine.antt =====
-- What holds of the hub in every reachable state.
use tf_man.Prelude.{
  ℕ, zero, suc, ◌≤◌, ◌≡◌, refl, sym, subst, ap, ◌∙◌, Bool, true, false, not, ◌||◌, some, List, [],
  ◌∷◌, ◌++◌, length, length-append, map, any, ltb, All, if_cases, map-some, some-injective, arith,
}
use mathlib.Core.List.{append_assoc, append-nil}
use tf_man.Gateway.Hub.{
  Writer, ranging, writing, Reader, Client, State, capacity, Move, take, write, fail,
  writer_unregister, writer_close, reader_unregister, Action, join, broadcast, move, register,
  accept, refuse, receive, offer, offer_panics, writer_moves, reader_moves, client_moves,
  move_panics, move_at, act, Reach, here, next,
}

abbrev has_stopped : Reader → Bool
has_stopped Reader.closing = true
has_stopped Reader.ended = true
has_stopped _ = false

module _ {M : Type 0} where
  -- The first list is the second with some members left out.
  pub data IsPart : List M → List M → Type 0 where
    nil : IsPart [] []
    keep : {xs ys : List M} (m : M) → IsPart xs ys → IsPart (m ∷ xs) (m ∷ ys)
    skip : {xs ys : List M} (m : M) → IsPart xs ys → IsPart xs (m ∷ ys)

  IsPart-keep_last : {xs ys : List M} (m : M) → IsPart xs ys → IsPart (xs ++ m ∷ []) (ys ++ m ∷ [])
  IsPart-keep_last m nil = keep m nil
  IsPart-keep_last m (keep x p) = keep x (IsPart-keep_last m p)
  IsPart-keep_last m (skip x p) = skip x (IsPart-keep_last m p)

  IsPart-skip_last : {xs ys : List M} (m : M) → IsPart xs ys → IsPart xs (ys ++ m ∷ [])
  IsPart-skip_last m nil = skip m nil
  IsPart-skip_last m (keep x p) = keep x (IsPart-skip_last m p)
  IsPart-skip_last m (skip x p) = skip x (IsPart-skip_last m p)

  -- The messages that a client got or may still get, oldest first.
  abbrev pub received : Client M → List M
  received c = c.written ++ c.unwritten ++ c.buffer

  abbrev has_left : Writer M → Bool
  has_left Writer.closing = true
  has_left Writer.ended = true
  has_left _ = false

  pub record IsFine (c : Client M) : Type 0 where
    pub one_close : c.is_closed ≡ not c.is_registered
    pub fits : length c.buffer ≤ capacity
    pub in_order : IsPart (received c) c.offered
    pub complete : c.has_dropped ≡ false → received c ≡ c.offered
    pub rests : c.writer ≡ ranging → c.unwritten ≡ []
    pub holds : (m : M) → c.writer ≡ writing m → c.unwritten ≡ m ∷ []
    pub gone : has_left c.writer || has_stopped c.reader ≡ true → c.is_registered ≡ false

  accept-IsFine :
      (msg : M) (c : Client M)
      → IsFine c
      → c.is_registered ≡ true
      → ltb (length c.buffer) capacity ≡ true
      → IsFine (accept msg c)
  unfolding accept
  accept-IsFine msg c v e f = record {
    one_close = v.one_close;
    fits = ground (arith, length-append c.buffer (msg ∷ []));
    in_order =
        rw (← append_assoc (c.written ++ c.unwritten) c.buffer (msg ∷ []))
          (IsPart-keep_last msg v.in_order);
    complete = λ h.
        sym (append_assoc (c.written ++ c.unwritten) c.buffer (msg ∷ []))
        ∙ ap (λ (l : List M). l ++ msg ∷ []) (v.complete h);
    rests = v.rests;
    holds = v.holds;
    gone = v.gone;
  }

  refuse-IsFine : (msg : M) (c : Client M) → IsFine c → IsFine (refuse msg c)
  unfolding refuse
  refuse-IsFine msg c v = record {
    one_close = v.one_close;
    fits = v.fits;
    in_order = IsPart-skip_last msg v.in_order;
    complete = λ h. cc;
    rests = v.rests;
    holds = v.holds;
    gone = v.gone;
  }

  offer-IsFine : (msg : M) (c : Client M) → IsFine c → IsFine (offer msg c)
  unfolding offer
  offer-IsFine msg c v =
      if_cases IsFine c.is_registered
        (λ e.
          if_cases IsFine (ltb (length c.buffer) capacity) (accept-IsFine msg c v e)
            (λ _. refuse-IsFine msg c v))
        (λ _. v)

  -- A move that leaves the messages of a client as they are.
  record Kept (c d : Client M) : Type 0 where
    messages : received d ≡ received c
    offers : d.offered ≡ c.offered
    drops : d.has_dropped ≡ c.has_dropped

  take_shift :
      (w : List M) (msg : M) (rest : List M) → (w ++ msg ∷ []) ++ rest ≡ (w ++ []) ++ msg ∷ rest
  take_shift w msg rest =
      append_assoc w (msg ∷ []) rest ∙ ap (λ (l : List M). l ++ msg ∷ rest) (sym (append-nil w))

  receive-Kept :
      (buffer : List M) (c d : Client M)
      → c.buffer ≡ buffer
      → c.unwritten ≡ []
      → receive buffer c ≡ some d
      → Kept c d
  unfolding receive
  receive-Kept [] c d e f h = record {
    messages = ground arith;
    offers = ground arith;
    drops = ground arith;
  }
  receive-Kept (msg ∷ rest) c d e f h = record {
    messages = ground (arith, take_shift c.written msg rest);
    offers = ground arith;
    drops = ground arith;
  }

  writer_moves-Kept :
      (w : Writer M) (m : Move) (c d : Client M)
      → IsFine c
      → c.writer ≡ w
      → writer_moves w m c ≡ some d
      → Kept c d
  unfolding writer_moves
  writer_moves-Kept ranging take c d v h e = receive-Kept c.buffer c d refl (v.rests h) e
  writer_moves-Kept (writing msg) write c d v h e = record {
    messages = ground (arith, v.holds msg h, append-nil (c.written ++ msg ∷ []));
    offers = ground arith;
    drops = ground arith;
  }
  writer_moves-Kept w m c d v h e = record {
    messages = ground arith;
    offers = ground arith;
    drops = ground arith;
  }

  client_moves-Kept : (m : Move) (c d : Client M) → IsFine c → client_moves m c ≡ some d → Kept c d
  unfolding client_moves reader_moves
  client_moves-Kept take c d v e = writer_moves-Kept c.writer take c d v refl e
  client_moves-Kept write c d v e = writer_moves-Kept c.writer write c d v refl e
  client_moves-Kept fail c d v e = writer_moves-Kept c.writer fail c d v refl e
  client_moves-Kept writer_unregister c d v e =
      writer_moves-Kept c.writer writer_unregister c d v refl e
  client_moves-Kept writer_close c d v e = writer_moves-Kept c.writer writer_close c d v refl e
  client_moves-Kept m c d v e = record {
    messages = ground arith;
    offers = ground arith;
    drops = ground arith;
  }

  client_moves-IsFine :
      (m : Move) (c d : Client M) → IsFine c → client_moves m c ≡ some d → IsFine d
  unfolding client_moves
  client_moves-IsFine m c d v e = record {
    one_close = ground (arith, v.one_close);
    fits = ground (arith, v.fits);
    in_order =
        subst (λ (l : List M). IsPart l d.offered) (sym k.messages)
          (subst (IsPart (received c)) (sym k.offers) v.in_order);
    complete = λ h. k.messages ∙ v.complete (sym k.drops ∙ h) ∙ sym k.offers;
    rests = λ h. ground (arith, v.rests);
    holds = λ x h. ground (arith, v.holds x);
    gone = λ h. ground (arith, v.gone);
  }
    where
      k : Kept c d
      k = client_moves-Kept m c d v e

  -- The invariant of the hub, and no panic.
  pub record IsSafe (s : State M) : Type 0 where
    pub fine : All IsFine s.clients
    pub calm : s.panicked ≡ false

  register-IsFine : IsFine register
  register-IsFine = record {
    one_close = refl;
    fits = omega arith;
    in_order = nil;
    complete = λ h. refl;
    rests = λ h. refl;
    holds = λ m h. cc;
    gone = λ h. cc;
  }

  calm-offers : (cs : List (Client M)) → All IsFine cs → any offer_panics cs ≡ false
  calm-offers [] h = refl
  calm-offers (c ∷ cs) (v, h) = ground (arith, v.one_close, calm-offers cs h)

  offers-IsFine : (msg : M) (cs : List (Client M)) → All IsFine cs → All IsFine (map (offer msg) cs)
  offers-IsFine msg [] h = tt
  offers-IsFine msg (c ∷ cs) (v, h) = (offer-IsFine msg c v, offers-IsFine msg cs h)

  calm-move : (m : Move) (c : Client M) → IsFine c → move_panics m c ≡ false
  calm-move writer_unregister c v = ground (arith, v.one_close)
  calm-move reader_unregister c v = ground (arith, v.one_close)
  calm-move m c v = refl

  move_at-IsFine :
      (i : ℕ) (m : Move) (cs ds : List (Client M)) (p : Bool)
      → All IsFine cs
      → move_at i m cs ≡ some (p, ds)
      → (p ≡ false) × All IsFine ds
  unfolding move_at
  move_at-IsFine i m [] ds p h e = absurd (ground arith)
  move_at-IsFine zero m (c ∷ cs) ds p (v, h) e =
      let (d, f, out) = map-some _ (client_moves m c) _ e in
      (
        ap (λ (r : Bool × List (Client M)). r.0) out ∙ calm-move m c v,
        subst (λ (r : Bool × List (Client M)). All IsFine r.1) (sym out)
            (client_moves-IsFine m c d v f, h),
      )
  move_at-IsFine (suc i) m (c ∷ cs) ds p (v, h) e =
      let ((q, rest), f, out) = map-some _ (move_at i m cs) _ e in
      let (calm, fine) = move_at-IsFine i m cs rest q h f in
      (
        ap (λ (r : Bool × List (Client M)). r.0) out ∙ calm,
        subst (λ (r : Bool × List (Client M)). All IsFine r.1) (sym out) (v, fine),
      )

  act-IsSafe : (a : Action M) (s t : State M) → IsSafe s → act a s ≡ some t → IsSafe t
  unfolding act
  act-IsSafe join s t v e =
      subst IsSafe (some-injective e) record { fine = (register-IsFine, v.fine); calm = v.calm }
  act-IsSafe (broadcast msg) s t v e = subst IsSafe (some-injective e) record {
    fine = offers-IsFine msg s.clients v.fine;
    calm = ground (arith, v.calm, calm-offers s.clients v.fine);
  }
  act-IsSafe (move i m) s t v e =
      let ((p, cs), f, out) = map-some _ (move_at i m s.clients) _ e in
      let (calm, fine) = move_at-IsFine i m s.clients cs p v.fine f in
      subst IsSafe (sym out) record { fine = fine; calm = ground (arith, v.calm, calm) }

  -- In every reachable state of the hub: no goroutine ever sent on a closed channel or closed one
  -- twice; no channel holds more than 16 messages; every client got, or may still get, in the order
  -- of the broadcasts since it joined, all of them if none was dropped and else some; and a client
  -- with a goroutine that ran its deferred `unregister` is no longer registered.
  pub Reach-IsSafe : {s : State M} → Reach s → IsSafe s
  Reach-IsSafe here = record { fine = tt; calm = refl }
  Reach-IsSafe (next a r e) = act-IsSafe a _ _ (Reach-IsSafe r) e
