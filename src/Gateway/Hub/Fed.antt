-- ===== src/Gateway/Hub/Fed.antt =====
-- What each client was offered of the messages that were broadcast.
use mathlib.Core.List.{append_assoc, append-nil}
use tf_man.Prelude.{
  ℕ, zero, suc, ◌≡◌, refl, sym, subst, ap, ◌∙◌, Bool, true, false, some, List, [], ◌∷◌, ◌++◌, map,
  All, map-some, some-injective, arith, Bool-cases, inl, inr,
}
use tf_man.Gateway.Hub.{
  Writer, ranging, Client, State, Move, take, write, fail, writer_unregister, writer_close, join,
  broadcast, move, register, accept, refuse, receive, offer, unregister, writer_moves, reader_moves,
  client_moves, move_at, act,
}

module _ {M : Type 0} where
  -- What a client was offered is a run of the messages, up to the last one while the hub has the client.
  pub record IsFed (sent : List M) (c : Client M) : Type 0 where
    pub earlier : List M
    pub later : List M
    pub run : sent ≡ earlier ++ c.offered ++ later
    pub up_to_now : c.is_registered ≡ true → later ≡ []

  pub register-IsFed : (sent : List M) → IsFed sent register
  register-IsFed sent = record {
    earlier = sent;
    later = [];
    run = sym (append-nil (sent ++ []) ∙ append-nil sent);
    up_to_now = λ _. refl;
  }

  offer_registered :
      (msg : M) (c : Client M)
      → c.is_registered ≡ true
      → (offer msg c).offered ≡ c.offered ++ msg ∷ []
  unfolding offer accept refuse
  offer_registered msg c e = ground arith

  is_registered-offer : (msg : M) (c : Client M) → (offer msg c).is_registered ≡ c.is_registered
  unfolding offer accept refuse
  is_registered-offer msg c = ground arith

  offer_gone : (msg : M) (c : Client M) → c.is_registered ≡ false → offer msg c ≡ c
  unfolding offer
  offer_gone msg c e = rw e refl

  -- One more message, offered or missed.
  run_on :
      (sent earlier offered later : List M) (msg : M)
      → sent ≡ earlier ++ offered ++ later
      → sent ++ msg ∷ [] ≡ earlier ++ offered ++ (later ++ msg ∷ [])
  run_on sent earlier offered later msg e =
      ap (λ (l : List M). l ++ msg ∷ []) e ∙ append_assoc (earlier ++ offered) later (msg ∷ [])

  offer-IsFed :
      (sent : List M) (msg : M) (c : Client M)
      → IsFed sent c
      → IsFed (sent ++ msg ∷ []) (offer msg c)
  offer-IsFed sent msg c v = elim (Bool-cases c.is_registered) [
    | inl e ↦ record {
      earlier = v.earlier;
      later = [];
      run =
          run_on sent v.earlier c.offered [] msg
            (v.run ∙ ap (λ (l : List M). v.earlier ++ c.offered ++ l) (v.up_to_now e))
          ∙ append_assoc v.earlier c.offered (msg ∷ [])
          ∙ ap (λ (l : List M). v.earlier ++ l) (sym (offer_registered msg c e))
          ∙ sym (append-nil (v.earlier ++ (offer msg c).offered));
      up_to_now = λ _. refl;
    }
    | inr e ↦ record {
      earlier = v.earlier;
      later = v.later ++ msg ∷ [];
      run = rw (offer_gone msg c e) (run_on sent v.earlier c.offered v.later msg v.run);
      up_to_now = λ h. absurd (ground (arith, is_registered-offer msg c));
    }
  ]

  -- No move of a client changes what it was offered, or registers it.
  record Stays (c d : Client M) : Type 0 where
    offers : d.offered ≡ c.offered
    registers : d.is_registered ≡ true → c.is_registered ≡ true

  receive-Stays : (buffer : List M) (c d : Client M) → receive buffer c ≡ some d → Stays c d
  unfolding receive
  receive-Stays [] c d e = record { offers = ground arith; registers = λ h. ground arith }
  receive-Stays (msg ∷ rest) c d e = record { offers = ground arith; registers = λ h. ground arith }

  writer_moves-Stays :
      (w : Writer M) (m : Move) (c d : Client M) → writer_moves w m c ≡ some d → Stays c d
  unfolding writer_moves unregister
  writer_moves-Stays ranging take c d e = receive-Stays c.buffer c d e
  writer_moves-Stays w m c d e = record { offers = ground arith; registers = λ h. ground arith }

  client_moves-Stays : (m : Move) (c d : Client M) → client_moves m c ≡ some d → Stays c d
  unfolding client_moves reader_moves unregister
  client_moves-Stays take c d e = writer_moves-Stays c.writer take c d e
  client_moves-Stays write c d e = writer_moves-Stays c.writer write c d e
  client_moves-Stays fail c d e = writer_moves-Stays c.writer fail c d e
  client_moves-Stays writer_unregister c d e = writer_moves-Stays c.writer writer_unregister c d e
  client_moves-Stays writer_close c d e = writer_moves-Stays c.writer writer_close c d e
  client_moves-Stays m c d e = record { offers = ground arith; registers = λ h. ground arith }

  client_moves-IsFed :
      (sent : List M) (m : Move) (c d : Client M)
      → IsFed sent c
      → client_moves m c ≡ some d
      → IsFed sent d
  client_moves-IsFed sent m c d v e =
      let k = client_moves-Stays m c d e in
      record {
        earlier = v.earlier;
        later = v.later;
        run = v.run ∙ ap (λ (l : List M). v.earlier ++ l ++ v.later) (sym k.offers);
        up_to_now = λ h. v.up_to_now (k.registers h);
      }

  offers-IsFed :
      (sent : List M) (msg : M) (cs : List (Client M))
      → All (IsFed sent) cs
      → All (IsFed (sent ++ msg ∷ [])) (map (offer msg) cs)
  offers-IsFed sent msg [] h = tt
  offers-IsFed sent msg (c ∷ cs) (v, h) = (offer-IsFed sent msg c v, offers-IsFed sent msg cs h)

  move_at-IsFed :
      (sent : List M) (i : ℕ) (m : Move) (cs ds : List (Client M)) (p : Bool)
      → All (IsFed sent) cs
      → move_at i m cs ≡ some (p, ds)
      → All (IsFed sent) ds
  unfolding move_at
  move_at-IsFed sent i m [] ds p h e = absurd (ground arith)
  move_at-IsFed sent zero m (c ∷ cs) ds p (v, h) e =
      let (d, f, out) = map-some _ (client_moves m c) _ e in
      subst (λ (r : Bool × List (Client M)). All (IsFed sent) r.1) (sym out)
        (client_moves-IsFed sent m c d v f, h)
  move_at-IsFed sent (suc i) m (c ∷ cs) ds p (v, h) e =
      let ((q, rest), f, out) = map-some _ (move_at i m cs) _ e in
      subst (λ (r : Bool × List (Client M)). All (IsFed sent) r.1) (sym out)
        (v, move_at-IsFed sent i m cs rest q h f)

  abbrev pub AreFed : List M → State M → Type 0
  AreFed sent s = All (IsFed sent) s.clients

  pub join-AreFed :
      (sent : List M) (s t : State M) → AreFed sent s → act join s ≡ some t → AreFed sent t
  unfolding act
  join-AreFed sent s t v e = subst (AreFed sent) (some-injective e) (register-IsFed sent, v)

  pub broadcast-AreFed :
      (sent : List M) (msg : M) (s t : State M)
      → AreFed sent s
      → act (broadcast msg) s ≡ some t
      → AreFed (sent ++ msg ∷ []) t
  unfolding act
  broadcast-AreFed sent msg s t v e =
      subst (AreFed (sent ++ msg ∷ [])) (some-injective e) (offers-IsFed sent msg s.clients v)

  pub move-AreFed :
      (sent : List M) (i : ℕ) (m : Move) (s t : State M)
      → AreFed sent s
      → act (move i m) s ≡ some t
      → AreFed sent t
  unfolding act
  move-AreFed sent i m s t v e =
      let ((p, cs), f, out) = map-some _ (move_at i m s.clients) _ e in
      subst (AreFed sent) (sym out) (move_at-IsFed sent i m s.clients cs p v f)
