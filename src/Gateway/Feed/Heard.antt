-- ===== src/Gateway/Feed/Heard.antt =====
-- What the clients of the hub get of the messages that Redis delivers.
use mathlib.Core.List.{append-nil}
use tf_man.Prelude.{
  String, ◌≡◌, sym, subst, ap, ◌∙◌, true, false, ◌&&◌, some, List, [], ◌∷◌, ◌++◌, All, map-some,
  some-injective, arith, Bool-cases, inl, inr,
}
use tf_man.Gateway.Hub.{Client, State, join, broadcast, move, act}
use tf_man.Gateway.Hub
use tf_man.Gateway.Hub.Fine.{received, IsFine, IsSafe, Reach-IsSafe}
use tf_man.Gateway.Hub.Fed.{IsFed, AreFed, join-AreFed, broadcast-AreFed, move-AreFed}
use tf_man.Gateway.Feed.{
  Gateway, Subscriber, listening, Turn, receive, Step, connect, client, cancel, turn, check_origin,
  subscriber_moves, happens, Reach, here, next,
}

module _ {M : Type 0} where
  -- A client that the hub has and that missed no message got, or may still get, all messages from some
  -- point on.
  abbrev pub KeepsUp : List M → Client M → Type 0
  KeepsUp heard c =
      c.is_registered ≡ true
      → c.has_dropped ≡ false
      → (earlier : List M) × (heard ≡ earlier ++ received c)

  pub record IsHeard (g : Gateway M) : Type 0 where
    pub safe : IsSafe g.hub
    pub fed : AreFed g.heard g.hub
    pub keep_up : All (KeepsUp g.heard) g.hub.clients

  record IsInStep (g : Gateway M) : Type 0 where
    reached : Hub.Reach g.hub
    fed : AreFed g.heard g.hub

  IsInStep-kept : (g h : Gateway M) → IsInStep g → h.hub ≡ g.hub → h.heard ≡ g.heard → IsInStep h
  IsInStep-kept g h v e f = record {
    reached = subst Hub.Reach (sym e) v.reached;
    fed = subst (λ sent. AreFed sent h.hub) (sym f) (subst (AreFed g.heard) (sym e) v.fed);
  }

  subscriber_moves-IsInStep :
      (p : Subscriber) (t : Turn M) (g h : Gateway M)
      → IsInStep g
      → subscriber_moves p t g ≡ some h
      → IsInStep h
  unfolding subscriber_moves
  subscriber_moves-IsInStep listening (receive msg) g h v e =
      let (hub, f, out) = map-some _ (act (broadcast msg) g.hub) _ e in
      subst IsInStep (sym out) record {
        reached = Hub.next (broadcast msg) v.reached f;
        fed = broadcast-AreFed g.heard msg g.hub hub v.fed f;
      }
  subscriber_moves-IsInStep p t g h v e = IsInStep-kept g h v (ground arith) (ground arith)

  happens-IsInStep :
      (allowed : String) (e : Step M) (g h : Gateway M)
      → IsInStep g
      → happens allowed e g ≡ some h
      → IsInStep h
  unfolding happens
  happens-IsInStep allowed (connect origin upgrades) g h v e =
      elim (Bool-cases (check_origin allowed origin && upgrades)) [
        | inl lets ↦
            let (hub, f, out) = map-some _ (act join g.hub) _ (rw lets at e) in
            subst IsInStep (sym out) record {
              reached = Hub.next join v.reached f;
              fed = join-AreFed g.heard g.hub hub v.fed f;
            }
        | inr refuses ↦ subst IsInStep (some-injective (rw refuses at e)) v
      ]
  happens-IsInStep allowed (client i m) g h v e =
      let (hub, f, out) = map-some _ (act (move i m) g.hub) _ e in
      subst IsInStep (sym out) record {
        reached = Hub.next (move i m) v.reached f;
        fed = move-AreFed g.heard i m g.hub hub v.fed f;
      }
  happens-IsInStep allowed cancel g h v e =
      subst IsInStep (some-injective e) record { reached = v.reached; fed = v.fed }
  happens-IsInStep allowed (turn t) g h v e = subscriber_moves-IsInStep g.phase t g h v e

  Reach-IsInStep : {allowed : String} {g : Gateway M} → Reach allowed g → IsInStep g
  Reach-IsInStep here = record { reached = Hub.here; fed = tt }
  Reach-IsInStep (next e r f) = happens-IsInStep _ e _ _ (Reach-IsInStep r) f

  keeps_up :
      (heard : List M) (cs : List (Client M))
      → All IsFine cs
      → All (IsFed heard) cs
      → All (KeepsUp heard) cs
  keeps_up heard [] fine fed = tt
  keeps_up heard (c ∷ cs) (v, fine) (f, fed) = (
    λ is_in whole. (
      f.earlier,
      f.run
          ∙ ap (λ (l : List M). f.earlier ++ c.offered ++ l) (f.up_to_now is_in)
          ∙ append-nil (f.earlier ++ c.offered)
          ∙ ap (λ (l : List M). f.earlier ++ l) (sym (v.complete whole)),
    ),
    keeps_up heard cs fine fed,
  )

  -- In every state that the gateway reaches, whatever origins it allows: the hub is safe; what a client
  -- was offered is a run, in order and without gaps, of the messages that Redis delivered, and up to the
  -- last one while the hub has the client; and such a client that missed no message got, or may still
  -- get, all messages from some point on.
  pub Reach-IsHeard : {allowed : String} {g : Gateway M} → Reach allowed g → IsHeard g
  Reach-IsHeard r =
      let v = Reach-IsInStep r in
      let safe = Reach-IsSafe v.reached in
      record { safe = safe; fed = v.fed; keep_up = keeps_up _ _ safe.fine v.fed }
