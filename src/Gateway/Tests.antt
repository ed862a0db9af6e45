-- ===== src/Gateway/Tests.antt =====
-- A broadcast to one client, and a request that is passed on.
use Prim.Native.String.{String}
use mathlib.Core.List
use tf_man.Prelude.{◌≡◌, ◌≤◌, ◌⊎◌, refl, true, false, some, []}
use tf_man.Gateway.Hub.{State, register, act}
use tf_man.Gateway.Feed.{
  Gateway, listening, check, stop, receive, connect, cancel, turn, opened, failed, ended, happens,
}
use tf_man.Gateway.Feed
use tf_man.Gateway.Feed.Heard.{IsHeard, Reach-IsHeard}
use tf_man.Gateway.Feed.Stops.{is_own, Run, none_left, step, CanGoOn, subscription_ends}
use tf_man.Gateway.Proxy.{head, product, gateway_route}

abbrev told : State String
told = record {
  clients =
      List.◌∷◌
        (record register {
          buffer = List.◌∷◌ "tea: 3" List.[];
          offered = List.◌∷◌ "tea: 3" List.[];
        })
        List.[];
  panicked = false;
}

-- A client from the one origin that is allowed, and a message for it.
abbrev site : String
site = "https://shop"

abbrev fed : Gateway String
fed = record { hub = told; phase = listening; is_done = false; heard = List.◌∷◌ "tea: 3" List.[] }

reaches_fed : Feed.Reach site fed
unfolding happens act
reaches_fed =
    Feed.next (turn (receive "tea: 3"))
      (Feed.next (turn check) (Feed.next (connect site true) Feed.here refl) refl) refl

Reach-IsHeard_example : IsHeard fed
Reach-IsHeard_example = Reach-IsHeard reaches_fed

abbrev done : Gateway String
done = record fed { is_done = true }

abbrev left : Gateway String
left = record done { phase = failed }

stops : Run site done 1 left
unfolding happens is_own
stops = step (turn stop) refl none_left

subscription_ends_example : (1 ≤ 3) × ((left.phase ≡ ended) ⊎ CanGoOn site left)
subscription_ends_example = subscription_ends refl stops

abbrev path : List.List String
path = List.◌∷◌ "catalog" (List.◌∷◌ "u7" List.[])

routed : gateway_route head path ≡ some product
unfolding gateway_route
routed = refl
