-- ===== src/Sentry/SelfHealer.antt =====
-- sentry/lambdas/self-healer/main.go: the handler that puts an ECS service back to its desired count.
use tf_man.Prelude.{Bool, Option, none, some, List, [], ◌∷◌, ℤ, int32, leb_ℤ, if◌then◌else◌}
use tf_man.Net.{Answer, done, refused, lost}

pub data HealError : Type 0 where
  bad_count no_config describe_failed not_found update_failed : HealError

-- `UpdateService`, on the desired count that ECS has for the service.
update_service : Answer → ℤ → ℤ → Option HealError × ℤ
update_service done count old = (none, int32 count)
update_service refused count old = (some update_failed, old)
update_service lost count old = (some update_failed, int32 count)

-- On the running counts of the services that ECS describes.
heal : Answer → ℤ → List ℤ → ℤ → Option HealError × ℤ
unfolding update_service
heal answer count [] old = (some not_found, old)
heal answer count (running ∷ _) old =
    if leb_ℤ count running then (none, old) else update_service answer count old

describe : Answer → ℤ → Option (List ℤ) → ℤ → Option HealError × ℤ
unfolding heal
describe answer count none old = (some describe_failed, old)
describe answer count (some services) old = heal answer count services old

-- `count` is the parsed DESIRED_COUNT (`none` where `strconv.Atoi` fails), `loads` whether the AWS
-- configuration loads, `services` the answer of `DescribeServices`.
unfoldable pub handler : Option ℤ → Bool → Option (List ℤ) → Answer → ℤ → Option HealError × ℤ
unfolding describe
handler none loads services answer old = (some bad_count, old)
handler (some count) loads services answer old =
    if loads then describe answer count services old else (some no_config, old)
