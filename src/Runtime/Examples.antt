-- ===== src/Runtime/Examples.antt =====
-- Runs of internal/primitives/runtime/fake at concrete inputs.
use minicloud_platform.Prelude.{◌≡◌, refl, some, codes, same}
use minicloud_platform.Runtime.Fake.{Fake, Spec, new, fresh, create, get}
use minicloud_platform.Runtime.Steps.{
  Machine, booted, Reach, here, next, created, Served, get-Served,
}

abbrev spec : Spec
spec = record { id = codes "c1"; name = codes "web"; image = codes "img" }

abbrev with_one : Fake
with_one = (create 5 spec new).0

abbrev one_made : Machine
one_made = record booted { fake = with_one }

abbrev run_one : Reach booted one_made
run_one = next here (created 5 spec refl)

found_one : get (codes "c1") one_made.fake ≡ some (fresh 5 spec).cont
unfolding get create same
found_one = refl

get-Served_example : Served one_made.fake (codes "c1") (fresh 5 spec).cont
get-Served_example = get-Served one_made (codes "c1") (fresh 5 spec).cont run_one found_one
