-- ===== src/Autoscale/Examples.antt =====
-- Evaluations of internal/autoscale at concrete inputs. Usage is a whole percentage here.
use minicloud_platform.Prelude.{ℕ, ◌/◌, ◌≡◌, refl, true, some, [], arith, ltb, codes, lookup}
use minicloud_platform.Autoscale.Policies.{Usage, Policy, Spec, Controller, scaled, evaluate_one}
use minicloud_platform.Autoscale.Limits.{IsSane, Keeps, evaluate_one-Keeps}

abbrev percent : Usage
percent = record { F = ℕ; half = λ a. a / 2; above = λ a b. ltb b a }

abbrev policy : Policy percent
policy = record {
  min = 1;
  max = 5;
  target_cpu = 60;
  scale_up_by = 2;
  scale_down_by = 1;
  cooldown = 30;
}

abbrev web : Spec percent
web = record { project_id = codes "p"; workload_id = codes "w"; policy = policy; updated_at = 0 }

abbrev fresh : Controller percent
fresh = record { specs = []; last_at_on = [] }

sane : IsSane percent policy
sane = record {
  ordered = omega arith;
  max_small = omega arith;
  up_small = omega arith;
  down_small = omega arith;
}

-- four replicas that are busy become five
scaled_up : (evaluate_one percent 100 90 true web (some 4) fresh).0 ≡ scaled 5
unfolding evaluate_one lookup
scaled_up = refl

evaluate_one-Keeps_example :
    Keeps percent policy 4 (evaluate_one percent 100 90 true web (some 4) fresh).0
evaluate_one-Keeps_example =
    evaluate_one-Keeps percent 100 90 true web 4 fresh sane (omega arith) (omega arith)
