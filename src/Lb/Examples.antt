-- ===== src/Lb/Examples.antt =====
-- Picks of internal/lb at concrete inputs.
use minicloud_platform.Prelude.{ℕ, ◌≡◌, refl, Bool, true, false, List, [], ◌∷◌, codes}
use minicloud_platform.Lb.Balancer.{round_robin, least_connections, Backend, pick, picked, panicked}
use minicloud_platform.Lb.Picks.{IsUp, NoMore, pick-IsUp, pick-NoMore}

abbrev backend : ℕ → Bool → Backend
backend conns healthy = record {
  addr = codes "n1:80";
  conns = conns;
  healthy = healthy;
  last_change = 0;
}

abbrev pool : List Backend
pool = backend 0 false ∷ backend 4 true ∷ backend 2 true ∷ []

last-IsUp : IsUp pool 2
last-IsUp = (backend 2 true, refl, refl)

pick-IsUp_example : (i : ℕ) × (pick round_robin 1700000000000000001 pool ≡ picked i) × IsUp pool i
pick-IsUp_example = pick-IsUp round_robin 1700000000000000001 pool 2 refl last-IsUp

-- a nanosecond before 1970, with two healthy backends
early_run : pick round_robin 18446744073709551615 pool ≡ panicked
unfolding pick
early_run = refl

least_picked : pick least_connections 0 pool ≡ picked 2
unfolding pick
least_picked = refl

second-IsUp : IsUp pool 1
second-IsUp = (backend 4 true, refl, refl)

pick-NoMore_example : NoMore pool 2 1
pick-NoMore_example = pick-NoMore 0 pool 2 1 second-IsUp least_picked
