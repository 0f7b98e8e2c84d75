-- ===== src/Lb/Balancer.antt =====
-- The backends of internal/lb/lb.go and what reads and writes them. A `*Backend` is a position in the list
-- of backends. The clock, the store, whose package is not in the repository, and what a
-- dial answers are arguments. A count of connections is an int32, held as a sign-extended bit pattern
-- (Prelude/Int64).
use minicloud_platform.Prelude.{
  ℕ, zero, suc, ◌+◌, ◌%◌, ◌==◌, Bool, true, false, not, Option, none, some, List, [], ◌∷◌,
  if◌then◌else◌, length, get_elem?, Bytes,
}
use minicloud_platform.Prelude.Int64.{lt_i64, add_i64, sub_i64, to_i32, is_negative, magnitude}

pub data Strategy : Type 0 where
  round_robin least_connections : Strategy

pub record Backend : Type 0 where
  pub addr : Bytes
  pub conns : ℕ
  pub healthy : Bool
  pub last_change : ℕ

-- the positions of the healthy backends, from `i` on
unfoldable pub healthy_from : ℕ → List Backend → List ℕ
healthy_from i [] = []
healthy_from i (b ∷ bs) = let rest = healthy_from (i + 1) bs in if b.healthy then i ∷ rest else rest

abbrev pub conns_at : List Backend → ℕ → ℕ
conns_at bs i = elim (get_elem? bs i) [ none ↦ 0 | some b ↦ b.conns ]

-- one round of it: the position with fewer connections, the older one at a tie
abbrev pub better : List Backend → ℕ → ℕ → ℕ
better bs best i = if lt_i64 (conns_at bs i) (conns_at bs best) then i else best

-- The loop for the least connections, with the best position before.
unfoldable pub least_loaded : List Backend → ℕ → List ℕ → ℕ
least_loaded bs best [] = best
least_loaded bs best (i ∷ is) = least_loaded bs (better bs best i) is

-- what `pick` ends with: the error that no backend is healthy, a position, or a panic
pub data Picked : Type 0 where
  no_healthy : Picked
  picked : ℕ → Picked
  panicked : Picked

abbrev pub at_index : Option ℕ → Picked
at_index none = panicked
at_index (some i) = picked i

-- `healthy[int(time.Now().UnixNano()) % len(healthy)]`. The time is an int64, negative before 1970 and after 2262,
-- and so is the remainder then, unless it is zero.
abbrev pub turn : ℕ → List ℕ → Picked
turn now is =
    if is_negative now
    then (if magnitude now % length is == 0 then at_index (get_elem? is 0) else panicked)
    else at_index (get_elem? is (now % length is))

abbrev pub pick_from : Strategy → ℕ → List Backend → List ℕ → Picked
pick_from strategy now bs [] = no_healthy
pick_from least_connections now bs (i ∷ is) = picked (least_loaded bs i is)
pick_from round_robin now bs (i ∷ is) = turn now (i ∷ is)

unfoldable pub pick : Strategy → ℕ → List Backend → Picked
unfolding healthy_from least_loaded
pick strategy now bs = pick_from strategy now bs (healthy_from 0 bs)

abbrev pub update : (Backend → Backend) → ℕ → List Backend → List Backend
update f i [] = []
update f zero (b ∷ bs) = f b ∷ bs
update f (suc i) (b ∷ bs) = b ∷ update f i bs

-- the start of `handle`: the count, and the health after the dial
unfoldable pub open_conn : Bool → ℕ → List Backend → List Backend
open_conn dialed i bs =
    update
      (λ b. record b {
        conns = to_i32 (add_i64 b.conns 1);
        healthy = if dialed then b.healthy else false;
      })
      i bs

-- its deferred end
unfoldable pub close_conn : ℕ → List Backend → List Backend
close_conn i bs = update (λ b. record b { conns = to_i32 (sub_i64 b.conns 1) }) i bs

-- `refresh`, once the addresses of the placements that are ready are known
unfoldable pub refresh : ℕ → List Bytes → List Backend
refresh now [] = []
refresh now (a ∷ addrs) =
    record { addr = a; conns = 0; healthy = true; last_change = now } ∷ refresh now addrs

-- one backend in `healthCheck`
abbrev pub probe : ℕ → Bool → Backend → Backend
probe now reachable b =
    if reachable
    then (if not b.healthy then record b { healthy = true; last_change = now } else b)
    else if b.healthy
    then record b { healthy = false; last_change = now }
    else b

unfoldable pub health_check : ℕ → (Bytes → Bool) → List Backend → List Backend
health_check now dial [] = []
health_check now dial (b ∷ bs) = probe now (dial b.addr) b ∷ health_check now dial bs
