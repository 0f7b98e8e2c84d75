-- ===== src/Lb/Counts.antt =====
-- The connection counts of internal/lb/lb.go, and its health check.
use minicloud_platform.Prelude.{
  ℕ, zero, suc, ◌<◌, ◌≡◌, refl, ap, ◌∙◌, Bool, List, [], ◌∷◌, arith, length, Bytes,
}
use minicloud_platform.Prelude.Int64.{add_i64, sub_i64, to_i32}
use minicloud_platform.Lb.Balancer.{Backend, conns_at, open_conn, close_conn, refresh}

conns_at-refresh : (now : ℕ) (addrs : List Bytes) (i : ℕ) → conns_at (refresh now addrs) i ≡ 0
unfolding refresh
conns_at-refresh now [] i = refl
conns_at-refresh now (a ∷ addrs) zero = refl
conns_at-refresh now (a ∷ addrs) (suc i) = conns_at-refresh now addrs i

length-refresh : (now : ℕ) (addrs : List Bytes) → length (refresh now addrs) ≡ length addrs
unfolding refresh
length-refresh now [] = refl
length-refresh now (a ∷ addrs) = ap suc (length-refresh now addrs)

conns_at-close_conn :
    (i : ℕ) (bs : List Backend)
    → i < length bs
    → conns_at (close_conn i bs) i ≡ to_i32 (sub_i64 (conns_at bs i) 1)
unfolding close_conn
conns_at-close_conn i [] h = ground (arith, h)
conns_at-close_conn zero (b ∷ bs) h = refl
conns_at-close_conn (suc i) (b ∷ bs) h = conns_at-close_conn i bs (omega (arith, h))

conns_at-open_conn :
    (dialed : Bool) (i : ℕ) (bs : List Backend)
    → i < length bs
    → conns_at (open_conn dialed i bs) i ≡ to_i32 (add_i64 (conns_at bs i) 1)
unfolding open_conn
conns_at-open_conn dialed i [] h = ground (arith, h)
conns_at-open_conn dialed zero (b ∷ bs) h = refl
conns_at-open_conn dialed (suc i) (b ∷ bs) h = conns_at-open_conn dialed i bs (omega (arith, h))

length-open_conn :
    (dialed : Bool) (i : ℕ) (bs : List Backend) → length (open_conn dialed i bs) ≡ length bs
unfolding open_conn
length-open_conn dialed i [] = refl
length-open_conn dialed zero (b ∷ bs) = refl
length-open_conn dialed (suc i) (b ∷ bs) = ap suc (length-open_conn dialed i bs)

-- A connection that ends restores the count of its backend, which is below 2^31 - 1, unless the
-- backends are refreshed while it is open: then, at its position, it leaves the new backend with a
-- count of -1.
pub close_conn_lem :
    (dialed : Bool) (now i : ℕ) (addrs : List Bytes) (bs : List Backend)
    → i < length bs
    → i < length addrs
    → conns_at bs i < 2147483647
    → (conns_at (close_conn i (open_conn dialed i bs)) i ≡ conns_at bs i)
      × (conns_at (close_conn i (refresh now addrs)) i ≡ 18446744073709551615)
close_conn_lem dialed now i addrs bs h ha hc = (
  conns_at-close_conn i (open_conn dialed i bs) (omega (arith, h, length-open_conn dialed i bs))
      ∙ ap (λ n. to_i32 (sub_i64 n 1)) (conns_at-open_conn dialed i bs h)
      ∙ ground (arith, hc),
  conns_at-close_conn i (refresh now addrs) (omega (arith, ha, length-refresh now addrs))
      ∙ ap (λ n. to_i32 (sub_i64 n 1)) (conns_at-refresh now addrs i),
)
