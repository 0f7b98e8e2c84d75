-- ===== src/Obs/Histogram.antt =====
-- What the histograms of internal/primitives/obs/metrics.go count.
use minicloud_platform.Prelude.{
  ℕ, ◌+◌, ◌≤◌, ◌<◌, ◌≡◌, refl, sym, ap, ◌∙◌, Option, none, some, List, [], ◌∷◌, arith,
  if◌then◌else◌, u64, max_u64, length, Bytes, Dict, lookup, insert, lookup-insert_self,
}
use minicloud_platform.Obs.Registry.{
  Floats, Metric, Metrics, metric_key, zeros, new_histogram, bump_last, bump_buckets, bump_all,
  counted, observe_one, or_new, observe,
}

module _ (f : Floats) where
  -- The samples that are at most the bound.
  abbrev pub below : f.F → List f.F → ℕ
  below b [] = 0
  below b (v ∷ vs) = (if f.at_most v b then 1 else 0) + below b vs

  -- The counts that a histogram should have: for each bucket the samples up to its bound, and all.
  abbrev pub counts_of : List f.F → List f.F → List ℕ
  counts_of [] vs = length vs ∷ []
  counts_of (b ∷ bs) vs = below b vs ∷ counts_of bs vs

  counts_of_nothing : (bs : List f.F) → counts_of bs [] ≡ zeros f bs
  counts_of_nothing [] = refl
  counts_of_nothing (b ∷ bs) = ap (λ r. 0 ∷ r) (counts_of_nothing bs)

  below-le : (b : f.F) (vs : List f.F) → below b vs ≤ length vs
  below-le b [] = omega arith
  below-le b (v ∷ vs) = ground (arith, below-le b vs)

  -- The counts between the loop over the buckets and the last count.
  abbrev half_way : List f.F → f.F → List f.F → List ℕ
  half_way [] v vs = length vs ∷ []
  half_way (b ∷ bs) v vs = below b (v ∷ vs) ∷ half_way bs v vs

  bump_buckets_lem :
      (v : f.F) (bs vs : List f.F)
      → length vs < max_u64
      → bump_buckets f v bs (counts_of bs vs) ≡ some (half_way bs v vs)
  unfolding bump_buckets
  bump_buckets_lem v [] vs h = refl
  bump_buckets_lem v (b ∷ bs) vs h =
      let ih = bump_buckets_lem v bs vs h in
      let e : (if f.at_most v b then u64 (below b vs + 1) else below b vs) ≡ below b (v ∷ vs) =
        ground (arith, below-le b vs) in
      rw (ih, e) refl

  bump_last-cons :
      (c : ℕ) (cs r : List ℕ) → bump_last f cs ≡ some r → bump_last f (c ∷ cs) ≡ some (c ∷ r)
  bump_last-cons c [] r h = ground (arith, h)
  bump_last-cons c (d ∷ cs) r h = rw h refl

  bump_last_lem :
      (v : f.F) (bs vs : List f.F)
      → length vs < max_u64
      → bump_last f (half_way bs v vs) ≡ some (counts_of bs (v ∷ vs))
  bump_last_lem v [] vs h =
      let e : u64 (length vs + 1) ≡ length (v ∷ vs) = omega (arith, h) in rw e refl
  bump_last_lem v (b ∷ bs) vs h = bump_last-cons _ (half_way bs v vs) _ (bump_last_lem v bs vs h)

  -- A histogram that has counted the samples, the newest first.
  pub record Counted (m : Metric f) (bs vs : List f.F) : Type 0 where
    pub buckets_eq : m.buckets ≡ bs
    pub counts_eq : m.bucket_counts ≡ counts_of bs vs
    pub count_eq : m.count ≡ length vs

  observe_one-Counted :
      (m : Metric f) (v : f.F) (bs vs : List f.F)
      → length vs < max_u64
      → Counted m bs vs
      → (m' : Metric f) × (observe_one f v m ≡ some m') × Counted m' bs (v ∷ vs)
  unfolding observe_one
  observe_one-Counted m v bs vs h c =
      let e : bump_all f v m.buckets m.bucket_counts ≡ some (counts_of bs (v ∷ vs)) =
        ap (λ x. bump_all f v x m.bucket_counts) c.buckets_eq
        ∙ ap (bump_all f v bs) c.counts_eq
        ∙ rw (bump_buckets_lem v bs vs h, bump_all) (bump_last_lem v bs vs h) in
      (
        record m {
          bucket_counts = counts_of bs (v ∷ vs);
          sum = f.add m.sum v;
          count = u64 (m.count + 1);
        },
        ap (counted f v m) e,
        record {
          buckets_eq = c.buckets_eq;
          counts_eq = refl;
          count_eq = omega (arith, c.count_eq, h);
        },
      )

  -- Observations of samples, the newest first in the list.
  unfoldable pub observe_all :
      Bytes → Dict Bytes → List f.F → List f.F → Metrics f → Option (Metrics f)
  unfolding observe
  observe_all name labels bs [] m = some m
  observe_all name labels bs (v ∷ vs) m = elim (observe_all name labels bs vs m) [
    | none ↦ none
    | some m' ↦ observe f name v labels bs m'
  ]

  abbrev pub Holds : Bytes → Dict Bytes → List f.F → List f.F → Metrics f → Type 0
  Holds name labels bs vs m =
      (h : Metric f) × (lookup (metric_key name labels) m ≡ some h) × Counted h bs vs

  observe-Holds :
      (name : Bytes) (labels : Dict Bytes) (bs vs : List f.F) (v : f.F) (m : Metrics f)
      (h : Metric f)
      → length vs < max_u64
      → or_new f name labels bs (lookup (metric_key name labels) m) ≡ h
      → Counted h bs vs
      → (m' : Metrics f) × (observe f name v labels bs m ≡ some m')
        × Holds name labels bs (v ∷ vs) m'
  unfolding observe
  observe-Holds name labels bs vs v m h small e c =
      let key = metric_key name labels in
      let (h', o, c') = observe_one-Counted h v bs vs small c in
      (insert key h' m, rw (e, o) refl, (h', lookup-insert_self key h' m, c'))

  -- After fewer than 2^64 samples of a series that was not there, none of which makes the code panic, each bucket has
  -- the number of the samples up to its bound, the last the number of all, and so has the count.
  pub observe_all-Holds :
      (name : Bytes) (labels : Dict Bytes) (bs vs : List f.F) (v : f.F) (m : Metrics f)
      → length vs < max_u64
      → lookup (metric_key name labels) m ≡ none
      → (m' : Metrics f) × (observe_all name labels bs (v ∷ vs) m ≡ some m')
        × Holds name labels bs (v ∷ vs) m'
  unfolding observe_all
  observe_all-Holds name labels bs [] v m small fresh =
      observe-Holds name labels bs [] v m (new_histogram f name labels bs) small (rw fresh refl)
        (record { buckets_eq = refl; counts_eq = sym (counts_of_nothing bs); count_eq = refl })
  observe_all-Holds name labels bs (u ∷ vs) v m small fresh =
      let (m1, e, (h, l, c)) =
        observe_all-Holds name labels bs vs u m (omega (arith, small)) fresh in
      let (m2, e2, hold) = observe-Holds name labels bs (u ∷ vs) v m1 h small (rw l refl) c in
      (m2, rw e e2, hold)
