-- ===== src/Obs/Registry.antt =====
-- The metrics registry of internal/primitives/obs/metrics.go. float64, its text and the quoting of a text are
-- parameters. An access out of bounds, on which Go panics, has no result.
use mathlib.Core.Option
use minicloud_platform.Prelude.{
  ℕ, ◌+◌, Bool, Option, none, some, List, [], ◌∷◌, ◌++◌, ◌==◌, if◌then◌else◌, u64, Bytes, codes,
  same, before, Dict, lookup, insert,
}

-- The operations of float64 and fmt that the registry uses.
pub record Floats : Type 1 where
  pub F : Type 0
  pub zero_value : F
  pub one : F
  pub add : F → F → F
  pub div : F → F → F
  pub of_count : ℕ → F
  pub at_most : F → F → Bool
  pub format : F → Bytes
  pub quote : Bytes → Bytes
  pub decimal : ℕ → Bytes

-- The keys of a map in order.
unfoldable pub place_key : Bytes → List Bytes → List Bytes
place_key k [] = k ∷ []
place_key k (j ∷ ks) = let rest = place_key k ks in if before j k then j ∷ rest else k ∷ j ∷ ks

unfoldable pub sorted_keys : Dict Bytes → List Bytes
unfolding place_key
sorted_keys [] = []
sorted_keys ((k, v) ∷ m) = place_key k (sorted_keys m)

-- `labels[k]`
abbrev pub label_of : Option Bytes → Bytes
label_of none = []
label_of (some v) = v

unfoldable pub key_tail : Dict Bytes → List Bytes → Bytes
unfolding lookup
key_tail labels [] = []
key_tail labels (k ∷ ks) = b'|' ∷ (k ++ b'=' ∷ (label_of (lookup k labels) ++ key_tail labels ks))

unfoldable pub metric_key : Bytes → Dict Bytes → Bytes
unfolding sorted_keys key_tail
metric_key name labels = name ++ key_tail labels (sorted_keys labels)

-- the loop of `copyMap`, and the second of `mergeLabels`
unfoldable pub copy_into : Dict Bytes → Dict Bytes → Dict Bytes
unfolding insert
copy_into out [] = out
copy_into out ((k, v) ∷ m) = copy_into (insert k v out) m

unfoldable pub copy_map : Dict Bytes → Dict Bytes
unfolding copy_into
copy_map m = copy_into [] m

unfoldable pub merge_labels : Dict Bytes → Dict Bytes → Dict Bytes
unfolding copy_into
merge_labels a b = copy_into (copy_into [] a) b

module _ (f : Floats) where
  open f use {F, zero_value, one, add, div, of_count, at_most, format, quote}

  -- `kind` is the field Type
  pub record Metric : Type 0 where
    pub name : Bytes
    pub help : Bytes
    pub kind : Bytes
    pub labels : Dict Bytes
    pub value : F
    pub buckets : List F
    pub bucket_counts : List ℕ
    pub sum : F
    pub count : ℕ

  abbrev pub Metrics : Type 0
  Metrics = Dict Metric

  abbrev pub value_of : Option Metric → F
  value_of none = zero_value
  value_of (some m) = m.value

  unfoldable pub get : Bytes → Dict Bytes → Metrics → F
  unfolding lookup metric_key
  get name labels m = value_of (lookup (metric_key name labels) m)

  -- A new series is a counter, whichever call makes it.
  abbrev pub valued : Bytes → Dict Bytes → F → Option Metric → Metric
  valued name labels v none = record {
    name = name;
    help = [];
    kind = codes "counter";
    labels = copy_map labels;
    value = v;
    buckets = [];
    bucket_counts = [];
    sum = zero_value;
    count = 0;
  }
  valued name labels v (some cur) = record cur { value = v }

  unfoldable pub set_value : Bytes → F → Dict Bytes → Metrics → Metrics
  unfolding lookup insert metric_key copy_map
  set_value name v labels m =
      let key = metric_key name labels in insert key (valued name labels v (lookup key m)) m

  unfoldable pub add_value : Bytes → F → Dict Bytes → Metrics → Metrics
  unfolding get set_value
  add_value name delta labels m = set_value name (add (get name labels m) delta) labels m

  unfoldable pub incr : Bytes → Dict Bytes → Metrics → Metrics
  unfolding add_value
  incr name labels m = add_value name one labels m

  abbrev pub zeros : List F → List ℕ
  zeros [] = 0 ∷ []
  zeros (b ∷ bs) = 0 ∷ zeros bs

  abbrev pub new_histogram : Bytes → Dict Bytes → List F → Metric
  new_histogram name labels buckets = record {
    name = name;
    help = [];
    kind = codes "histogram";
    labels = copy_map labels;
    value = zero_value;
    buckets = buckets;
    bucket_counts = zeros buckets;
    sum = zero_value;
    count = 0;
  }

  -- `BucketCounts[len(BucketCounts)-1]++`
  abbrev pub bump_last : List ℕ → Option (List ℕ)
  bump_last [] = none
  bump_last (c ∷ []) = some (u64 (c + 1) ∷ [])
  bump_last (c ∷ d ∷ cs) = Option.map (λ r. c ∷ r) (bump_last (d ∷ cs))

  -- the loop over the buckets
  unfoldable pub bump_buckets : F → List F → List ℕ → Option (List ℕ)
  bump_buckets v [] counts = some counts
  bump_buckets v (b ∷ bs) [] = if at_most v b then none else bump_buckets v bs []
  bump_buckets v (b ∷ bs) (c ∷ cs) =
      Option.map (λ r. (if at_most v b then u64 (c + 1) else c) ∷ r) (bump_buckets v bs cs)

  abbrev pub bump_all : F → List F → List ℕ → Option (List ℕ)
  bump_all v buckets counts = elim (bump_buckets v buckets counts) [
    | none ↦ none
    | some cs ↦ bump_last cs
  ]

  abbrev pub counted : F → Metric → Option (List ℕ) → Option Metric
  counted v cur none = none
  counted v cur (some counts) =
      some (record cur { bucket_counts = counts; sum = add cur.sum v; count = u64 (cur.count + 1) })

  unfoldable pub observe_one : F → Metric → Option Metric
  unfolding bump_buckets
  observe_one v cur = counted v cur (bump_all v cur.buckets cur.bucket_counts)

  abbrev pub or_new : Bytes → Dict Bytes → List F → Option Metric → Metric
  or_new name labels buckets none = new_histogram name labels buckets
  or_new name labels buckets (some cur) = cur

  unfoldable pub observe : Bytes → F → Dict Bytes → List F → Metrics → Option Metrics
  unfolding lookup insert metric_key copy_map observe_one
  observe name v labels buckets m =
      let key = metric_key name labels in
      Option.map (λ cur. insert key cur m)
        (observe_one v (or_new name labels buckets (lookup key m)))

  -- the loop of `AvgCPU`: the sum and the number
  unfoldable pub sum_named : Bytes → F → ℕ → Metrics → F × ℕ
  sum_named name sum n [] = (sum, n)
  sum_named name sum n ((k, v) ∷ m) =
      let hit = same v.name name in
      sum_named name (if hit then add sum v.value else sum) (if hit then n + 1 else n) m

  unfoldable pub avg_cpu : Bytes → Metrics → F
  unfolding sum_named
  avg_cpu name m =
      let (sum, n) = sum_named name zero_value 0 m in
      if n == 0 then zero_value else div sum (of_count n)
