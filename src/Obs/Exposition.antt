-- ===== src/Obs/Exposition.antt =====
-- The text exposition and the spans of internal/primitives/obs/metrics.go. The sort of the snapshot is one
-- that keeps the order of equal names, which `sort.Slice` need not.
use mathlib.Core.Option
use minicloud_platform.Prelude.{
  ℕ, Bool, false, ◌||◌, Option, none, some, List, [], ◌∷◌, ◌++◌, if◌then◌else◌, length, get_elem?,
  set, Bytes, codes, same, before, Dict, lookup, insert,
}
use minicloud_platform.Obs.Registry.{Floats, Metric, Metrics, sorted_keys, label_of, merge_labels}

module _ (f : Floats) where
  open f use {format, quote, decimal}

  unfoldable pub place_metric : Metric f → List (Metric f) → List (Metric f)
  place_metric m [] = m ∷ []
  place_metric m (x ∷ xs) =
      let rest = place_metric m xs in if before x.name m.name then x ∷ rest else m ∷ x ∷ xs

  unfoldable pub snapshot : Metrics f → List (Metric f)
  unfolding place_metric
  snapshot [] = []
  snapshot ((k, v) ∷ m) = place_metric v (snapshot m)

  -- `strings.Join(parts, ",")` of the labels in order
  unfoldable pub join_labels : Dict Bytes → List Bytes → Bytes
  unfolding lookup
  join_labels labels [] = []
  join_labels labels (k ∷ []) = k ++ b'=' ∷ quote (label_of (lookup k labels))
  join_labels labels (k ∷ j ∷ ks) =
      k ++ b'=' ∷ (quote (label_of (lookup k labels)) ++ b',' ∷ join_labels labels (j ∷ ks))

  unfoldable pub labels_string : Dict Bytes → Bytes
  unfolding join_labels sorted_keys
  labels_string labels = join_labels labels (sorted_keys labels)

  abbrev pub line : List Bytes → Bytes
  line [] = 10 ∷ []
  line (s ∷ ss) = s ++ line ss

  abbrev pub bucket_line : Metric f → Bytes → ℕ → Bytes
  bucket_line m le n = line (
      m.name
      ∷ codes "_bucket{"
      ∷ labels_string (merge_labels m.labels ((codes "le", le) ∷ []))
      ∷ codes "} "
      ∷ decimal n
      ∷ [])

  -- The lines of the buckets; the last count is that of +Inf. Too few counts are a panic.
  unfoldable pub bucket_lines : Metric f → List f.F → List ℕ → Option Bytes
  unfolding labels_string merge_labels
  bucket_lines m [] [] = none
  bucket_lines m [] (c ∷ []) = some (bucket_line m (codes "+Inf") c)
  bucket_lines m [] (c ∷ d ∷ cs) = bucket_lines m [] (d ∷ cs)
  bucket_lines m (b ∷ bs) [] = none
  bucket_lines m (b ∷ bs) (c ∷ cs) =
      Option.map (λ rest. bucket_line m (format b) c ++ rest) (bucket_lines m bs cs)

  unfoldable pub series : Metric f → Option Bytes
  unfolding bucket_lines labels_string
  series m =
      if same m.kind (codes "histogram")
      then Option.map
          (λ rest.
            rest
            ++ (line (m.name ∷ codes "_sum " ∷ format m.sum ∷ [])
                ++ line (m.name ∷ codes "_count " ∷ decimal m.count ∷ [])))
          (bucket_lines m m.buckets m.bucket_counts)
      else some
          (line (m.name ∷ codes "{" ∷ labels_string m.labels ∷ codes "} " ∷ format m.value ∷ []))

  abbrev pub help_lines : Metric f → Bytes
  help_lines m =
      line (codes "# HELP " ∷ m.name ∷ codes " " ∷ m.help ∷ [])
      ++ line (codes "# TYPE " ∷ m.name ∷ codes " " ∷ m.kind ∷ [])

  -- the names that had their help
  abbrev pub seen : Bytes → List Bytes → Bool
  seen name [] = false
  seen name (n ∷ ns) = same n name || seen name ns

  unfoldable pub expose : List Bytes → List (Metric f) → Option Bytes
  unfolding series
  expose names [] = some []
  expose names (m ∷ ms) =
      let head = if seen m.name names then [] else help_lines m in
      let rest = expose (m.name ∷ names) ms in
      elim (series m) [ none ↦ none | some text ↦ Option.map (λ more. head ++ (text ++ more)) rest ]

  unfoldable pub text_exposition : Metrics f → Option Bytes
  unfolding expose snapshot
  text_exposition m = expose [] (snapshot m)

-- A span; its attributes are a map behind a pointer, which may be nil.
pub record Span : Type 0 where
  pub trace_id : Bytes
  pub parent_id : Bytes
  pub name : Bytes
  pub start_time : ℕ
  pub end_time : ℕ
  pub attributes : Option ℕ
  pub status : Bytes

-- The recorded spans, and the maps of attributes that the builders have made.
pub record Tracer : Type 0 where
  pub spans : List Span
  pub maps : List (Dict Bytes)

unfoldable pub start_span : Bytes → ℕ → Span
start_span name now = record {
  trace_id = [];
  parent_id = [];
  name = name;
  start_time = now;
  end_time = 0;
  attributes = none;
  status = [];
}

abbrev pub put_attr :
    Bytes → Bytes → ℕ → List (Dict Bytes) → Option (Dict Bytes) → List (Dict Bytes)
put_attr k v p maps none = maps
put_attr k v p maps (some m) = set maps p (insert k v m)

unfoldable pub with_attr : Bytes → Bytes → Span → Tracer → Span × Tracer
unfolding insert
with_attr k v b t = elim b.attributes [
  | none ↦ (
    record b { attributes = some (length t.maps) },
    record t { maps = t.maps ++ ((k, v) ∷ []) ∷ [] },
  )
  | some p ↦ (b, record t { maps = put_attr k v p t.maps (get_elem? t.maps p) })
]

-- The span is copied, its map is not.
unfoldable pub end_span : Bytes → ℕ → Span → Tracer → Span × Tracer
end_span status now b t =
    let b' = record b { end_time = now; status = if same status [] then b.status else status } in
    (b', record t { spans = t.spans ++ b' ∷ [] })
