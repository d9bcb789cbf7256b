-- ===== src/Metrics/Buckets.antt =====
-- src/metrics/Histogram.ts: what a histogram tells of the observations that it was given.
use pulse_distributed_real_t.Prelude.{
  ℕ, String, List, [], ◌∷◌, Option, none, some, if◌then◌else◌, ◌≡◌, ◌+◌, ◌=ₛ◌, leb, map, length,
}
use pulse_distributed_real_t.JsMap.{JsMap, get}
use pulse_distributed_real_t.Metrics.{
  Labels, TextLib, Histogram, HistogramSeries, resolve_key, record_value, series_or,
}

-- The observations that are not above a boundary.
unfoldable pub within : ℕ → List ℕ → ℕ
within le [] = 0
within le (n ∷ ns) = if leb n le then within le ns + 1 else within le ns

unfoldable pub total : List ℕ → ℕ
total [] = 0
total (n ∷ ns) = total ns + n

record Tells (buckets : List ℕ) (s : HistogramSeries) (ns : List ℕ) : Type 0 where
  pub counted : s.bucket_counts ≡ map (λ le. within le ns) buckets
  pub summed : s.sum ≡ total ns
  pub numbered : s.count ≡ length ns

abbrev pub Observed : Type 0
Observed = List (Option Labels × ℕ)

-- The values that were observed under a key.
unfoldable pub values_under : List String → String → Observed → List ℕ
values_under names key [] = []
values_under names key ((labels, n) ∷ older) =
    let rest = values_under names key older in
    if resolve_key names labels =ₛ key then n ∷ rest else rest

abbrev pub or_same : Histogram → Option Histogram → Histogram
or_same h none = h
or_same h (some next) = next

-- The observations are listed with the newest first. A call that throws changes nothing.
unfoldable pub recorded : TextLib → Histogram → Observed → Histogram
unfolding record_value
recorded lib h [] = h
recorded lib h ((labels, n) ∷ older) =
    let before = recorded lib h older in or_same before (record_value lib before labels n)

module _ (lib : TextLib) (name : String) (names : List String) (buckets : List ℕ)
    (unlabelled : HistogramSeries) where
  abbrev label_names : List String
  label_names = name ∷ names

  -- A histogram with a label name.
  abbrev pub with_series : JsMap HistogramSeries → Histogram
  with_series m = record {
    label_names = name ∷ names;
    buckets = buckets;
    unlabelled_series = unlabelled;
    series_map = m;
  }

  AreTelling : JsMap HistogramSeries → Observed → Type 0
  AreTelling m seen =
      (key : String)
      → Tells buckets (series_or buckets (get key m)) (values_under (name ∷ names) key seen)

  -- What the histogram is after the observations.
  IsRecorded : Histogram → Observed → Type 0
  IsRecorded h seen = (m : JsMap HistogramSeries) × (h ≡ with_series m) × AreTelling m seen
