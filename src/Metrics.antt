-- ===== src/Metrics.antt =====
-- src/metrics: the labels of a metric, the counter and the histogram. Observed values are whole
-- numbers of some unit, as negative ones count as zero. A call that throws answers none.
pub mod Buckets
use pulse_distributed_real_t.Prelude.{
  ℕ, suc, String, List, [], ◌∷◌, ◌++◌, Option, none, some, Bool, true, false, not, ◌&&◌, ◌+◌, ◌==◌,
  ◌+ₛ◌, ◌=ₛ◌, if◌then◌else◌, leb, ltb, map, is_some,
}
use pulse_distributed_real_t.JsMap.{JsMap, get, set, contains}

abbrev pub Labels : Type 0
Labels = JsMap String

-- What the language does with texts.
pub record TextLib : Type 0 where
  pub to_lower_case : String → String
  pub length_of : String → ℕ

abbrev pub prohibited_label_keys : List String
prohibited_label_keys =
    "userid" ∷ "user_id" ∷ "connectionid" ∷ "connection_id" ∷ "roomid" ∷ "room_id" ∷ "eventid"
    ∷ "event_id" ∷ "instanceid" ∷ "instance_id" ∷ "error" ∷ "error_message" ∷ "errormsg" ∷ "message"
    ∷ "payload" ∷ []

-- No prohibited key, and no value of more than 64 units.
unfoldable pub has_low_cardinality : TextLib → Labels → Bool
has_low_cardinality lib [] = true
has_low_cardinality lib ((key, value) ∷ labels) =
    not (contains (lib.to_lower_case key) prohibited_label_keys)
    && leb (lib.length_of value) 64
    && has_low_cardinality lib labels

-- labels[name] || ''
abbrev pub label_or : Labels → String → String
label_or labels name = elim (get name labels) [ none ↦ "" | some value ↦ value ]

unfoldable pub join_parts : Labels → List String → String
join_parts labels [] = ""
join_parts labels (name ∷ []) = name +ₛ "=" +ₛ label_or labels name
join_parts labels (name ∷ next ∷ names) =
    name +ₛ "=" +ₛ label_or labels name +ₛ "|" +ₛ join_parts labels (next ∷ names)

unfoldable pub resolve_key : List String → Option Labels → String
unfolding join_parts
resolve_key names none = ""
resolve_key [] (some labels) = ""
resolve_key (name ∷ []) (some labels) = label_or labels name
resolve_key (name ∷ next ∷ names) (some labels) = join_parts labels (name ∷ next ∷ names)

abbrev add_label : Labels → String → Option String → Labels
add_label kept name none = kept
add_label kept name (some value) = set name value kept

unfoldable pub filter_labels : Labels → Labels → List String → Labels
filter_labels labels kept [] = kept
filter_labels labels kept (name ∷ names) =
    filter_labels labels (add_label kept name (get name labels)) names

unfoldable pub filter_allowed_labels : List String → Option Labels → Labels
unfolding filter_labels
filter_allowed_labels names none = []
filter_allowed_labels names (some labels) = filter_labels labels [] names

abbrev pub may_label : TextLib → Option Labels → Bool
may_label lib none = true
may_label lib (some labels) = has_low_cardinality lib labels

pub data Observation : Type 0 where
  not_a_number negative : Observation
  at : ℕ → Observation

pub record HistogramSeries : Type 0 where
  pub labels : Labels
  pub bucket_counts : List ℕ
  pub sum : ℕ
  pub count : ℕ

pub record Histogram : Type 0 where
  pub label_names : List String
  pub buckets : List ℕ
  pub unlabelled_series : HistogramSeries
  pub series_map : JsMap HistogramSeries

-- sort((a, b) => a - b)
unfoldable pub insert : ℕ → List ℕ → List ℕ
insert n [] = n ∷ []
insert n (k ∷ ks) = let rest = insert n ks in if leb n k then n ∷ k ∷ ks else k ∷ rest

unfoldable pub sort : List ℕ → List ℕ
unfolding insert
sort [] = []
sort (n ∷ ns) = insert n (sort ns)

-- Each boundary is above the one before it, the first above zero.
unfoldable pub are_ascending : ℕ → List ℕ → Bool
are_ascending last [] = true
are_ascending last (n ∷ ns) = ltb last n && are_ascending n ns

abbrev pub new_series : Labels → List ℕ → HistogramSeries
new_series labels buckets = record {
  labels = labels;
  bucket_counts = map (λ le. 0) buckets;
  sum = 0;
  count = 0;
}

unfoldable pub new_histogram : List String → List ℕ → Option Histogram
unfolding sort are_ascending
new_histogram label_names raw_buckets =
    let buckets = sort raw_buckets in
    if are_ascending 0 buckets
    then some (record {
      label_names = label_names;
      buckets = buckets;
      unlabelled_series = new_series [] buckets;
      series_map = [];
    })
    else none

-- Every bucket whose boundary is not below the value goes up.
unfoldable pub place : ℕ → List ℕ → List ℕ → List ℕ
place n [] counts = counts
place n (le ∷ buckets) [] = []
place n (le ∷ buckets) (k ∷ counts) =
    let rest = place n buckets counts in (if leb n le then k + 1 else k) ∷ rest

unfoldable pub record_in : List ℕ → HistogramSeries → ℕ → HistogramSeries
unfolding place
record_in buckets s n = record s {
  bucket_counts = place n buckets s.bucket_counts;
  sum = s.sum + n;
  count = s.count + 1;
}

-- The labelled series of a key; a new one must have labels of low cardinality.
unfoldable pub record_labelled :
    TextLib → Histogram → Option Labels → ℕ → Option HistogramSeries → Option Histogram
unfolding record_in filter_allowed_labels resolve_key has_low_cardinality
record_labelled lib h labels n (some s) = some (record h {
  series_map = set (resolve_key h.label_names labels) (record_in h.buckets s n) h.series_map;
})
record_labelled lib h labels n none =
    let s = new_series (filter_allowed_labels h.label_names labels) h.buckets in
    if may_label lib labels
    then some (record h {
      series_map = set (resolve_key h.label_names labels) (record_in h.buckets s n) h.series_map;
    })
    else none

abbrev pub is_unlabelled : List String → Bool
is_unlabelled [] = true
is_unlabelled (name ∷ names) = false

unfoldable pub record_value : TextLib → Histogram → Option Labels → ℕ → Option Histogram
unfolding record_labelled record_in resolve_key
record_value lib h labels n =
    if is_unlabelled h.label_names
    then some (record h { unlabelled_series = record_in h.buckets h.unlabelled_series n })
    else record_labelled lib h labels n (get (resolve_key h.label_names labels) h.series_map)

unfoldable pub observe : TextLib → Histogram → Option Labels → Observation → Option Histogram
unfolding record_value
observe lib h labels not_a_number = none
observe lib h labels negative = record_value lib h labels 0
observe lib h labels (at n) = record_value lib h labels n

-- The cumulative counts with their boundaries; `none` is Infinity.
pub record HistogramValue : Type 0 where
  pub buckets : List (Option ℕ × ℕ)
  pub sum : ℕ
  pub count : ℕ

unfoldable pub build_buckets : List ℕ → List ℕ → ℕ → List (Option ℕ × ℕ)
build_buckets (le ∷ buckets) (k ∷ counts) total = (some le, k) ∷ build_buckets buckets counts total
build_buckets buckets counts total = (none, total) ∷ []

abbrev pub series_or : List ℕ → Option HistogramSeries → HistogramSeries
series_or buckets none = new_series [] buckets
series_or buckets (some s) = s

abbrev pub series_of : Histogram → Option Labels → HistogramSeries
unfolding resolve_key
series_of h labels =
    if is_unlabelled h.label_names
    then h.unlabelled_series
    else series_or h.buckets (get (resolve_key h.label_names labels) h.series_map)

unfoldable pub get_value : Histogram → Option Labels → HistogramValue
unfolding build_buckets resolve_key
get_value h labels =
    let s = series_of h labels in
    record {
      buckets = build_buckets h.buckets s.bucket_counts s.count;
      sum = s.sum;
      count = s.count;
    }
