-- ===== src/Reports/Totals/Sums.antt =====
-- A report's total is that of the aggregate's rows plus that of each raw window.
use rize_backend.Base.{
  ℕ, ◌+◌, String, ◌≡◌, refl, ap, ◌∙◌, inl, inr, Option, none, some, List, [], ◌∷◌, arith,
  if◌then◌else◌, Bool-cases,
}
use rize_backend.Base.Result.{Result, ok, err, ◌>>=◌, or_fail}
use rize_backend.Instant.{Time}
use rize_backend.Reports.Window.{Window, Split, split_closed_open}
use rize_backend.Reports.Bucket.{Bucket, merge_bucket, sum_seconds}
use rize_backend.Reports.Bucket.Merge.{sum_seconds-merge_bucket}
use rize_backend.Reports.Grouping.{Dimension, dim_category}
use rize_backend.Reports.Totals.{
  Error, internal, Queries, Filters, Total, window_seconds, raw_totals, merge_rows, merge_buckets,
  merge_windows, merge_closed, category_rows, only, category_totals,
}

-- The total of a report that was computed.
abbrev pub total_of : Result Error (List Bucket) → Result Error ℕ
total_of (ok m) = ok (sum_seconds m)
total_of (err e) = err e

abbrev pub sum_rows : List Total → ℕ
sum_rows [] = 0
sum_rows (t ∷ rows) = t.seconds + sum_rows rows

-- The totals of separate raw passes over the windows, added up.
abbrev pub raw_windows_total : Queries → String → Filters → Dimension → List Window → Result Error ℕ
raw_windows_total q uid f dim [] = ok 0
raw_windows_total q uid f dim (w ∷ windows) = do
  n ← total_of (raw_totals q uid w.from w.to f dim)
  m ← raw_windows_total q uid f dim windows
  ok (n + m)

-- The total of the aggregate's rows for the closed window, if there is one.
abbrev pub closed_total : (Window → ℕ → Option (List Total)) → String → Split → Result Error ℕ
closed_total totals what s =
    if s.has_closed
    then (do
      rows ← or_fail (totals s.closed (window_seconds s.closed)) (internal what)
      ok (sum_rows rows))
    else ok 0

sum_seconds-merge_rows :
    (m : List Bucket) (rows : List Total)
    → sum_seconds (merge_rows m rows) ≡ sum_seconds m + sum_rows rows
unfolding merge_rows
sum_seconds-merge_rows m [] = omega arith
sum_seconds-merge_rows m (t ∷ rows) = omega (
  arith,
  sum_seconds-merge_rows (merge_bucket m t.key.id t.key.name t.key.bundle t.seconds) rows,
  sum_seconds-merge_bucket m t.key.id t.key.name t.key.bundle t.seconds,
)

sum_seconds-merge_buckets :
    (m raw : List Bucket) → sum_seconds (merge_buckets m raw) ≡ sum_seconds m + sum_seconds raw
unfolding merge_buckets sum_seconds
sum_seconds-merge_buckets m [] = omega arith
sum_seconds-merge_buckets m (b ∷ raw) = omega (
  arith,
  sum_seconds-merge_buckets (merge_bucket m b.id b.name b.bundle_id b.seconds) raw,
  sum_seconds-merge_bucket m b.id b.name b.bundle_id b.seconds,
)

regroup :
    (a b c : ℕ) (x : Result Error ℕ)
    → c ≡ a + b
    → (x >>= λ n. ok (c + n)) ≡ ((x >>= λ k. ok (b + k)) >>= λ n. ok (a + n))
regroup a b c (err e) h = refl
regroup a b c (ok n) h = ap ok (omega arith)

total-merge_windows :
    (q : Queries) (uid : String) (f : Filters) (dim : Dimension) (m : List Bucket)
    (ws : List Window)
    → total_of (merge_windows q uid f dim m ws)
      ≡ (raw_windows_total q uid f dim ws >>= λ n. ok (sum_seconds m + n))
unfolding merge_windows
total-merge_windows q uid f dim m [] = ap ok (omega arith)
total-merge_windows q uid f dim m (w ∷ ws) =
    step (raw_totals q uid w.from w.to f dim)
      (λ r. total-merge_windows q uid f dim (merge_buckets m r) ws)
  where
    step :
        (raw : Result Error (List Bucket))
        → ((r : List Bucket)
            → total_of (merge_windows q uid f dim (merge_buckets m r) ws) ≡ (
                raw_windows_total q uid f dim ws >>= λ n. ok (sum_seconds (merge_buckets m r) + n)))
        → total_of (raw >>= λ r. merge_windows q uid f dim (merge_buckets m r) ws) ≡ (
            (total_of raw >>= λ n. raw_windows_total q uid f dim ws >>= λ k. ok (n + k)) >>= λ n.
            ok (sum_seconds m + n))
    step (err e) ih = refl
    step (ok r) ih =
        ih r
        ∙ regroup (sum_seconds m) (sum_seconds r) _ (raw_windows_total q uid f dim ws)
            (sum_seconds-merge_buckets m r)

total-merge_closed :
    (totals : Window → ℕ → Option (List Total)) (what : String) (s : Split)
    → total_of (merge_closed totals what s) ≡ closed_total totals what s
unfolding merge_closed sum_seconds
total-merge_closed totals what s = elim (Bool-cases s.has_closed) [
  | inl p ↦ rw p (rows (totals s.closed (window_seconds s.closed)))
  | inr p ↦ rw p
]
  where
    rows :
        (o : Option (List Total))
        → total_of (or_fail o (internal what) >>= λ r. ok (merge_rows [] r))
          ≡ (or_fail o (internal what) >>= λ r. ok (sum_rows r))
    rows none = refl
    rows (some r) = ap ok (omega (arith, sum_seconds-merge_rows [] r))

-- No filter at all.
abbrev pub no_filters : Filters
no_filters = record {
  app_id = "";
  category_id = "";
  project_id = "";
  device_id = "";
  precision = "";
}

-- Without filters, the seconds of a report by category, failures included, are the seconds of the
-- aggregate's rows for the closed window, if there is one, plus those of a separate raw pass over
-- each raw window, added up in the order of the windows.
pub total-category_totals :
    (q : Queries) (uid : String) (from to now : Time)
    → total_of (category_totals q uid from to now no_filters) ≡ (
        closed_total
          (category_rows q uid)
          "reports: category totals"
          (split_closed_open from to now)
        >>= λ closed.
            raw_windows_total q uid no_filters dim_category (split_closed_open from to now).raw
            >>= λ raw. ok (closed + raw))
unfolding category_totals
total-category_totals q uid from to now =
    chain (merge_closed (category_rows q uid) "reports: category totals" s)
      (total-merge_closed (category_rows q uid) "reports: category totals" s)
  where
    s : Split
    s = split_closed_open from to now

    chain :
        (c : Result Error (List Bucket)) {t : Result Error ℕ}
        → total_of c ≡ t
        → total_of (
            c >>= λ closed. merge_windows q uid no_filters dim_category closed s.raw >>= λ result.
            only q "" "category_id must be a valid UUID" result)
          ≡ (t >>= λ n.
              raw_windows_total q uid no_filters dim_category s.raw >>= λ raw. ok (n + raw))
    chain (err e) h = rw (← h) refl
    chain (ok m) h = rw (← h) (
        last (merge_windows q uid no_filters dim_category m s.raw)
        ∙ total-merge_windows q uid no_filters dim_category m s.raw)
      where
        last :
            (r : Result Error (List Bucket))
            → total_of (r >>= λ result. only q "" "category_id must be a valid UUID" result)
              ≡ total_of r
        last (ok r) = refl
        last (err e) = refl
