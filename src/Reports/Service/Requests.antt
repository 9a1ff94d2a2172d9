-- ===== src/Reports/Service/Requests.antt =====
-- Which requests the report endpoints answer, and what the total of an answer is.
use rize_backend.Base.{◌+◌, ◌≤◌, ◌<◌, String, ◌≡◌, true, ◌||◌, Option, none, some, List, arith}
use rize_backend.Base.{str_eq}
use rize_backend.Base.Result.{ok, >>=-eq-ok}
use rize_backend.Instant.{Time}
use rize_backend.Store.TimeRange.{RangeError, max_report_range, validate_range, validate_range_iff}
use rize_backend.Reports.Bucket.{Bucket, sum_seconds, to_sorted_slice}
use rize_backend.Reports.Bucket.Order.{IsReportOf, to_sorted_slice-IsReportOf}
use rize_backend.Reports.Totals.{Queries, Filters, valid_precision, category_totals}
use rize_backend.Reports.Service.{Summary, range_error, admit, summary}

-- A request that a ranged endpoint reads totals for.
pub record IsAdmissible (q : Queries) (user_id : String) (from to : Time) (f : Filters)
    (uid : String) : Type 0 where
  pub user : q.parse_uuid user_id ≡ some uid
  pub has_from : 0 < from
  pub in_order : from ≤ to
  pub within : to ≤ from + max_report_range
  pub precision :
      (str_eq f.precision "" || str_eq f.precision "exact" || str_eq f.precision "approximate")
      ≡ true

range_error-eq-ok : (o : Option RangeError) → range_error o ≡ ok tt → o ≡ none
unfolding range_error
range_error-eq-ok o h = ground arith

admit-IsAdmissible :
    (q : Queries) (user_id : String) (from to : Time) (f : Filters) (uid : String)
    → admit q user_id from to f ≡ ok uid
    → IsAdmissible q user_id from to f uid
unfolding admit valid_precision
admit-IsAdmissible q user_id from to f uid h = record {
  user = ground arith;
  has_from = ground arith;
  in_order = ground (arith, range_error-eq-ok (validate_range from to), validate_range_iff from to);
  within = ground (arith, range_error-eq-ok (validate_range from to), validate_range_iff from to);
  precision = ground arith;
}

module _ (q : Queries) (user_id : String) (from to now : Time) (f : Filters) where
  admit_of_IsAdmissible :
      (uid : String) → IsAdmissible q user_id from to f uid → admit q user_id from to f ≡ ok uid
  unfolding admit valid_precision range_error
  admit_of_IsAdmissible uid h =
      ground (arith, h.user, (validate_range_iff from to).1 (h.in_order, h.within), h.precision)

  -- What an answer to a summary request tells.
  pub record IsSummary (r : Summary) : Type 0 where
    pub uid : String
    pub admissible : IsAdmissible q user_id from to f uid
    pub totals : List Bucket
    pub computed : category_totals q uid from to now f ≡ ok totals
    pub shown : IsReportOf totals r.categories
    pub total : r.total_tracked_seconds ≡ sum_seconds r.categories
    pub span : (r.from ≡ from) × (r.to ≡ to)

  -- A summary that is returned answers a request with a valid user id, a range that starts after
  -- the zero time, is in order and at most 366 days long, and a known precision or none. Its
  -- buckets are those of the category totals, each once, the largest first, its total is the sum
  -- of the seconds that it shows, and it names the requested range.
  pub summary-IsSummary : (r : Summary) → summary q user_id from to now f ≡ ok r → IsSummary r
  unfolding summary
  summary-IsSummary r h =
      let (uid, admitted, h') = >>=-eq-ok _ _ h in
      let (m, computed, e) = >>=-eq-ok _ _ h' in
      record {
        uid = uid;
        admissible = admit-IsAdmissible q user_id from to f uid admitted;
        totals = m;
        computed = computed;
        shown = ground (arith, to_sorted_slice-IsReportOf m);
        total = ground (arith, (to_sorted_slice-IsReportOf m).same_total);
        span = (ground arith, ground arith);
      }

  pub summary_total :
      (uid : String) (m : List Bucket)
      → IsAdmissible q user_id from to f uid
      → category_totals q uid from to now f ≡ ok m
      → (r : Summary) × (summary q user_id from to now f ≡ ok r)
  unfolding summary
  summary_total uid m h c = (
    record {
      from = from;
      to = to;
      total_tracked_seconds = sum_seconds m;
      categories = to_sorted_slice m;
    },
    rw (admit_of_IsAdmissible uid h, c),
  )
