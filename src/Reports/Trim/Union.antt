-- ===== src/Reports/Trim/Union.antt =====
-- `mergeAndSum` sums the union of the events.
use rize_backend.Base.{
  ℕ, suc, ◌+◌, ◌-◌, ◌*◌, ◌%◌, ◌≤◌, ◌<◌, ◌≡◌, refl, ap, ◌∙◌, ◌||◌, List, [], ◌∷◌, arith,
  if◌then◌else◌, lt→ltb, le→ltb-false, length, All,
}
use native.Mathlib.Decide.{dec_lt}
use native.Mathlib.Nat.{le_refl}
use rize_backend.Instant.{Time, after, whole_seconds, second}
use rize_backend.Reports.Trim.{Interval, sort_by_start, merge_loop, merge_sorted, merge_and_sum}
use rize_backend.Reports.Trim.Cap.{sort_by_start-All}
use rize_backend.Reports.Trim.Measure.{
  contains, covers, measure, interval, measure_ext, measure_nil, measure_single, measure_disjoint,
}
use rize_backend.Reports.Trim.Sorting.{
  StartsFrom, EndsBy, IsWhole, covers-sort_by_start, length-sort_by_start, sort_by_start-StartsFrom,
  StartsFrom-le, covers_before,
}

-- An event that starts inside the current run extends it.
measure_merge :
    (n : ℕ) (s e : Time) (ev : Interval) (es : List Interval)
    → s ≤ ev.start
    → ev.start ≤ e
    → ev.start < ev.end
    → measure n (interval s e ∷ ev ∷ es)
      ≡ measure n (interval s (if after ev.end e then ev.end else e) ∷ es)
measure_merge n s e ev es h k l = measure_ext n _ _ (λ t. unfold covers in pointwise t)
  where
    pointwise :
        (t : Time)
        → (contains t (interval s e) || (contains t ev || covers t es))
          ≡ (contains t (interval s (if after ev.end e then ev.end else e)) || covers t es)
    pointwise t = ground arith

-- An event that starts after the current run closes it.
measure_gap :
    (n : ℕ) (s e : Time) (es : List Interval) (lo : Time)
    → s ≤ e
    → e ≤ n
    → e ≤ lo
    → StartsFrom lo es
    → measure n (interval s e ∷ es) ≡ (e - s) + measure n es
measure_gap n s e es lo h k l m =
    measure_disjoint n (interval s e) es (λ t c. covers_before lo t es m (ground arith))
    ∙ ap (λ x. x + measure n es) (measure_single n s e h k)

merge_loop-nil : (total s e : ℕ) → merge_loop total s e [] ≡ total + whole_seconds s e
unfolding merge_loop
merge_loop-nil total s e = refl

merge_loop_gap :
    (total s e : ℕ) (ev : Interval) (es : List Interval)
    → e < ev.start
    → merge_loop total s e (ev ∷ es) ≡ merge_loop (total + whole_seconds s e) ev.start ev.end es
unfolding merge_loop
merge_loop_gap total s e ev es h = rw (lt→ltb e ev.start h)

run_end : Time → Interval → Time
run_end e ev = if after ev.end e then ev.end else e

merge_loop_join :
    (total s e : ℕ) (ev : Interval) (es : List Interval)
    → ev.start ≤ e
    → merge_loop total s e (ev ∷ es) ≡ merge_loop total s (run_end e ev) es
unfolding merge_loop run_end
merge_loop_join total s e ev es h = rw (le→ltb-false e ev.start h)

run_end_whole : (e : Time) (ev : Interval) → e % second ≡ 0 → IsWhole ev → run_end e ev % second ≡ 0
unfolding run_end
run_end_whole e ev h w = ground arith

record IsExtended (n s e : Time) (ev : Interval) (es : List Interval) : Type 0 where
  order : s ≤ run_end e ev
  within : run_end e ev ≤ n
  starts : StartsFrom s es
  same : measure n (interval s e ∷ ev ∷ es) ≡ measure n (interval s (run_end e ev) ∷ es)

run_end-IsExtended :
    (n s e : Time) (ev : Interval) (es : List Interval)
    → s ≤ e
    → e ≤ n
    → s ≤ ev.start
    → StartsFrom ev.start es
    → EndsBy n ev
    → ev.start ≤ e
    → IsExtended n s e ev es
unfolding run_end
run_end-IsExtended n s e ev es h k l m b c = record {
  order = ground arith;
  within = ground arith;
  starts = StartsFrom-le s ev.start es l m;
  same = measure_merge n s e ev es l c b.nonempty;
}

merge_loop_bounds :
    (n total s e : ℕ) (es : List Interval)
    → s ≤ e
    → e ≤ n
    → StartsFrom s es
    → All (EndsBy n) es
    → (merge_loop total s e es * second ≤ total * second + measure n (interval s e ∷ es))
      × (total * second + measure n (interval s e ∷ es)
          ≤ merge_loop total s e es * second + suc (length es) * (second - 1))
merge_loop_bounds n total s e [] h k m b =
    omega (arith, merge_loop-nil total s e, measure_single n s e h k)
merge_loop_bounds n total s e (ev ∷ es) h k m b = elim (dec_lt e ev.start) [
  | yes p ↦ omega (
    arith,
    merge_loop_gap total s e ev es p,
    measure_gap n s e (ev ∷ es) ev.start h k (omega arith) (le_refl _, m.1),
    merge_loop_bounds n (total + whole_seconds s e) ev.start ev.end es (omega arith) (omega arith)
        m.1 b.1,
  )
  | no p ↦
      let x = run_end-IsExtended n s e ev es h k m.0 m.1 b.0 (omega arith) in
      omega (
        arith,
        merge_loop_join total s e ev es (omega arith),
        x.same,
        merge_loop_bounds n total s (run_end e ev) es x.order x.within x.starts b.1,
      )
]

merge_loop_exact :
    (n total s e : ℕ) (es : List Interval)
    → s ≤ e
    → e ≤ n
    → StartsFrom s es
    → All (EndsBy n) es
    → s % second ≡ 0
    → e % second ≡ 0
    → All IsWhole es
    → merge_loop total s e es * second ≡ total * second + measure n (interval s e ∷ es)
merge_loop_exact n total s e [] h k m b u v w =
    omega (arith, merge_loop-nil total s e, measure_single n s e h k)
merge_loop_exact n total s e (ev ∷ es) h k m b u v w = elim (dec_lt e ev.start) [
  | yes p ↦ omega (
    arith,
    merge_loop_gap total s e ev es p,
    measure_gap n s e (ev ∷ es) ev.start h k (omega arith) (le_refl _, m.1),
    merge_loop_exact n (total + whole_seconds s e) ev.start ev.end es (omega arith) (omega arith)
        m.1 b.1 w.0.start w.0.end w.1,
  )
  | no p ↦
      let x = run_end-IsExtended n s e ev es h k m.0 m.1 b.0 (omega arith) in
      omega (
        arith,
        merge_loop_join total s e ev es (omega arith),
        x.same,
        merge_loop_exact n total s (run_end e ev) es x.order x.within x.starts b.1 u
            (run_end_whole e ev v w.0) w.1,
      )
]

merge_sorted_bounds :
    (n : ℕ) (es : List Interval)
    → StartsFrom 0 es
    → All (EndsBy n) es
    → (merge_sorted es * second ≤ measure n es)
      × (measure n es ≤ merge_sorted es * second + length es * (second - 1))
unfolding merge_sorted
merge_sorted_bounds n [] m b = omega (arith, measure_nil n)
merge_sorted_bounds n (ev ∷ es) m b =
    omega (arith, merge_loop_bounds n 0 ev.start ev.end es (omega arith) (omega arith) m.1 b.1)

merge_sorted_exact :
    (n : ℕ) (es : List Interval)
    → StartsFrom 0 es
    → All (EndsBy n) es
    → All IsWhole es
    → merge_sorted es * second ≡ measure n es
unfolding merge_sorted
merge_sorted_exact n [] m b w = omega (arith, measure_nil n)
merge_sorted_exact n (ev ∷ es) m b w = omega (
  arith,
  merge_loop_exact n 0 ev.start ev.end es (omega arith) (omega arith) m.1 b.1 w.0.start w.0.end w.1,
)

measure-sort_by_start : (n : ℕ) (es : List Interval) → measure n (sort_by_start es) ≡ measure n es
measure-sort_by_start n es = measure_ext n _ _ (λ t. covers-sort_by_start t es)

-- For events that are not empty and end by an instant `n`, the merged sum in seconds is at most
-- the length of the union of the events, and less than it by under a second for each event.
pub merge_and_sum_union :
    (n : ℕ) (events : List Interval)
    → All (EndsBy n) events
    → (merge_and_sum events * second ≤ measure n events)
      × (measure n events ≤ merge_and_sum events * second + length events * (second - 1))
unfolding merge_and_sum
merge_and_sum_union n events h = omega (
  arith,
  measure-sort_by_start n events,
  ap (λ x. x * (second - 1)) (length-sort_by_start events),
  merge_sorted_bounds n (sort_by_start events) (sort_by_start-StartsFrom events)
      (sort_by_start-All (EndsBy n) events h),
)

-- For events that are not empty, end by an instant `n`, and start and end on whole seconds, the
-- merged sum is the length of the union of the events.
pub merge_and_sum_exact :
    (n : ℕ) (events : List Interval)
    → All (EndsBy n) events
    → All IsWhole events
    → merge_and_sum events * second ≡ measure n events
unfolding merge_and_sum
merge_and_sum_exact n events h w = omega (
  arith,
  measure-sort_by_start n events,
  merge_sorted_exact n (sort_by_start events) (sort_by_start-StartsFrom events)
      (sort_by_start-All (EndsBy n) events h) (sort_by_start-All IsWhole events w),
)
