-- ===== src/Reports/Trim.antt =====
-- internal/reports/trim.go: overlapping events of one device are merged before they are summed.
pub mod Cap
pub mod Measure
pub mod Sorting
pub mod Union
use rize_backend.Base.{
  ℕ, zero, suc, ◌+◌, ◌-◌, ◌*◌, ◌/◌, ◌%◌, ◌^◌, ◌≤◌, ◌<◌, String, ◌≡◌, refl, sym, ap, ◌∙◌, ◌≢◌, ◌↔◌,
  ◌⊎◌, inl, inr, Bool, true, false, not, ◌&&◌, ◌||◌, Option, none, some, List, [], ◌∷◌, ◌++◌, map,
  arith, ltb, leb, ◌==◌, if◌then◌else◌, ltb→lt, lt→ltb, ltb-false→le, le→ltb-false, leb→le, ==_iff,
  Bool-cases, Option-cases, length, take, drop, keep, any, All, last?, length-append,
  take-append-drop, length-take, length-drop, sum,
}
use rize_backend.Instant.{Time, before, after, whole_seconds}

pub record Interval : Type 0 where
  pub start : Time
  pub end : Time

clip : Time → Time → Interval → Interval
clip window_start window_end ev = record {
  start = if before ev.start window_start then window_start else ev.start;
  end = if after ev.end window_end then window_end else ev.end;
}

pub clip_to_window : Time → Time → List Interval → List Interval
unfolding clip
clip_to_window window_start window_end [] = []
clip_to_window window_start window_end (ev ∷ events) =
    let rest = clip_to_window window_start window_end events in
    let clipped = clip window_start window_end ev in
    if not (before clipped.start clipped.end) then rest else clipped ∷ rest

-- sort.Slice by start time
pub insert_by_start : Interval → List Interval → List Interval
insert_by_start ev [] = ev ∷ []
insert_by_start ev (e ∷ es) =
    let later = e ∷ insert_by_start ev es in if before e.start ev.start then later else ev ∷ e ∷ es

pub sort_by_start : List Interval → List Interval
unfolding insert_by_start
sort_by_start [] = []
sort_by_start (ev ∷ events) = insert_by_start ev (sort_by_start events)

-- The loop of `mergeAndSum`, over its variables.
merge_loop : ℕ → Time → Time → List Interval → ℕ
merge_loop total cur_start cur_end [] = total + whole_seconds cur_start cur_end
merge_loop total cur_start cur_end (ev ∷ events) =
    let next = merge_loop (total + whole_seconds cur_start cur_end) ev.start ev.end events in
    let same =
      merge_loop total cur_start (if after ev.end cur_end then ev.end else cur_end) events in
    if after ev.start cur_end then next else same

merge_sorted : List Interval → ℕ
unfolding merge_loop
merge_sorted [] = 0
merge_sorted (ev ∷ events) = merge_loop 0 ev.start ev.end events

pub merge_and_sum : List Interval → ℕ
unfolding merge_sorted sort_by_start
merge_and_sum events = merge_sorted (sort_by_start events)

-- `byDevice` maps a device's id to its events. The sum does not depend on the map's order.
pub per_device_seconds : Time → Time → List (String × List Interval) → ℕ
per_device_seconds window_start window_end [] = 0
per_device_seconds window_start window_end ((device, events) ∷ by_device) =
    merge_and_sum (clip_to_window window_start window_end events)
    + per_device_seconds window_start window_end by_device
