-- ===== src/Reports/Trim/Cap.antt =====
-- A device's total never exceeds the length of the window.
use rize_backend.Base.{
  ℕ, ◌+◌, ◌*◌, ◌≤◌, ◌<◌, String, inl, inr, List, [], ◌∷◌, arith, if◌then◌else◌, Bool-cases, length,
  All,
}
use rize_backend.Instant.{Time, after, whole_seconds, second}
use rize_backend.Reports.Trim.{
  Interval, clip_to_window, insert_by_start, sort_by_start, merge_loop, merge_sorted, merge_and_sum,
  per_device_seconds,
}

-- A nonempty interval inside [a, b).
pub record Inside (a b : Time) (ev : Interval) : Type 0 where
  pub from : a ≤ ev.start
  pub nonempty : ev.start < ev.end
  pub to : ev.end ≤ b

clip_to_window-Inside :
    (a b : Time) (events : List Interval) → All (Inside a b) (clip_to_window a b events)
unfolding clip_to_window
clip_to_window-Inside a b [] = tt
clip_to_window-Inside a b (ev ∷ events) = ground (arith, clip_to_window-Inside a b events)

insert_by_start-All :
    (P : Interval → Type 0) (ev : Interval) (es : List Interval)
    → P ev
    → All P es
    → All P (insert_by_start ev es)
unfolding insert_by_start
insert_by_start-All P ev [] h k = (h, tt)
insert_by_start-All P ev (e ∷ es) h k = ground (arith, insert_by_start-All P ev es)

pub sort_by_start-All :
    (P : Interval → Type 0) (es : List Interval) → All P es → All P (sort_by_start es)
unfolding sort_by_start
sort_by_start-All P [] k = tt
sort_by_start-All P (e ∷ es) k =
    insert_by_start-All P e (sort_by_start es) k.0 (sort_by_start-All P es k.1)

merge_loop_cap :
    (a b : Time) (total s e : ℕ) (events : List Interval)
    → a + total * second ≤ s
    → s ≤ e
    → e ≤ b
    → All (Inside a b) events
    → merge_loop total s e events ≤ whole_seconds a b
unfolding merge_loop
merge_loop_cap a b total s e [] h k l m = omega arith
merge_loop_cap a b total s e (ev ∷ events) h k l m = elim (Bool-cases (after ev.start e)) [
  | inl p ↦ rw p (
      merge_loop_cap a b (total + whole_seconds s e) ev.start ev.end events (ground arith)
        (omega arith) (omega arith) m.1)
  | inr p ↦ rw p (
      merge_loop_cap a b total s (if after ev.end e then ev.end else e) events h (ground arith)
        (ground arith) m.1)
]

merge_sorted_cap :
    (a b : Time) (events : List Interval)
    → All (Inside a b) events
    → merge_sorted events ≤ whole_seconds a b
unfolding merge_sorted
merge_sorted_cap a b [] h = omega arith
merge_sorted_cap a b (ev ∷ events) h =
    merge_loop_cap a b 0 ev.start ev.end events (omega arith) (omega arith) (omega arith) h.1

pub merge_and_sum_cap :
    (a b : Time) (events : List Interval)
    → merge_and_sum (clip_to_window a b events) ≤ whole_seconds a b
unfolding merge_and_sum
merge_and_sum_cap a b events =
    merge_sorted_cap a b _ (sort_by_start-All (Inside a b) _ (clip_to_window-Inside a b events))

-- The seconds of a bucket in a window are at most the number of its devices times the length of
-- the window.
pub per_device_seconds_cap :
    (a b : Time) (by_device : List (String × List Interval))
    → per_device_seconds a b by_device ≤ length by_device * whole_seconds a b
unfolding per_device_seconds
per_device_seconds_cap a b [] = omega arith
per_device_seconds_cap a b ((d, events) ∷ rest) =
    omega (arith, merge_and_sum_cap a b events, per_device_seconds_cap a b rest)
