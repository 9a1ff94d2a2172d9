-- ===== src/Reports/Window.antt =====
-- internal/reports/window.go: the split of a requested range into whole closed days, read from a
-- continuous aggregate, and the raw edges.
pub mod Cover
use rize_backend.Base.{
  ℕ, ◌+◌, ◌*◌, ◌/◌, Bool, true, false, not, ◌&&◌, List, [], ◌∷◌, ◌++◌, if◌then◌else◌,
}
use rize_backend.Instant.{Time, day, before, after, equal}

-- A half-open span.
pub record Window : Type 0 where
  pub from : Time
  pub to : Time

pub day_start : Time → Time
day_start t = t / day * day

min_time : Time → Time → Time
min_time a b = if before a b then a else b

pub record Split : Type 0 where
  pub closed : Window
  pub has_closed : Bool
  pub raw : List Window

abbrev no_window : Window
no_window = record { from = 0; to = 0 }

-- The code below the early return.
split_aligned : Time → Time → Time → Split
unfolding day_start min_time
split_aligned from to effective_closed_to =
    let aligned = equal from (day_start from) in
    let aligned_from = if aligned then day_start from else day_start from + day in
    let leading : List Window =
      if aligned then [] else record { from = from; to = min_time to aligned_from } ∷ [] in
    let aligned_to = day_start effective_closed_to in
    let has_closed = before aligned_from aligned_to in
    let closed : Window =
      if has_closed then record { from = aligned_from; to = aligned_to } else no_window in
    let start =
      if not has_closed && before aligned_to aligned_from then aligned_from else aligned_to in
    let trailing : List Window =
      if after to aligned_to && before start to
      then record { from = start; to = to } ∷ []
      else [] in
    record { closed = closed; has_closed = has_closed; raw = leading ++ trailing }

unfoldable pub split_closed_open : Time → Time → Time → Split
unfolding split_aligned
split_closed_open from to now =
    let today_start = day_start now in
    let effective_closed_to = if before today_start to then today_start else to in
    if not (after effective_closed_to from)
    then record {
      closed = no_window;
      has_closed = false;
      raw = record { from = from; to = to } ∷ [];
    }
    else split_aligned from to effective_closed_to
