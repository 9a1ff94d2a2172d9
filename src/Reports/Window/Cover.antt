-- ===== src/Reports/Window/Cover.antt =====
-- The windows of a split are disjoint and cover the requested range exactly.
use rize_backend.Base.{
  ℕ, ◌+◌, ◌%◌, ◌≤◌, ◌<◌, ◌≡◌, true, ◌&&◌, List, [], ◌∷◌, arith, ltb, leb, if◌then◌else◌,
}
use rize_backend.Instant.{Time, day}
use rize_backend.Reports.Window.{Window, Split, day_start, split_aligned, split_closed_open}

-- 1 if the instant lies in the window, else 0.
abbrev pub hits : Time → Window → ℕ
hits t w = if leb w.from t && ltb t w.to then 1 else 0

abbrev pub hits_all : Time → List Window → ℕ
hits_all t [] = 0
hits_all t (w ∷ ws) = hits t w + hits_all t ws

-- In how many windows of the split an instant lies.
abbrev pub times_counted : Time → Split → ℕ
times_counted t s = (if s.has_closed then hits t s.closed else 0) + hits_all t s.raw

split_aligned-cover :
    (from to e t : Time)
    → from < e
    → e ≤ to
    → times_counted t (split_aligned from to e) ≡ hits t (record { from = from; to = to })
unfolding split_aligned
split_aligned-cover from to e t h k = ground arith

-- For every instant: the closed window and the raw windows of a split hold it once if the
-- requested range holds it, and not at all otherwise.
pub split_closed_open-cover :
    (from to now t : Time)
    → times_counted t (split_closed_open from to now) ≡ hits t (record { from = from; to = to })
unfolding split_closed_open
split_closed_open-cover from to now t = ground (arith)

-- What a closed window is: whole days, inside the request, over before today began.
pub record IsClosedPart (from to now : Time) (w : Window) : Type 0 where
  pub starts_at_midnight : w.from % day ≡ 0
  pub ends_at_midnight : w.to % day ≡ 0
  pub nonempty : w.from < w.to
  pub after_from : from ≤ w.from
  pub before_to : w.to ≤ to
  pub before_today : w.to ≤ day_start now

split_aligned-IsClosedPart :
    (from to e now : Time)
    → from < e
    → e ≤ to
    → e ≤ day_start now
    → (split_aligned from to e).has_closed ≡ true
    → IsClosedPart from to now (split_aligned from to e).closed
unfolding split_aligned
split_aligned-IsClosedPart from to e now h k l c = record {
  starts_at_midnight = ground arith;
  ends_at_midnight = ground arith;
  nonempty = ground arith;
  after_from = ground arith;
  before_to = ground arith;
  before_today = ground arith;
}

-- A closed window starts and ends at midnight, is not empty, lies inside the requested range, and
-- ends no later than today began.
pub split_closed_open-IsClosedPart :
    (from to now : Time)
    → (split_closed_open from to now).has_closed ≡ true
    → IsClosedPart from to now (split_closed_open from to now).closed
unfolding split_closed_open
split_closed_open-IsClosedPart from to now c = ground (
  arith,
  split_aligned-IsClosedPart from to to now,
  split_aligned-IsClosedPart from to (day_start now) now,
)
