-- ===== src/Reports/Trim/Sorting.antt =====
-- What sorting intervals by their start keeps.
use rize_backend.Base.{ℕ, suc, ◌%◌, ◌≤◌, ◌<◌, ◌≡◌, refl, false, List, [], ◌∷◌, arith, length}
use rize_backend.Instant.{Time, second}
use rize_backend.Reports.Trim.{Interval, insert_by_start, sort_by_start}
use rize_backend.Reports.Trim.Measure.{covers, covers-cons}

-- Starts are in order, none before `lo`.
abbrev pub StartsFrom : Time → List Interval → Type 0
StartsFrom lo [] = Unit
StartsFrom lo (ev ∷ events) = (lo ≤ ev.start) × StartsFrom ev.start events

-- What `mergeAndSum` is called with: nonempty intervals that end by `n`.
pub record EndsBy (n : ℕ) (ev : Interval) : Type 0 where
  pub nonempty : ev.start < ev.end
  pub by : ev.end ≤ n

pub record IsWhole (ev : Interval) : Type 0 where
  pub start : ev.start % second ≡ 0
  pub end : ev.end % second ≡ 0

pub covers-insert_by_start :
    (t : Time) (ev : Interval) (es : List Interval)
    → covers t (insert_by_start ev es) ≡ covers t (ev ∷ es)
unfolding insert_by_start covers
covers-insert_by_start t ev [] = refl
covers-insert_by_start t ev (e ∷ es) = ground (arith, covers-insert_by_start t ev es)

pub covers-sort_by_start :
    (t : Time) (es : List Interval) → covers t (sort_by_start es) ≡ covers t es
unfolding sort_by_start
covers-sort_by_start t [] = refl
covers-sort_by_start t (e ∷ es) = rw (
  covers-insert_by_start t e (sort_by_start es),
  covers-cons t e (sort_by_start es),
  covers-cons t e es,
  covers-sort_by_start t es,
)

pub length-insert_by_start :
    (ev : Interval) (es : List Interval) → length (insert_by_start ev es) ≡ suc (length es)
unfolding insert_by_start
length-insert_by_start ev [] = refl
length-insert_by_start ev (e ∷ es) = ground (arith, length-insert_by_start ev es)

pub length-sort_by_start : (es : List Interval) → length (sort_by_start es) ≡ length es
unfolding sort_by_start
length-sort_by_start [] = refl
length-sort_by_start (e ∷ es) =
    omega (arith, length-insert_by_start e (sort_by_start es), length-sort_by_start es)

pub insert_by_start-StartsFrom :
    (lo : Time) (ev : Interval) (es : List Interval)
    → lo ≤ ev.start
    → StartsFrom lo es
    → StartsFrom lo (insert_by_start ev es)
unfolding insert_by_start
insert_by_start-StartsFrom lo ev [] h k = (h, tt)
insert_by_start-StartsFrom lo ev (e ∷ es) h k =
    ground (arith, insert_by_start-StartsFrom e.start ev es)

pub sort_by_start-StartsFrom : (es : List Interval) → StartsFrom 0 (sort_by_start es)
unfolding sort_by_start
sort_by_start-StartsFrom [] = tt
sort_by_start-StartsFrom (e ∷ es) =
    insert_by_start-StartsFrom 0 e (sort_by_start es) (omega arith) (sort_by_start-StartsFrom es)

pub StartsFrom-le :
    (lo hi : Time) (es : List Interval) → lo ≤ hi → StartsFrom hi es → StartsFrom lo es
StartsFrom-le lo hi [] h k = tt
StartsFrom-le lo hi (e ∷ es) h k = (omega arith, k.1)

pub covers_before :
    (lo t : Time) (es : List Interval) → StartsFrom lo es → t < lo → covers t es ≡ false
unfolding covers
covers_before lo t [] h k = refl
covers_before lo t (e ∷ es) h k = ground (arith, covers_before e.start t es)
