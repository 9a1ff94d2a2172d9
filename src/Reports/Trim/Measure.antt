-- ===== src/Reports/Trim/Measure.antt =====
-- How many nanoseconds a list of intervals covers, counted instant by instant.
use rize_backend.Base.{
  ℕ, zero, suc, ◌+◌, ◌-◌, ◌≤◌, ◌≡◌, refl, Bool, true, false, ◌&&◌, ◌||◌, List, [], ◌∷◌, arith, ltb,
  leb, if◌then◌else◌,
}
use rize_backend.Instant.{Time}
use rize_backend.Reports.Trim.{Interval}

abbrev pub contains : Time → Interval → Bool
contains t ev = leb ev.start t && ltb t ev.end

unfoldable pub covers : Time → List Interval → Bool
covers t [] = false
covers t (ev ∷ events) = contains t ev || covers t events

-- The number of instants before `n` that some interval contains.
pub measure : ℕ → List Interval → ℕ
measure zero events = 0
measure (suc n) events = (if covers n events then 1 else 0) + measure n events

abbrev pub interval : Time → Time → Interval
interval s e = record { start = s; end = e }

pub covers-cons :
    (t : Time) (ev : Interval) (events : List Interval)
    → covers t (ev ∷ events) ≡ (contains t ev || covers t events)
unfolding covers
covers-cons t ev events = refl

pub measure_ext :
    (n : ℕ) (xs ys : List Interval)
    → ((t : Time) → covers t xs ≡ covers t ys)
    → measure n xs ≡ measure n ys
unfolding measure
measure_ext zero xs ys h = refl
measure_ext (suc n) xs ys h = rw (h n, measure_ext n xs ys h)

pub measure_nil : (n : ℕ) → measure n [] ≡ 0
unfolding measure covers
measure_nil zero = refl
measure_nil (suc n) = omega (arith, measure_nil n)

measure_single_before : (n s e : ℕ) → n ≤ s → measure n (interval s e ∷ []) ≡ 0
unfolding measure covers
measure_single_before zero s e h = refl
measure_single_before (suc n) s e h = ground (arith, measure_single_before n s e)

measure_single_within : (n s e : ℕ) → s ≤ n → n ≤ e → measure n (interval s e ∷ []) ≡ n - s
unfolding measure covers
measure_single_within zero s e h k = omega arith
measure_single_within (suc n) s e h k =
    ground (arith, measure_single_within n s e, measure_single_before (suc n) s e)

pub measure_single : (n s e : ℕ) → s ≤ e → e ≤ n → measure n (interval s e ∷ []) ≡ e - s
unfolding measure covers
measure_single zero s e h k = omega arith
measure_single (suc n) s e h k =
    ground (arith, measure_single n s e, measure_single_within (suc n) s e)

pub measure_disjoint :
    (n : ℕ) (ev : Interval) (events : List Interval)
    → ((t : Time) → contains t ev ≡ true → covers t events ≡ false)
    → measure n (ev ∷ events) ≡ measure n (ev ∷ []) + measure n events
unfolding measure covers
measure_disjoint zero ev events h = omega arith
measure_disjoint (suc n) ev events h = ground (arith, measure_disjoint n ev events h, h n)
