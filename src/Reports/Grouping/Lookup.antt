-- ===== src/Reports/Grouping/Lookup.antt =====
-- Grouping the rows of a report loses no event and moves none to another bucket or device.
use rize_backend.Base.{String, ◌≡◌, sym, ◌&&◌, List, [], ◌∷◌, ◌++◌, arith, if◌then◌else◌}
use mathlib.Core.List.{append_assoc, append-nil}
use rize_backend.Base.{str_eq, eq_iff}
use rize_backend.Reports.Trim.{Interval}
use rize_backend.Reports.Grouping.{
  RawRow, Dimension, Key, key, Group, add_event, add_row, group_rows,
}

abbrev pub device_events : String → List (String × List Interval) → List Interval
device_events dev [] = []
device_events dev ((d, evs) ∷ rest) = if str_eq d dev then evs else device_events dev rest

-- The events that the groups hold for a bucket and a device.
abbrev pub events_at : String → String → List Group → List Interval
events_at id dev [] = []
events_at id dev (g ∷ grouped) =
    if str_eq g.id id then device_events dev g.by_device else events_at id dev grouped

-- The events of those rows that belong to a bucket and a device, in order.
abbrev pub events_of : Dimension → String → String → List RawRow → List Interval
events_of dim id dev [] = []
events_of dim id dev (r ∷ rows) =
    let rest = events_of dim id dev rows in
    if str_eq (key dim r).id id && str_eq r.device_id dev
    then record { start = r.started_at; end = r.ended_at } ∷ rest
    else rest

device_events-add_event :
    (dev d : String) (ev : Interval) (m : List (String × List Interval))
    → device_events dev (add_event d ev m)
      ≡ (if str_eq d dev then device_events dev m ++ ev ∷ [] else device_events dev m)
unfolding add_event
device_events-add_event dev d ev [] = ground arith
device_events-add_event dev d ev ((e, evs) ∷ m) =
    ground (arith, eq_iff e d, eq_iff e dev, eq_iff d dev, device_events-add_event dev d ev m)

events_at-add_row :
    (id dev : String) (k : Key) (d : String) (ev : Interval) (gs : List Group)
    → events_at id dev (add_row k d ev gs) ≡ (
        if str_eq k.id id && str_eq d dev
        then events_at id dev gs ++ ev ∷ []
        else events_at id dev gs)
unfolding add_row
events_at-add_row id dev k d ev [] = ground (arith, device_events-add_event dev d ev [])
events_at-add_row id dev k d ev (g ∷ gs) = ground (
  arith,
  eq_iff g.id k.id,
  eq_iff g.id id,
  eq_iff k.id id,
  device_events-add_event dev d ev g.by_device,
  events_at-add_row id dev k d ev gs,
)

group_rows-append :
    (dim : Dimension) (id dev : String) (gs : List Group) (rows : List RawRow)
    → events_at id dev (group_rows dim gs rows) ≡ events_at id dev gs ++ events_of dim id dev rows
unfolding group_rows
group_rows-append dim id dev gs [] = sym (append-nil _)
group_rows-append dim id dev gs (r ∷ rows) =
    let ev : Interval = record { start = r.started_at; end = r.ended_at } in
    ground (
      arith,
      group_rows-append dim id dev (add_row (key dim r) r.device_id ev gs) rows,
      events_at-add_row id dev (key dim r) r.device_id ev gs,
      append_assoc (events_at id dev gs) (ev ∷ []) (events_of dim id dev rows),
    )

-- After grouping, the events held for a bucket's id and a device are the events of the rows with
-- that id and device, in the order of the rows.
pub events_at-group_rows :
    (dim : Dimension) (id dev : String) (rows : List RawRow)
    → events_at id dev (group_rows dim [] rows) ≡ events_of dim id dev rows
events_at-group_rows dim id dev rows = group_rows-append dim id dev [] rows
