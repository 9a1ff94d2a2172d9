-- ===== src/Reports/Grouping.antt =====
-- internal/reports/dimension.go: the rows of a report, grouped by bucket and by device.
--
-- The Go maps `grouped` and `names`, which have the same keys, are one list of groups.
pub mod Lookup
use rize_backend.Base.{
  ℕ, zero, suc, ◌+◌, ◌-◌, ◌*◌, ◌/◌, ◌%◌, ◌^◌, ◌≤◌, ◌<◌, String, ◌≡◌, refl, sym, ap, ◌∙◌, ◌≢◌, ◌↔◌,
  ◌⊎◌, inl, inr, Bool, true, false, not, ◌&&◌, ◌||◌, Option, none, some, List, [], ◌∷◌, ◌++◌, map,
  arith, ltb, leb, ◌==◌, if◌then◌else◌, ltb→lt, lt→ltb, ltb-false→le, le→ltb-false, leb→le, ==_iff,
  Bool-cases, Option-cases, length, take, drop, keep, any, All, last?, length-append,
  take-append-drop, length-take, length-drop, sum,
}
use rize_backend.Base.{str_eq}
use rize_backend.Instant.{Time}
use rize_backend.Reports.Trim.{Interval, per_device_seconds}
use rize_backend.Reports.Bucket.{Bucket}

pub data Dimension : Type 0 where
  dim_category dim_app dim_project : Dimension

pub record RawRow : Type 0 where
  pub device_id : String
  pub category_id : Option String
  pub category_name : Option String
  pub app_id : Option String
  pub app_name : Option String
  pub app_bundle_id : Option String
  pub project_id : Option String
  pub project_name : Option String
  pub started_at : Time
  pub ended_at : Time

deref_str : Option String → String
deref_str none = ""
deref_str (some s) = s

-- The id of a row's bucket, and the names that go with it.
pub record Key : Type 0 where
  pub id : String
  pub name : String
  pub bundle : String

pub name_or : Option String → Option String → Option String → String → Key
unfolding deref_str
name_or none name bundle missing = record { id = ""; name = missing; bundle = "" }
name_or (some id) name bundle missing = record {
  id = id;
  name = deref_str name;
  bundle = deref_str bundle;
}

pub key : Dimension → RawRow → Key
unfolding name_or
key dim_category r = name_or r.category_id r.category_name none "Uncategorized"
key dim_app r = name_or r.app_id r.app_name r.app_bundle_id "Unknown"
key dim_project r = name_or r.project_id r.project_name none "No Project"

pub record Group : Type 0 where
  pub id : String
  pub name : String
  pub bundle : String
  pub by_device : List (String × List Interval)

add_event : String → Interval → List (String × List Interval) → List (String × List Interval)
add_event dev ev [] = (dev, ev ∷ []) ∷ []
add_event dev ev ((d, evs) ∷ rest) =
    let later = (d, evs) ∷ add_event dev ev rest in
    if str_eq d dev then (d, evs ++ ev ∷ []) ∷ rest else later

add_row : Key → String → Interval → List Group → List Group
unfolding add_event
add_row k dev ev [] =
    record { id = k.id; name = k.name; bundle = k.bundle; by_device = add_event dev ev [] } ∷ []
add_row k dev ev (g ∷ grouped) =
    let later = g ∷ add_row k dev ev grouped in
    if str_eq g.id k.id
    then record g { name = k.name; bundle = k.bundle; by_device = add_event dev ev g.by_device }
      ∷ grouped
    else later

pub group_rows : Dimension → List Group → List RawRow → List Group
unfolding key add_row
group_rows dim grouped [] = grouped
group_rows dim grouped (r ∷ rows) =
    group_rows dim
      (add_row (key dim r) r.device_id (record { start = r.started_at; end = r.ended_at }) grouped)
      rows

pub to_bucket : Time → Time → Group → Bucket
to_bucket from to g = record {
  id = g.id;
  name = g.name;
  bundle_id = g.bundle;
  seconds = per_device_seconds from to g.by_device;
}
