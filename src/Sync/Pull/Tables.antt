-- ===== src/Sync/Pull/Tables.antt =====
-- The rows that a pull reads in its snapshot, and the lookups of internal/store/storedb/pull.sql.go.
use rize_backend.Base.{ℕ, String, Bool, false, ◌&&◌, Option, none, some, List, ◌==◌}
use rize_backend.Base.{str_eq}
use rize_backend.Base.Int.{ℤ}
use rize_backend.Instant.{Time}
use rize_backend.Store.Query.{find}
use rize_backend.Sync.Changelog.{Db}
use rize_backend.Sync.Feed.{of_user}
use rize_backend.Sync.Push.Tables.{App, ActivityEvent, FocusSession}

pub record ProjectRow : Type 0 where
  pub id : String
  pub user_id : String
  pub name : String
  pub color : String
  pub archived_at : Option Time
  pub updated_at : Time
  pub deleted_at : Option Time
  pub server_seq : ℕ

pub record TagRow : Type 0 where
  pub id : String
  pub user_id : String
  pub name : String
  pub updated_at : Time
  pub deleted_at : Option Time
  pub server_seq : ℕ

pub record SettingRow : Type 0 where
  pub user_id : String
  pub app_id : String
  pub category_id : Option String
  pub excluded : Bool
  pub updated_at : Time
  pub server_seq : ℕ

-- A category without a user is a system default.
pub record CategoryRow : Type 0 where
  pub id : String
  pub user_id : Option String
  pub name : String
  pub color : String
  pub productivity : ℤ
  pub updated_at : Time
  pub deleted_at : Option Time
  pub server_seq : ℕ

-- One REPEATABLE READ snapshot, whose pg_snapshot_xmin is `xmin`.
pub record Snapshot : Type 0 where
  pub db : Db
  pub xmin : ℕ
  pub apps : List App
  pub events : List ActivityEvent
  pub sessions : List FocusSession
  pub projects : List ProjectRow
  pub tags : List TagRow
  pub settings : List SettingRow
  pub categories : List CategoryRow

-- ae.started_at = $3; nothing equals NULL.
abbrev started_when : Option Time → Time → Bool
started_when none t = false
started_when (some at) t = t == at

abbrev pub is_event : String → String → Option Time → ActivityEvent → Bool
is_event uid id at e = str_eq e.user_id uid && str_eq e.event_id id && started_when at e.started_at

abbrev pub get_activity_event : String → String → Option Time → Snapshot → Option ActivityEvent
get_activity_event uid id at s = find (is_event uid id at) s.events

-- LEFT JOIN apps a ON a.id = ae.app_id
abbrev bundle_of : Option App → Option String
bundle_of none = none
bundle_of (some a) = some a.bundle_id

abbrev pub app_bundle_id : Snapshot → ActivityEvent → Option String
app_bundle_id s e = bundle_of (find (λ a. str_eq a.id e.app_id) s.apps)

-- LEFT JOIN categories c ON c.id = ae.category_id
abbrev name_of : Option CategoryRow → Option String
name_of none = none
name_of (some c) = some c.name

abbrev named : List CategoryRow → Option String → Option String
named categories none = none
named categories (some id) = name_of (find (λ c. str_eq c.id id) categories)

abbrev pub category_name : Snapshot → ActivityEvent → Option String
category_name s e = named s.categories e.category_id

abbrev pub get_focus_session : String → String → Snapshot → Option FocusSession
get_focus_session uid id s = find (λ r. str_eq r.user_id uid && str_eq r.id id) s.sessions

abbrev pub get_project : String → String → Snapshot → Option ProjectRow
get_project uid id s = find (λ r. str_eq r.user_id uid && str_eq r.id id) s.projects

abbrev pub get_tag : String → String → Snapshot → Option TagRow
get_tag uid id s = find (λ r. str_eq r.user_id uid && str_eq r.id id) s.tags

abbrev pub get_setting : String → String → Snapshot → Option SettingRow
get_setting uid app_id s = find (λ r. str_eq r.user_id uid && str_eq r.app_id app_id) s.settings

-- WHERE id = $1 AND (user_id = $2 OR user_id IS NULL)
abbrev pub get_category : String → String → Snapshot → Option CategoryRow
get_category uid id s = find (λ r. str_eq r.id id && of_user uid r.user_id) s.categories
