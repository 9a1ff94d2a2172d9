-- ===== src/Sync/Push/Tables.antt =====
-- The rows that `push` reads and writes, and the statements of
-- internal/store/storedb/sync.sql.go that it runs.
--
-- Columns that the database fills in and nothing here reads are left out (created_at,
-- inserted_at, duration_s), and so are those that `push` always leaves NULL (url and project_id of
-- an event).
pub mod Isolation
pub mod Newer
use rize_backend.Store.Query.{find}
use rize_backend.Store.Query.{DbError, Fault, fault, find, no_rows}
use rize_backend.Base.{false}
use rize_backend.Base.{
  ℕ, String, Bool, true, not, ◌&&◌, Option, none, some, List, [], ◌∷◌, ◌==◌, if◌then◌else◌, any,
}
use mathlib.Core.Option
use rize_backend.Base.{str_eq}
use rize_backend.Base.Int.{ℤ}
use rize_backend.Base.Result.{Result, ok, err}
use rize_backend.Instant.{Time, before}

pub record Device : Type 0 where
  pub id : String
  pub user_id : String
  pub platform : String
  pub revoked_at : Option Time

pub record App : Type 0 where
  pub id : String
  pub bundle_id : String
  pub platform : String
  pub name : String
  pub default_category_id : Option String

pub record UserAppSetting : Type 0 where
  pub user_id : String
  pub app_id : String
  pub category_id : Option String

pub record Project : Type 0 where
  pub id : String
  pub user_id : String

pub record ActivityEvent : Type 0 where
  pub event_id : String
  pub user_id : String
  pub device_id : String
  pub started_at : Time
  pub ended_at : Time
  pub kind : String
  pub source : String
  pub precision : String
  pub app_id : String
  pub raw_bundle_id : String
  pub window_title : Option String
  pub category_id : Option String
  pub deleted : Bool
  pub server_seq : ℕ

pub record FocusSession : Type 0 where
  pub id : String
  pub user_id : String
  pub device_id : String
  pub project_id : Option String
  pub kind : String
  pub planned_duration_s : Option ℤ
  pub started_at : Time
  pub ended_at : Option Time
  pub status : String
  pub note : Option String
  pub updated_at : Time
  pub deleted_at : Option Time
  pub server_seq : ℕ

pub record Tables : Type 0 where
  pub devices : List Device
  pub apps : List App
  pub settings : List UserAppSetting
  pub projects : List Project
  pub events : List ActivityEvent
  pub sessions : List FocusSession

-- revoked_at IS NULL
is_active : Option Time → Bool
is_active none = true
is_active (some t) = false

unfoldable pub get_device_by_id : String → String → List Device → Option Device
unfolding find is_active
get_device_by_id id uid devices =
    find (λ d. str_eq d.id id && str_eq d.user_id uid && is_active d.revoked_at) devices

unfoldable pub get_app_by_bundle_id : String → String → List App → Option App
unfolding find
get_app_by_bundle_id bundle_id platform apps =
    find (λ a. str_eq a.bundle_id bundle_id && str_eq a.platform platform) apps

unfoldable pub get_setting_by_user_and_app :
    String → String → List UserAppSetting → Option UserAppSetting
unfolding find
get_setting_by_user_and_app uid app_id settings =
    find (λ s. str_eq s.user_id uid && str_eq s.app_id app_id) settings

pub get_project_by_id_for_user : String → String → List Project → Option Project
unfolding find
get_project_by_id_for_user id uid projects =
    find (λ p. str_eq p.id id && str_eq p.user_id uid) projects

pub get_focus_session_by_id : String → List FocusSession → Option FocusSession
unfolding find
get_focus_session_by_id id sessions = find (λ s. str_eq s.id id) sessions

-- The idempotency key (user_id, event_id, started_at).
abbrev pub has_key : String → String → Time → ActivityEvent → Bool
has_key uid event_id started_at e =
    str_eq e.user_id uid && str_eq e.event_id event_id && (e.started_at == started_at)

-- INSERT ... ON CONFLICT DO NOTHING: the table with the row, or `none`.
unfoldable pub insert_activity_event :
    ActivityEvent → List ActivityEvent → Option (List ActivityEvent)
insert_activity_event new events =
    if any (has_key new.user_id new.event_id new.started_at) events
    then none
    else some (new ∷ events)

-- UPDATE ... SET deleted = true WHERE the key matches AND deleted = false; the key is unique.
pub tombstone_activity_event :
    ℕ → String → String → Time → List ActivityEvent → Option (List ActivityEvent)
tombstone_activity_event seq uid event_id started_at [] = none
tombstone_activity_event seq uid event_id started_at (e ∷ events) =
    let later = Option.map (e ∷◌) (tombstone_activity_event seq uid event_id started_at events) in
    if has_key uid event_id started_at e && not e.deleted
    then some (record e { deleted = true; server_seq = seq } ∷ events)
    else later

-- INSERT ... ON CONFLICT (id) DO UPDATE ... WHERE the row is the same user's and older.
unfoldable pub upsert_focus_session : FocusSession → List FocusSession → Option (List FocusSession)
upsert_focus_session new [] = some (new ∷ [])
upsert_focus_session new (s ∷ sessions) =
    let later = Option.map (s ∷◌) (upsert_focus_session new sessions) in
    if str_eq s.id new.id
    then (if str_eq s.user_id new.user_id && before s.updated_at new.updated_at
        then some (new ∷ sessions)
        else none)
    else later
