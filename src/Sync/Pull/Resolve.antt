-- ===== src/Sync/Pull/Resolve.antt =====
-- `resolveChangelogEntry` of internal/sync/pull.go: a row of the page, to its entity's current
-- state. `none` is an entity that is not found.
pub mod Owned
use rize_backend.Base.{
  ℕ, zero, suc, ◌+◌, ◌-◌, ◌*◌, ◌/◌, ◌%◌, ◌^◌, ◌≤◌, ◌<◌, String, ◌≡◌, refl, sym, ap, ◌∙◌, ◌≢◌, ◌↔◌,
  ◌⊎◌, inl, inr, Bool, true, false, not, ◌&&◌, ◌||◌, Option, none, some, List, [], ◌∷◌, ◌++◌, map,
  arith, ltb, leb, ◌==◌, if◌then◌else◌, ltb→lt, lt→ltb, ltb-false→le, le→ltb-false, leb→le, ==_iff,
  Bool-cases, Option-cases, length, take, drop, keep, any, All, last?, length-append,
  take-append-drop, length-take, length-drop, sum, In, In-keep, In_of_keep, In_of_take,
  In_of_append, In-append_left, In-append_right, any-eq-true, In-All,
}
use rize_backend.Base.{str_eq}
use rize_backend.Base.Result.{Result, ok, err, ◌>>=◌, ◌>>◌}
use rize_backend.Instant.{Time}
use rize_backend.Store.Query.{Fault, find}
use rize_backend.Sync.Changelog.{Entry}
use rize_backend.Sync.Push.Tables.{ActivityEvent, FocusSession}
use rize_backend.Sync.Pull.{
  Env, PullError, failed, unknown_entity_type, ChangelogEntry, Change, upsert, tombstone, Upsert,
  lookup, format_ts, format_optional_ts,
}
use rize_backend.Sync.Pull
use rize_backend.Sync.Pull.Tables.{
  ProjectRow, TagRow, SettingRow, CategoryRow, Snapshot, get_activity_event, app_bundle_id,
  category_name, get_focus_session, get_project, get_tag, get_setting, get_category,
}

abbrev pub if_deleted : Option Time → Change → Change → Change
if_deleted none kept gone = kept
if_deleted (some t) kept gone = gone

pub event_change : Env → Snapshot → ActivityEvent → Change
event_change env s r =
    if r.deleted
    then tombstone (record { id = r.event_id; server_seq = r.server_seq })
    else upsert (
        Pull.activity_event (record {
          event_id = r.event_id;
          started_at = format_ts env r.started_at;
          ended_at = format_ts env r.ended_at;
          app_bundle_id = app_bundle_id s r;
          category = category_name s r;
          precision = r.precision;
          server_seq = r.server_seq;
        }))

pub session_change : Env → FocusSession → Change
session_change env r =
    if_deleted r.deleted_at
      (upsert (
        Pull.focus_session (record {
          id = r.id;
          updated_at = format_ts env r.updated_at;
          started_at = format_ts env r.started_at;
          ended_at = format_optional_ts env r.ended_at;
          project_id = r.project_id;
          kind = r.kind;
          status = r.status;
          planned_duration_s = r.planned_duration_s;
          note = r.note;
          server_seq = r.server_seq;
        })))
      (tombstone (record { id = r.id; server_seq = r.server_seq }))

unfoldable pub project_change : Env → ProjectRow → Change
project_change env r =
    if_deleted r.deleted_at
      (upsert (
        Pull.project (record {
          id = r.id;
          name = r.name;
          color = r.color;
          archived_at = format_optional_ts env r.archived_at;
          updated_at = format_ts env r.updated_at;
          server_seq = r.server_seq;
        })))
      (tombstone (record { id = r.id; server_seq = r.server_seq }))

pub tag_change : Env → TagRow → Change
tag_change env r =
    if_deleted r.deleted_at
      (upsert (
        Pull.tag (record {
          id = r.id;
          name = r.name;
          updated_at = format_ts env r.updated_at;
          server_seq = r.server_seq;
        })))
      (tombstone (record { id = r.id; server_seq = r.server_seq }))

pub setting_change : Env → SettingRow → Change
setting_change env r = upsert (
    Pull.user_app_setting (record {
      app_id = r.app_id;
      category_id = r.category_id;
      excluded = r.excluded;
      updated_at = format_ts env r.updated_at;
      server_seq = r.server_seq;
    }))

pub category_change : Env → CategoryRow → Change
category_change env r =
    if_deleted r.deleted_at
      (upsert (
        Pull.category (record {
          id = r.id;
          name = r.name;
          color = r.color;
          productivity = r.productivity;
          updated_at = format_ts env r.updated_at;
          server_seq = r.server_seq;
        })))
      (tombstone (record { id = r.id; server_seq = r.server_seq }))

-- A row of a lookup, as an entry of the response.
abbrev pub entry_of : {A : Type 0} → String → (A → Change) → Option A → Option ChangelogEntry
entry_of entity_type change none = none
entry_of entity_type change (some r) =
    some (record { entity_type = entity_type; change = change r })

-- A lookup that can fail.
abbrev pub looked_up :
    Option Fault → Option ChangelogEntry → Result PullError (Option ChangelogEntry)
looked_up none found = ok found
looked_up (some f) found = err (failed "sync: resolve changelog entry")

unfoldable pub resolve_changelog_entry :
    Env → Snapshot → String → Entry → Result PullError (Option ChangelogEntry)
unfolding event_change session_change project_change tag_change setting_change category_change
resolve_changelog_entry env s uid row =
    let t = row.entity_type in
    let fault = env.faults (lookup row) in
    if str_eq t "activity_events"
    then looked_up fault (
        entry_of t (event_change env s)
          (get_activity_event uid row.entity_id row.event_started_at s))
    else if str_eq t "focus_sessions"
    then looked_up fault (entry_of t (session_change env) (get_focus_session uid row.entity_id s))
    else if str_eq t "projects"
    then looked_up fault (entry_of t (project_change env) (get_project uid row.entity_id s))
    else if str_eq t "tags"
    then looked_up fault (entry_of t (tag_change env) (get_tag uid row.entity_id s))
    else if str_eq t "user_app_settings"
    then looked_up fault (entry_of t (setting_change env) (get_setting uid row.entity_id s))
    else if str_eq t "categories"
    then looked_up fault (entry_of t (category_change env) (get_category uid row.entity_id s))
    else err (unknown_entity_type t)
