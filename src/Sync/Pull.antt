-- ===== src/Sync/Pull.antt =====
-- internal/sync/pull.go: what a pull answers, and what it asks of the world around it.
--
-- An id is its canonical spelling, so String() of an id and `formatOptionalUUID` are not written.
pub mod Tables
pub mod Resolve
pub mod Keyed
pub mod Collect
pub mod Response
mod Tests
use rize_backend.Base.{
  ℕ, zero, suc, ◌+◌, ◌-◌, ◌*◌, ◌/◌, ◌%◌, ◌^◌, ◌≤◌, ◌<◌, String, ◌≡◌, refl, sym, ap, ◌∙◌, ◌≢◌, ◌↔◌,
  ◌⊎◌, inl, inr, Bool, true, false, not, ◌&&◌, ◌||◌, Option, none, some, List, [], ◌∷◌, ◌++◌, map,
  arith, ltb, leb, ◌==◌, if◌then◌else◌, ltb→lt, lt→ltb, ltb-false→le, le→ltb-false, leb→le, ==_iff,
  Bool-cases, Option-cases, length, take, drop, keep, any, All, last?, length-append,
  take-append-drop, length-take, length-drop, sum, In, In-keep, In_of_keep, In_of_take,
  In_of_append, In-append_left, In-append_right, any-eq-true, In-All,
}
use rize_backend.Base.Int.{ℤ}
use rize_backend.Base.Result.{Result, ok, err}
use rize_backend.Instant.{Time}
use rize_backend.Store.Base64.{Bytes}
use rize_backend.Store.Query.{Fault}
use rize_backend.Sync.Changelog.{Entry}

pub record ActivityEventUpsert : Type 0 where
  pub event_id : String
  pub started_at : String
  pub ended_at : String
  pub app_bundle_id : Option String
  pub category : Option String
  pub precision : String
  pub server_seq : ℕ

pub record FocusSessionUpsert : Type 0 where
  pub id : String
  pub updated_at : String
  pub started_at : String
  pub ended_at : Option String
  pub project_id : Option String
  pub kind : String
  pub status : String
  pub planned_duration_s : Option ℤ
  pub note : Option String
  pub server_seq : ℕ

pub record ProjectUpsert : Type 0 where
  pub id : String
  pub name : String
  pub color : String
  pub archived_at : Option String
  pub updated_at : String
  pub server_seq : ℕ

pub record TagUpsert : Type 0 where
  pub id : String
  pub name : String
  pub updated_at : String
  pub server_seq : ℕ

pub record UserAppSettingUpsert : Type 0 where
  pub app_id : String
  pub category_id : Option String
  pub excluded : Bool
  pub updated_at : String
  pub server_seq : ℕ

pub record CategoryUpsert : Type 0 where
  pub id : String
  pub name : String
  pub color : String
  pub productivity : ℤ
  pub updated_at : String
  pub server_seq : ℕ

-- The tombstones of all types: an id (`event_id` for an event) and a sequence number.
pub record TombstoneDto : Type 0 where
  pub id : String
  pub server_seq : ℕ

pub data Upsert : Type 0 where
  activity_event : ActivityEventUpsert → Upsert
  focus_session : FocusSessionUpsert → Upsert
  project : ProjectUpsert → Upsert
  tag : TagUpsert → Upsert
  user_app_setting : UserAppSettingUpsert → Upsert
  category : CategoryUpsert → Upsert

-- An entry has an upsert or a tombstone, never both.
pub data Change : Type 0 where
  upsert : Upsert → Change
  tombstone : TombstoneDto → Change

pub record ChangelogEntry : Type 0 where
  pub entity_type : String
  pub change : Change

pub record ChangeSet : Type 0 where
  pub upserts : List Upsert
  pub tombstones : List TombstoneDto

pub record PullResponse : Type 0 where
  pub changes : List (String × ChangeSet)
  pub next_cursor : Bytes
  pub has_more : Bool

pub data PullError : Type 0 where
  invalid_user_id invalid_cursor cursor_expired : PullError
  failed : String → PullError
  unknown_entity_type : String → PullError

-- The commands of a pull; a lookup is told by the row that it resolves.
pub data Call : Type 0 where
  begin get_horizon list_page : Call
  lookup : Entry → Call

-- `parse_uuid` is `parseUUID`; `format_time` is `t.UTC().Format(time.RFC3339)`.
pub record Env : Type 0 where
  pub parse_uuid : String → Option String
  pub format_time : Time → String
  pub faults : Call → Option Fault

abbrev pub default_pull_limit : ℕ
default_pull_limit = 200

abbrev pub max_pull_limit : ℕ
max_pull_limit = 500

abbrev pub pull_entity_types : List String
pull_entity_types =
    "activity_events" ∷ "focus_sessions" ∷ "projects" ∷ "tags" ∷ "user_app_settings" ∷ "categories"
    ∷ []

-- formatTs of a column that is NOT NULL.
abbrev pub format_ts : Env → Time → String
format_ts env t = env.format_time t

abbrev pub format_optional_ts : Env → Option Time → Option String
format_optional_ts env none = none
format_optional_ts env (some t) = some (env.format_time t)
