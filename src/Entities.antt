-- ===== src/Entities.antt =====
-- The services of the entities that users edit over REST, internal/projects, internal/tags,
-- internal/categories and internal/focussessions: what they share.
pub mod Rows
pub mod Reads
pub mod Requests
pub mod Projects
pub mod Tags
pub mod Categories
pub mod FocusSessions
pub mod History
mod Tests
use rize_backend.Base.{
  ℕ, zero, suc, ◌+◌, ◌-◌, ◌*◌, ◌/◌, ◌%◌, ◌^◌, ◌≤◌, ◌<◌, String, ◌≡◌, refl, sym, ap, ◌∙◌, ◌≢◌, ◌↔◌,
  ◌⊎◌, inl, inr, Bool, true, false, not, ◌&&◌, ◌||◌, Option, none, some, List, [], ◌∷◌, ◌++◌, map,
  arith, ltb, leb, ◌==◌, if◌then◌else◌, ltb→lt, lt→ltb, ltb-false→le, le→ltb-false, leb→le, ==_iff,
  Bool-cases, Option-cases, length, take, drop, keep, any, All, last?, length-append,
  take-append-drop, length-take, length-drop, sum, In, In-keep, In_of_keep, In_of_take,
  In_of_append, In-append_left, In-append_right, any-eq-true, In-All,
}
use Prim.Native.String.{◌++◌ as str_append}
use rize_backend.Base.{str_eq}
use rize_backend.Base.Result.{Result, ok, err, ◌>>=◌, ◌>>◌, require, or_fail}
use rize_backend.Instant.{Time}
use rize_backend.Store.Query.{Fault, DbError, no_rows, fault}
use rize_backend.Store.DbErr.{constraint_violation}

pub data EntityError : Type 0 where
  not_found : EntityError
  validation : String → EntityError
  conflict : String → EntityError
  internal : String → EntityError

-- The statements of one request.
pub data Call : Type 0 where
  insert_row get_row update_row delete_row list_rows get_device get_project : Call

-- `parse_uuid` is `pgtype.UUID.Scan`, `parse_time` is `time.Parse(time.RFC3339, s)`, `trim` is
-- `strings.TrimSpace`, `quote` is `%q`. `new_uuid` is `newUUIDv4`, `none` if it fails, and
-- `db_uuid` gen_random_uuid(). `now` is time.Now() and `db_now` PostgreSQL's now(). `seq_gap` is how
-- many values of server_seq_global others have taken since the last write here.
pub record Env : Type 0 where
  pub parse_uuid : String → Option String
  pub parse_time : String → Option Time
  pub trim : String → String
  pub quote : String → String
  pub new_uuid : Option String
  pub db_uuid : String
  pub faults : Call → Option Fault
  pub now : Time
  pub db_now : Time
  pub seq_gap : ℕ

abbrev pub authenticated : Env → String → Result EntityError String
authenticated env user_id =
    or_fail (env.parse_uuid user_id) (validation "invalid authenticated user id")

-- The id in the path of a request.
abbrev pub path_id : Env → String → Result EntityError String
path_id env id = or_fail (env.parse_uuid id) not_found

-- A client's id for a new row, or a fresh one.
abbrev pub id_or_new : Env → String → Result EntityError String
id_or_new env id =
    if str_eq id ""
    then or_fail env.new_uuid (internal "generate uuid")
    else or_fail (env.parse_uuid id) (validation (str_append "invalid id " (env.quote id)))

-- A text that must not be blank.
abbrev pub required : Env → String → String → Result EntityError String
required env s message = do
  require (not (str_eq (env.trim s) "")) (validation message)
  ok (env.trim s)

-- A field of a PATCH request, or the current value.
abbrev pub required_or : Env → String → Option String → String → Result EntityError String
required_or env current none message = ok current
required_or env current (some s) message = required env s message

-- `mapConstraintViolation`
abbrev pub map_constraint_violation : String → String → EntityError
map_constraint_violation code message =
    if str_eq code "CONFLICT" then conflict message else validation message

-- The services without it.
abbrev pub as_validation : String → String → EntityError
as_validation code message = validation message

abbrev or_internal :
    (String → String → EntityError) → Option (String × String) → String → EntityError
or_internal mapped none what = internal what
or_internal mapped (some (code, message)) what = mapped code message

-- What becomes of a write's error.
pub write_error : Env → (String → String → EntityError) → String → DbError → EntityError
write_error env mapped what no_rows = not_found
write_error env mapped what (fault f) = or_internal mapped (constraint_violation env.quote f) what

-- What becomes of a lookup's error.
abbrev pub lookup_error : EntityError → String → DbError → EntityError
lookup_error missing what no_rows = missing
lookup_error missing what (fault f) = internal what

abbrev pub map_error :
    {A : Type 0} → (DbError → EntityError) → Result DbError A → Result EntityError A
map_error f (ok a) = ok a
map_error f (err e) = err (f e)

abbrev pub succeeds : Option Fault → String → Result EntityError (Unit {0})
succeeds none what = ok tt
succeeds (some f) what = err (internal what)
