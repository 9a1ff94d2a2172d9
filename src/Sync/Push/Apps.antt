-- ===== src/Sync/Push/Apps.antt =====
-- `resolveApp` and `resolveCategory` of internal/sync/service.go.
use rize_backend.Store.Query.{DbError, Fault, fault, no_rows, one}
use rize_backend.Base.{ℕ, String, Option, none, some, List, [], ◌∷◌, ◌++◌}
use rize_backend.Base.Result.{Result, ok, err}
use rize_backend.Sync.Push.{get_app, create_app, get_app_again, get_setting, Env}
use rize_backend.Sync.Push.Tables.{
  App, UserAppSetting, get_app_by_bundle_id, get_setting_by_user_and_app,
}

-- The app that a concurrent push has created meanwhile.
with_rival : Option String → String → String → List App → List App
with_rival none bundle_id platform apps = apps
with_rival (some id) bundle_id platform apps =
    apps
    ++ record {
      id = id;
      bundle_id = bundle_id;
      platform = platform;
      name = bundle_id;
      default_category_id = none;
    }
      ∷ []

-- CreateApp over the table found: `none` is a conflict on (bundle_id, platform).
create : Env → ℕ → String → String → List App → Option App → Result DbError App × List App
create env index bundle_id platform apps (some existing) =
    (one (env.faults index get_app_again) (some existing), apps)
create env index bundle_id platform apps none =
    let app : App = record {
      id = env.new_id index;
      bundle_id = bundle_id;
      platform = platform;
      name = bundle_id;
      default_category_id = none;
    } in
    (ok app, apps ++ app ∷ [])

create_unless_failed :
    Env → ℕ → Option Fault → String → String → List App → Result DbError App × List App
unfolding create
create_unless_failed env index (some f) bundle_id platform apps = (err (fault f), apps)
create_unless_failed env index none bundle_id platform apps =
    create env index bundle_id platform apps (get_app_by_bundle_id bundle_id platform apps)

after_lookup :
    Env → ℕ → String → String → List App → Result DbError App → Result DbError App × List App
unfolding create_unless_failed with_rival
after_lookup env index bundle_id platform apps (ok app) = (ok app, apps)
after_lookup env index bundle_id platform apps (err (fault f)) = (err (fault f), apps)
after_lookup env index bundle_id platform apps (err no_rows) =
    create_unless_failed env index (env.faults index create_app) bundle_id platform
      (with_rival (env.rival index) bundle_id platform apps)

unfoldable pub resolve_app : Env → ℕ → String → String → List App → Result DbError App × List App
unfolding after_lookup
resolve_app env index bundle_id platform apps =
    after_lookup env index bundle_id platform apps
      (one (env.faults index get_app) (get_app_by_bundle_id bundle_id platform apps))

category_or_default : App → Result DbError UserAppSetting → Result DbError (Option String)
category_or_default app (ok setting) = elim setting.category_id [
  | none ↦ ok app.default_category_id
  | some id ↦ ok (some id)
]
category_or_default app (err no_rows) = ok app.default_category_id
category_or_default app (err (fault f)) = err (fault f)

unfoldable pub resolve_category :
    Env → ℕ → String → App → List UserAppSetting → Result DbError (Option String)
unfolding category_or_default
resolve_category env index uid app settings =
    category_or_default app
      (one (env.faults index get_setting) (get_setting_by_user_and_app uid app.id settings))
