-- ===== src/Sync/Pull/Collect.antt =====
-- The loop of `pull` over the rows of a page, in internal/sync/pull.go: each row is resolved, and
-- the last row of an entity decides what is sent for it.
pub mod Latest
pub mod Once
use rize_backend.Base.{
  ℕ, zero, suc, ◌+◌, ◌-◌, ◌*◌, ◌/◌, ◌%◌, ◌^◌, ◌≤◌, ◌<◌, String, ◌≡◌, refl, sym, ap, ◌∙◌, ◌≢◌, ◌↔◌,
  ◌⊎◌, inl, inr, Bool, true, false, not, ◌&&◌, ◌||◌, Option, none, some, List, [], ◌∷◌, ◌++◌, map,
  arith, ltb, leb, ◌==◌, if◌then◌else◌, ltb→lt, lt→ltb, ltb-false→le, le→ltb-false, leb→le, ==_iff,
  Bool-cases, Option-cases, length, take, drop, keep, any, All, last?, length-append,
  take-append-drop, length-take, length-drop, sum, In, In-keep, In_of_keep, In_of_take,
  In_of_append, In-append_left, In-append_right, any-eq-true, In-All,
}
use Prim.Native.String.{◌++◌ as str_append}
use rize_backend.Base.Result.{Result, ok, err, ◌>>=◌, ◌>>◌}
use rize_backend.Sync.Changelog.{Entry}
use rize_backend.Sync.Pull.{Env, PullError, ChangelogEntry}
use rize_backend.Sync.Pull.Tables.{Snapshot}
use rize_backend.Sync.Pull.Resolve.{resolve_changelog_entry}
use rize_backend.Sync.Pull.Keyed.{get, delete, put}

abbrev pub change_key : Entry → String
change_key row = str_append row.entity_type (str_append ":" row.entity_id)

pub record Collected : Type 0 where
  pub ordered : List String
  pub by_key : List (String × ChangelogEntry)

abbrev pub nothing_collected : Collected
nothing_collected = record { ordered = []; by_key = [] }

abbrev pub with_seen : String → Option ChangelogEntry → List String → List String
with_seen k none ordered = ordered ++ k ∷ []
with_seen k (some entry) ordered = ordered

abbrev pub set_key :
    String → Option ChangelogEntry → List (String × ChangelogEntry) → List (String × ChangelogEntry)
set_key k none m = delete k m
set_key k (some entry) m = put k entry m

unfoldable pub collect_one : Collected → String → Option ChangelogEntry → Collected
collect_one c k resolved = record {
  ordered = with_seen k (get k c.by_key) c.ordered;
  by_key = set_key k resolved c.by_key;
}

unfoldable pub collect :
    Env → Snapshot → String → List Entry → Collected → Result PullError Collected
unfolding collect_one
collect env s uid [] c = ok c
collect env s uid (row ∷ rows) c = resolve_changelog_entry env s uid row >>= λ resolved.
    collect env s uid rows (collect_one c (change_key row) resolved)
