-- ===== src/Sync/Pull/Tests.antt =====
-- A pull at a concrete input.
use rize_backend.Base.{List, ◌≡◌, ◌≢◌, ◌≤◌, refl, none, some, true, ap, In, [], ◌∷◌, inl, inr, ℕ}
use rize_backend.Base.Result.{ok}
use rize_backend.Store.Cursor.{
  PullCursor, zero_cursor, is_zero, less, limit_param, decode_pull_cursor,
}
use rize_backend.Store.Paging.{Page, cut_page, clamp_limit}
use rize_backend.Store.Query.{find}
use rize_backend.Sync.Changelog.{Entry, position}
use rize_backend.Sync.Feed.{fetch_page}
use rize_backend.Sync.Pull.{Env, ChangelogEntry, upsert, project, PullResponse, pull_entity_types}
use rize_backend.Sync.Pull.Tables.{ProjectRow, Snapshot}
use rize_backend.Sync.Pull.Resolve.{resolve_changelog_entry, project_change}
use rize_backend.Sync.Pull.Resolve.Owned.{IsOwned}
use rize_backend.Sync.Pull.Keyed.{get, delete}
use rize_backend.Sync.Pull.Collect.{Collected, nothing_collected, collect_one, collect}
use rize_backend.Sync.Pull.Collect.Once.{occurrences, collect_once}
use rize_backend.Sync.Pull.Response.{respond, pull, changes_of, pull_limit, read_page}
use rize_backend.Sync.Pull.Response.Grouped.{IsSentIn}
use rize_backend.Sync.Pull.Response.Delivered.{IsPulled, pull-IsPulled, pull-IsOwned}
use rize_backend.Sync.Pull.Response.Answered.{pull-ok}

abbrev env : Env
env = record { parse_uuid = λ s. some s; format_time = λ t. "noon"; faults = λ c. none }

-- A project was written twice, and its later row is on the next page.
abbrev written : ℕ → Entry
written seq = record {
  changelog_id = seq;
  user_id = some "u1";
  entity_type = "projects";
  entity_id = "p1";
  event_started_at = none;
  xid8 = 5;
  server_seq = seq;
  created_at = 1;
}

abbrev stored : ProjectRow
stored = record {
  id = "p1";
  user_id = "u1";
  name = "Thesis";
  color = "blue";
  archived_at = none;
  updated_at = 2;
  deleted_at = none;
  server_seq = 4;
}

abbrev snapshot : Snapshot
snapshot = record {
  db = record { changelog = written 3 ∷ written 4 ∷ []; horizon = zero_cursor };
  xmin = 9;
  apps = [];
  events = [];
  sessions = [];
  projects = stored ∷ [];
  tags = [];
  settings = [];
  categories = [];
}

abbrev page : Page Entry PullCursor
page = record { rows = written 3 ∷ []; next_cursor = position (written 3); has_more = true }

abbrev sent : ChangelogEntry
sent = record {
  entity_type = "projects";
  change = upsert (
      project (record {
        id = "p1";
        name = "Thesis";
        color = "blue";
        archived_at = none;
        updated_at = "noon";
        server_seq = 4;
      }));
}

abbrev collected : Collected
collected = record { ordered = "projects:p1" ∷ []; by_key = ("projects:p1", sent) ∷ [] }

pulled : pull env snapshot "u1" [] 1 ≡ ok (respond page collected)
unfolding pull decode_pull_cursor read_page fetch_page is_zero cut_page pull_limit clamp_limit
    limit_param less collect collect_one resolve_changelog_entry project_change find get delete
pulled = refl

pull-IsPulled_example : IsPulled env snapshot "u1" [] 1 (respond page collected)
pull-IsPulled_example = pull-IsPulled env snapshot "u1" [] 1 (respond page collected) pulled

project_sent : IsSentIn (respond page collected).changes sent
unfolding changes_of get
project_sent = record {
  set = record {
    upserts =
        project (record {
          id = "p1";
          name = "Thesis";
          color = "blue";
          archived_at = none;
          updated_at = "noon";
          server_seq = 4;
        })
        ∷ [];
    tombstones = [];
  };
  listed = inr (inr (inl refl));
  has = inl refl;
}

pull-IsOwned_example : IsOwned env snapshot "u1" sent
pull-IsOwned_example =
    pull-IsOwned env snapshot "u1" [] 1 (respond page collected) sent "u1" pulled refl project_sent

page_served : fetch_page snapshot.db 9 "u1" zero_cursor (pull_limit 1) ≡ some page
unfolding fetch_page is_zero cut_page pull_limit clamp_limit limit_param less
page_served = refl

known : (row : Entry) → In row page.rows → In row.entity_type pull_entity_types
known row (inl e) = inr (inr (inl (ap (λ (x : Entry). x.entity_type) e)))
known row (inr m) = absurd m

pull-ok_example : (resp : PullResponse) × (pull env snapshot "u1" [] 1 ≡ ok resp)
unfolding decode_pull_cursor
pull-ok_example =
    pull-ok env snapshot (λ c. refl) "u1" "u1" [] zero_cursor 1 page refl refl page_served known

-- Both rows of the project.
abbrev both : List Entry
both = written 3 ∷ written 4 ∷ []

both_found : (row : Entry) → In row both → resolve_changelog_entry env snapshot "u1" row ≢ ok none
unfolding resolve_changelog_entry project_change find
both_found row (inl e) h = let h' = rw e at h in cc
both_found row (inr (inl e)) h = let h' = rw e at h in cc
both_found row (inr (inr m)) h = absurd m

collected_both : collect env snapshot "u1" both nothing_collected ≡ ok collected
unfolding collect collect_one resolve_changelog_entry project_change find get delete
collected_both = refl

collect_once_example : occurrences "projects:p1" collected.ordered ≤ 1
collect_once_example =
    collect_once env snapshot "u1" both collected "projects:p1" both_found collected_both
