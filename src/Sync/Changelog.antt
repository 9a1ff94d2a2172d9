-- ===== src/Sync/Changelog.antt =====
-- The table `sync_changelog`, in the order of its primary key, and the retained horizon.
use rize_backend.Base.{ℕ, String, Option, List}
use rize_backend.Instant.{Time}
use rize_backend.Store.Cursor.{PullCursor}

pub record Entry : Type 0 where
  pub changelog_id : ℕ
  pub user_id : Option String
  pub entity_type : String
  pub entity_id : String
  pub event_started_at : Option Time
  pub xid8 : ℕ
  pub server_seq : ℕ
  pub created_at : Time

-- The keyset position of an entry.
abbrev pub position : Entry → PullCursor
position e = record { xid8 = e.xid8; server_seq = e.server_seq }

pub record Db : Type 0 where
  pub changelog : List Entry
  pub horizon : PullCursor
