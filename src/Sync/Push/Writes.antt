-- ===== src/Sync/Push/Writes.antt =====
-- What a relation between the tables before and after must allow to hold of a whole batch.
use rize_backend.Base.{ℕ, String, ◌≡◌, some, List}
use rize_backend.Instant.{Time}
use rize_backend.Sync.Push.Tables.{
  App, ActivityEvent, FocusSession, Tables, insert_activity_event, tombstone_activity_event,
  upsert_focus_session,
}

pub record AllowsWrites (uid : String) (R : Tables → Tables → Type 0) : Type 0 where
  pub nothing : (t : Tables) → R t t
  pub both : (s t u : Tables) → R s t → R t u → R s u
  pub app : (t : Tables) (apps : List App) → R t (record t { apps = apps })
  pub inserted :
      (t : Tables) (new : ActivityEvent) (events : List ActivityEvent)
      → new.user_id ≡ uid
      → insert_activity_event new t.events ≡ some events
      → R t (record t { events = events })
  pub tombstoned :
      (t : Tables) (seq : ℕ) (event_id : String) (started_at : Time) (events : List ActivityEvent)
      → tombstone_activity_event seq uid event_id started_at t.events ≡ some events
      → R t (record t { events = events })
  pub upserted :
      (t : Tables) (new : FocusSession) (sessions : List FocusSession)
      → new.user_id ≡ uid
      → upsert_focus_session new t.sessions ≡ some sessions
      → R t (record t { sessions = sessions })
