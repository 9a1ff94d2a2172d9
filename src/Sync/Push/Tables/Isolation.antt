-- ===== src/Sync/Push/Tables/Isolation.antt =====
-- No write of one user's batch touches a row of another user.
use rize_backend.Base.{
  ℕ, String, ◌≡◌, refl, ◌∙◌, inl, inr, not, some, List, [], ◌∷◌, arith, Option-cases, keep,
}
use rize_backend.Base.{str_eq, eq_iff}
use rize_backend.Instant.{Time}
use rize_backend.Sync.Push.Tables.{
  ActivityEvent, FocusSession, Tables, insert_activity_event, tombstone_activity_event,
  upsert_focus_session,
}
use rize_backend.Sync.Push.Writes.{AllowsWrites}

-- The rows that other users own.
abbrev pub foreign_events : String → List ActivityEvent → List ActivityEvent
foreign_events uid events = keep (λ e. not (str_eq e.user_id uid)) events

abbrev pub foreign_sessions : String → List FocusSession → List FocusSession
foreign_sessions uid sessions = keep (λ s. not (str_eq s.user_id uid)) sessions

pub record IsIsolated (uid : String) (before after : Tables) : Type 0 where
  pub events : foreign_events uid after.events ≡ foreign_events uid before.events
  pub sessions : foreign_sessions uid after.sessions ≡ foreign_sessions uid before.sessions
  pub devices : after.devices ≡ before.devices
  pub settings : after.settings ≡ before.settings
  pub projects : after.projects ≡ before.projects

foreign-insert :
    (uid : String) (new : ActivityEvent) (events out : List ActivityEvent)
    → new.user_id ≡ uid
    → insert_activity_event new events ≡ some out
    → foreign_events uid out ≡ foreign_events uid events
unfolding insert_activity_event
foreign-insert uid new events out h e = ground (arith, eq_iff new.user_id uid)

foreign-tombstone :
    (uid : String) (seq : ℕ) (event_id : String) (started_at : Time)
    (events out : List ActivityEvent)
    → tombstone_activity_event seq uid event_id started_at events ≡ some out
    → foreign_events uid out ≡ foreign_events uid events
unfolding tombstone_activity_event
foreign-tombstone uid seq event_id started_at [] out h = cc
foreign-tombstone uid seq event_id started_at (e ∷ events) out h =
    elim (Option-cases (tombstone_activity_event seq uid event_id started_at events)) [
      | inl n ↦ ground arith
      | inr (later, n) ↦
          ground (arith, foreign-tombstone uid seq event_id started_at events later n)
    ]

foreign-upsert :
    (uid : String) (new : FocusSession) (sessions out : List FocusSession)
    → new.user_id ≡ uid
    → upsert_focus_session new sessions ≡ some out
    → foreign_sessions uid out ≡ foreign_sessions uid sessions
unfolding upsert_focus_session
foreign-upsert uid new [] out h e = ground (arith, eq_iff new.user_id uid)
foreign-upsert uid new (s ∷ sessions) out h e =
    elim (Option-cases (upsert_focus_session new sessions)) [
      | inl n ↦ ground (arith, eq_iff new.user_id uid, eq_iff s.user_id new.user_id)
      | inr (later, n) ↦ ground (
        arith,
        eq_iff new.user_id uid,
        eq_iff s.user_id new.user_id,
        foreign-upsert uid new sessions later h n,
      )
    ]

pub IsIsolated-AllowsWrites : (uid : String) → AllowsWrites uid (IsIsolated uid)
IsIsolated-AllowsWrites uid = record {
  nothing = λ t. record {
    events = refl;
    sessions = refl;
    devices = refl;
    settings = refl;
    projects = refl;
  };
  both = λ s t u a b. record {
    events = b.events ∙ a.events;
    sessions = b.sessions ∙ a.sessions;
    devices = b.devices ∙ a.devices;
    settings = b.settings ∙ a.settings;
    projects = b.projects ∙ a.projects;
  };
  app = λ t apps. record {
    events = refl;
    sessions = refl;
    devices = refl;
    settings = refl;
    projects = refl;
  };
  inserted = λ t new events h e. record {
    events = foreign-insert uid new t.events events h e;
    sessions = refl;
    devices = refl;
    settings = refl;
    projects = refl;
  };
  tombstoned = λ t seq event_id started_at events e. record {
    events = foreign-tombstone uid seq event_id started_at t.events events e;
    sessions = refl;
    devices = refl;
    settings = refl;
    projects = refl;
  };
  upserted = λ t new sessions h e. record {
    events = refl;
    sessions = foreign-upsert uid new t.sessions sessions h e;
    devices = refl;
    settings = refl;
    projects = refl;
  };
}
