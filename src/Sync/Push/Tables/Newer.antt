-- ===== src/Sync/Push/Tables/Newer.antt =====
-- Last write wins: a session's row is only ever replaced by a newer one, and no event is lost.
use rize_backend.Base.{
  ℕ, ◌≤◌, ◌<◌, String, ◌≡◌, refl, sym, ◌∙◌, ◌⊎◌, inl, inr, true, false, not, ◌&&◌, none, some, List,
  [], ◌∷◌, arith, Bool-cases, Option-cases, In,
}
use rize_backend.Base.{str_eq, eq_iff}
use rize_backend.Instant.{Time}
use rize_backend.Sync.Push.Tables.{
  ActivityEvent, FocusSession, Tables, has_key, insert_activity_event, tombstone_activity_event,
  upsert_focus_session,
}
use rize_backend.Sync.Push.Writes.{AllowsWrites}

-- A row that is the session `s`, or a newer state of it.
pub record IsSince (s later : FocusSession) : Type 0 where
  pub id : later.id ≡ s.id
  pub user_id : later.user_id ≡ s.user_id
  pub updated_at : s.updated_at ≤ later.updated_at
  pub unless_newer : (later ≡ s) ⊎ (s.updated_at < later.updated_at)

-- A row that is the event `e`, or its tombstone.
pub record IsStill (e later : ActivityEvent) : Type 0 where
  pub key : has_key e.user_id e.event_id e.started_at later ≡ true
  pub deleted : e.deleted ≡ true → later.deleted ≡ true

pub record IsNewer (before after : Tables) : Type 0 where
  pub sessions :
      (s : FocusSession)
      → In s before.sessions
      → (later : FocusSession) × In later after.sessions × IsSince s later
  pub events :
      (e : ActivityEvent)
      → In e before.events
      → (later : ActivityEvent) × In later after.events × IsStill e later

same-IsSince : (s : FocusSession) → IsSince s s
same-IsSince s = record {
  id = refl;
  user_id = refl;
  updated_at = omega arith;
  unless_newer = inl refl;
}

IsSince-trans : (r s t : FocusSession) → IsSince r s → IsSince s t → IsSince r t
IsSince-trans r s t a b = record {
  id = b.id ∙ a.id;
  user_id = b.user_id ∙ a.user_id;
  updated_at = omega (arith, a.updated_at, b.updated_at);
  unless_newer = side a.unless_newer b.unless_newer;
}
  where
    side :
        (s ≡ r) ⊎ (r.updated_at < s.updated_at)
        → (t ≡ s) ⊎ (s.updated_at < t.updated_at)
        → (t ≡ r) ⊎ (r.updated_at < t.updated_at)
    side (inl p) (inl q) = inl (q ∙ p)
    side (inl p) (inr q) = inr (rw (sym p) q)
    side (inr p) q = inr (omega (arith, b.updated_at))

same-IsStill : (e : ActivityEvent) → IsStill e e
same-IsStill e = record {
  key = ground (arith, eq_iff e.user_id e.user_id, eq_iff e.event_id e.event_id);
  deleted = λ d. d;
}

IsStill-trans : (d e f : ActivityEvent) → IsStill d e → IsStill e f → IsStill d f
IsStill-trans d e f a b = record {
  key = ground (arith, a.key, b.key, eq_iff e.user_id d.user_id, eq_iff e.event_id d.event_id);
  deleted = λ g. b.deleted (a.deleted g);
}

upsert-IsSince :
    (new : FocusSession) (sessions out : List FocusSession)
    → upsert_focus_session new sessions ≡ some out
    → (s : FocusSession) → In s sessions
    → (later : FocusSession) × In later out × IsSince s later
unfolding upsert_focus_session
upsert-IsSince new [] out e s m = absurd m
upsert-IsSince new (r ∷ sessions) out e s m = elim (Bool-cases (str_eq r.id new.id)) [
  | inl i ↦ replaced i m
  | inr i ↦
      below i (Option-cases (upsert_focus_session new sessions))
        (λ rest n k. upsert-IsSince new sessions rest n s k) m
]
  where
    replaced :
        str_eq r.id new.id ≡ true
        → In s (r ∷ sessions)
        → (later : FocusSession) × In later out × IsSince s later
    replaced i (inl p) =
        let written : out ≡ new ∷ sessions = ground arith in
        (
          new,
          rw written (inl refl),
          record {
            id = rw p (sym ((eq_iff r.id new.id).0 i));
            user_id = ground (arith, eq_iff r.user_id new.user_id);
            updated_at = ground arith;
            unless_newer = inr (ground arith);
          },
        )
    replaced i (inr n) =
        let written : out ≡ new ∷ sessions = ground arith in (s, rw written (inr n), same-IsSince s)

    below :
        str_eq r.id new.id ≡ false
        → (upsert_focus_session new sessions ≡ none)
          ⊎ ((rest : List FocusSession) × (upsert_focus_session new sessions ≡ some rest))
        → ((rest : List FocusSession)
            → upsert_focus_session new sessions ≡ some rest
            → In s sessions
            → (later : FocusSession) × In later rest × IsSince s later)
        → In s (r ∷ sessions)
        → (later : FocusSession) × In later out × IsSince s later
    below i (inl n) again k = absurd (ground arith)
    below i (inr (rest, n)) again (inl p) =
        let written : out ≡ r ∷ rest = ground arith in (s, rw written (inl p), same-IsSince s)
    below i (inr (rest, n)) again (inr k) =
        let written : out ≡ r ∷ rest = ground arith in
        let (later, found, since) = again rest n k in (later, rw written (inr found), since)

tombstone-IsStill :
    (uid : String) (seq : ℕ) (event_id : String) (started_at : Time)
    (events out : List ActivityEvent)
    → tombstone_activity_event seq uid event_id started_at events ≡ some out
    → (e : ActivityEvent) → In e events
    → (later : ActivityEvent) × In later out × IsStill e later
unfolding tombstone_activity_event
tombstone-IsStill uid seq event_id started_at [] out h e m = absurd m
tombstone-IsStill uid seq event_id started_at (r ∷ events) out h e m =
    elim (Bool-cases (has_key uid event_id started_at r && not r.deleted)) [
      | inl i ↦ replaced i m
      | inr i ↦
          below i (Option-cases (tombstone_activity_event seq uid event_id started_at events))
            (λ rest n k. tombstone-IsStill uid seq event_id started_at events rest n e k) m
    ]
  where
    replaced :
        (has_key uid event_id started_at r && not r.deleted) ≡ true
        → In e (r ∷ events)
        → (later : ActivityEvent) × In later out × IsStill e later
    replaced i (inl p) =
        let written : out ≡ record r { deleted = true; server_seq = seq } ∷ events = ground arith in
        (
          record r { deleted = true; server_seq = seq },
          rw written (inl refl),
          record { key = rw p (same-IsStill r).key; deleted = λ d. refl },
        )
    replaced i (inr n) =
        let written : out ≡ record r { deleted = true; server_seq = seq } ∷ events = ground arith in
        (e, rw written (inr n), same-IsStill e)

    below :
        (has_key uid event_id started_at r && not r.deleted) ≡ false
        → (tombstone_activity_event seq uid event_id started_at events ≡ none)
          ⊎ ((rest : List ActivityEvent) × (tombstone_activity_event seq uid event_id started_at
                  events
                ≡ some rest))
        → ((rest : List ActivityEvent)
            → tombstone_activity_event seq uid event_id started_at events ≡ some rest
            → In e events
            → (later : ActivityEvent) × In later rest × IsStill e later)
        → In e (r ∷ events)
        → (later : ActivityEvent) × In later out × IsStill e later
    below i (inl n) again k = absurd (ground arith)
    below i (inr (rest, n)) again (inl p) =
        let written : out ≡ r ∷ rest = ground arith in (e, rw written (inl p), same-IsStill e)
    below i (inr (rest, n)) again (inr k) =
        let written : out ≡ r ∷ rest = ground arith in
        let (later, found, still) = again rest n k in (later, rw written (inr found), still)

insert_result :
    (new : ActivityEvent) (events out : List ActivityEvent)
    → insert_activity_event new events ≡ some out
    → out ≡ new ∷ events
unfolding insert_activity_event
insert_result new events out h = ground arith

pub IsNewer-AllowsWrites : (uid : String) → AllowsWrites uid IsNewer
IsNewer-AllowsWrites uid = record {
  nothing = λ t. record {
    sessions = λ s m. (s, m, same-IsSince s);
    events = λ e m. (e, m, same-IsStill e);
  };
  both = λ s t u a b. record {
    sessions = λ x m.
        (let (y, n, p) = a.sessions x m in
          let (z, k, q) = b.sessions y n in (z, k, IsSince-trans x y z p q));
    events = λ x m.
        (let (y, n, p) = a.events x m in
          let (z, k, q) = b.events y n in (z, k, IsStill-trans x y z p q));
  };
  app = λ t apps. record {
    sessions = λ s m. (s, m, same-IsSince s);
    events = λ e m. (e, m, same-IsStill e);
  };
  inserted = λ t new events h e. record {
    sessions = λ s m. (s, m, same-IsSince s);
    events = λ x m. (x, rw (insert_result new t.events events e) (inr m), same-IsStill x);
  };
  tombstoned = λ t seq event_id started_at events h. record {
    sessions = λ s m. (s, m, same-IsSince s);
    events = λ x m. tombstone-IsStill uid seq event_id started_at t.events events h x m;
  };
  upserted = λ t new sessions h e. record {
    sessions = λ s m. upsert-IsSince new t.sessions sessions e s m;
    events = λ x m. (x, m, same-IsStill x);
  };
}
