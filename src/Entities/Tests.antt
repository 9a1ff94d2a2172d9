-- ===== src/Entities/Tests.antt =====
-- Concrete requests.
use rize_backend.Base.{
  String, ◌≡◌, ◌≢◌, refl, true, false, none, some, [], ◌∷◌, arith, str_eq, eq_iff,
}
use rize_backend.Base.Action.Ensures.{Ensures}
use rize_backend.Base.Int.{pos}
use rize_backend.Store.Paging.Sorting.{sort_by, insert_by}
use rize_backend.Entities.{Env}
use rize_backend.Base.Result.{ok}
use rize_backend.Entities.Rows
use rize_backend.Entities.Rows.{Table, Entity, by_seq}
use rize_backend.Entities.Rows.Written.{IsValid}
use rize_backend.Entities.Rows.Lookup.{IsSaved}
use rize_backend.Entities.Reads.Walked.{list_all, list_all-listed}
use rize_backend.Entities.Projects
use rize_backend.Entities.Projects.{Project}
use rize_backend.Entities.Projects.Ensured.{IsProject, IsPatch, update-Ensures}
use rize_backend.Entities.Categories.{Category}
use rize_backend.Entities.FocusSessions
use rize_backend.Auth.Tables.{Device}
use rize_backend.Entities.FocusSessions.Checked.{HasProject}
use rize_backend.Auth.Tables.Found.{IsDeviceOf}
use rize_backend.Entities.FocusSessions.Service.Ensured.{IsSession}
use rize_backend.Entities.FocusSessions.Service.Ensured
use rize_backend.Entities.History.{World, refs_of, Run, stay, go_on, project_created}
use rize_backend.Entities.History.Written.{IsValidWorld}
use rize_backend.Entities.History.Isolation.{SamePart, Run-IsValidWorld, other_users-SamePart}
use rize_backend.Sync.Feed.{of_user}

abbrev env : Env
env = record {
  parse_uuid = λ s. some s;
  parse_time = λ s. some 7;
  trim = λ s. s;
  quote = λ s. s;
  new_uuid = some "new";
  db_uuid = "db";
  faults = λ c. none;
  now = 100;
  db_now = 101;
  seq_gap = 2;
}

abbrev garden : Project
garden = record {
  id = "p1";
  user_id = "u1";
  name = "Garden";
  color = "green";
  created_at = 1;
  updated_at = 2;
  archived_at = none;
  deleted_at = none;
  server_seq = 5;
}

abbrev house : Project
house = record garden { id = "p2"; name = "House"; server_seq = 3 }

abbrev projects : Table Project
projects = record { rows = garden ∷ house ∷ []; last_seq = 6 }

abbrev work : Category
work = record {
  id = "c1";
  user_id = none;
  name = "Work";
  color = "blue";
  productivity = pos 1;
  created_at = 1;
  updated_at = 1;
  deleted_at = none;
  server_seq = 1;
}

abbrev world : World
world = record {
  projects = projects;
  tags = record { rows = []; last_seq = 0 };
  categories = record { rows = work ∷ []; last_seq = 1 };
  sessions = record { rows = []; last_seq = 0 };
}

differ : (a b : String) → str_eq a b ≡ false → a ≢ b
differ a b h e = ground (arith, eq_iff a b)

projects-IsValid : IsValid Projects.entity IsProject projects
projects-IsValid = record {
  ids = ((differ "p1" "p2" refl, tt), (tt, tt));
  seqs = ((λ e. absurd (omega (arith, e)), tt), (tt, tt));
  bounded = ((omega arith, omega arith), ((omega arith, omega arith), tt));
  each = (
    (differ "Garden" "" refl, differ "green" "" refl),
    ((differ "House" "" refl, differ "green" "" refl), tt),
  );
}

world-IsValidWorld : IsValidWorld world
world-IsValidWorld = record {
  projects = projects-IsValid;
  tags = record { ids = tt; seqs = tt; bounded = tt; each = tt };
  categories = record {
    ids = (tt, tt);
    seqs = (tt, tt);
    bounded = ((omega arith, omega arith), tt);
    each = ((differ "Work" "" refl, differ "blue" "" refl, refl), tt);
  };
  sessions = record { ids = tt; seqs = tt; bounded = tt; each = tt };
}

abbrev barn : Projects.CreateRequest
barn = record { id = "p3"; name = "Barn"; color = "red" }

-- The second user creates a project.
abbrev next_world : World
next_world = record world { projects = (Projects.create env "u2" barn projects).1 }

abbrev run_of_other : Run (λ caller. caller ≢ "u1") world next_world
run_of_other =
    go_on world next_world next_world "u2" (differ "u2" "u1" refl)
      (project_created world env "u2" barn refl) (stay next_world)

other_users-SamePart_example : SamePart (of_user "u1") world next_world
other_users-SamePart_example =
    other_users-SamePart "u1" world next_world world-IsValidWorld run_of_other

Run-IsValidWorld_example : IsValidWorld next_world
Run-IsValidWorld_example = Run-IsValidWorld world-IsValidWorld run_of_other

abbrev repaint : Projects.UpdateRequest
repaint = record { name = none; color = some "brown"; archived = some true }

update-Ensures_example :
    Ensures
      (λ p u.
        IsSaved Projects.entity IsProject "u1" projects p u
        × (current : Project) × (Projects.get env "u1" "p1" projects ≡ ok current)
        × IsPatch env repaint current p)
      (λ x u. u ≡ projects)
      (Projects.update env "u1" "p1" repaint)
      projects
update-Ensures_example = update-Ensures env "u1" "u1" projects refl projects-IsValid "p1" repaint

list_all-listed_example :
    list_all Projects.entity env "projects: list"
      (Rows.is_mine Projects.entity)
      "u1"
      1
      projects
      3
      []
    ≡ some (house ∷ garden ∷ [])
unfolding sort_by insert_by
list_all-listed_example =
    list_all-listed Projects.entity env "projects: list" (Rows.is_mine Projects.entity) "u1" 1
      projects IsProject projects-IsValid "u1" refl refl (omega arith) 3 (omega arith)

abbrev laptop : Device
laptop = record {
  id = "d1";
  user_id = "u1";
  platform = "macos";
  name = "Laptop";
  model = "M1";
  os_version = "14";
  app_version = "1.0";
  created_at = 1;
  revoked_at = none;
}

abbrev sitting : FocusSessions.CreateRequest
sitting = record {
  id = "s1";
  device_id = "d1";
  project_id = "p2";
  kind = "focus";
  planned_duration_s = none;
  started_at = "2026-01-01T00:00:00Z";
  ended_at = "";
  status = "running";
  note = some "quiet";
}

create-Ensures_example :
    Ensures
      (λ s u.
        IsSaved FocusSessions.entity IsSession "u1" world.sessions s u
        × IsDeviceOf (laptop ∷ []) "u1" s.device_id
        × HasProject (refs_of (laptop ∷ []) world) "u1" s.project_id)
      (λ x u. u ≡ world.sessions)
      (FocusSessions.Service.create env (refs_of (laptop ∷ []) world) "u1" sitting)
      world.sessions
create-Ensures_example =
    Ensured.create-Ensures env (refs_of (laptop ∷ []) world) "u1" "u1" world.sessions refl
      world-IsValidWorld.sessions sitting
