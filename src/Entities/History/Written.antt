-- ===== src/Entities/History/Written.antt =====
-- What one request does to the four tables.
use rize_backend.Base.{String, ◌≡◌, sym, []}
use mathlib.Core.Path.{subst}
use rize_backend.Base.Action.Ensures.{Ensures, left_store}
use rize_backend.Base.Action.{Action}
use rize_backend.Entities.{EntityError}
use rize_backend.Entities.Rows.{Entity, Table}
use rize_backend.Entities.Rows.Written.{IsValid, IsWrite, refl-IsWrite}
use rize_backend.Entities.Projects
use rize_backend.Entities.Projects.Ensured.{IsProject}
use rize_backend.Entities.Tags
use rize_backend.Entities.Tags.Ensured.{IsTag}
use rize_backend.Entities.Categories
use rize_backend.Entities.Categories.Ensured.{IsCategory}
use rize_backend.Entities.FocusSessions
use rize_backend.Entities.FocusSessions.Service.Ensured.{IsSession}
use rize_backend.Entities.History.{
  World, refs_of, Step, project_created, project_updated, project_deleted, tag_created, tag_updated,
  tag_deleted, category_created, category_updated, category_deleted, session_created,
  session_updated, session_deleted,
}

-- All four tables are well-formed.
pub record IsValidWorld (w : World) : Type 0 where
  pub projects : IsValid Projects.entity IsProject w.projects
  pub tags : IsValid Tags.entity IsTag w.tags
  pub categories : IsValid Categories.entity IsCategory w.categories
  pub sessions : IsValid FocusSessions.entity IsSession w.sessions

pub record IsWritten (uid : String) (w u : World) : Type 0 where
  pub projects : IsWrite Projects.entity IsProject uid w.projects u.projects
  pub tags : IsWrite Tags.entity IsTag uid w.tags u.tags
  pub categories : IsWrite Categories.entity IsCategory uid w.categories u.categories
  pub sessions : IsWrite FocusSessions.entity IsSession uid w.sessions u.sessions

left_written :
    {A B : Type 0} {Q : B → Table A → Type 0} (e : Entity A) (P : A → Type 0) (uid : String)
    (t : Table A)
    → IsValid e P t
    → {m : Action (Table A) EntityError B} → Ensures Q (λ x u. u ≡ t) m t
    → ((b : B) (u : Table A) → Q b u → IsWrite e P uid t u)
    → IsWrite e P uid t (m t).1
left_written e P uid t v h q =
    left_store (IsWrite e P uid t) h q
      (λ x u same. subst (IsWrite e P uid t) (sym same) (refl-IsWrite e P uid t v))

module _ {uid : String} where
  projects-IsWritten :
      (w : World) (t : Table Projects.Project)
      → IsValidWorld w
      → IsWrite Projects.entity IsProject uid w.projects t
      → IsWritten uid w (record w { projects = t })
  projects-IsWritten w t v h = record {
    projects = h;
    tags = refl-IsWrite Tags.entity IsTag uid w.tags v.tags;
    categories = refl-IsWrite Categories.entity IsCategory uid w.categories v.categories;
    sessions = refl-IsWrite FocusSessions.entity IsSession uid w.sessions v.sessions;
  }

  tags-IsWritten :
      (w : World) (t : Table Tags.Tag)
      → IsValidWorld w
      → IsWrite Tags.entity IsTag uid w.tags t
      → IsWritten uid w (record w { tags = t })
  tags-IsWritten w t v h = record {
    projects = refl-IsWrite Projects.entity IsProject uid w.projects v.projects;
    tags = h;
    categories = refl-IsWrite Categories.entity IsCategory uid w.categories v.categories;
    sessions = refl-IsWrite FocusSessions.entity IsSession uid w.sessions v.sessions;
  }

  categories-IsWritten :
      (w : World) (t : Table Categories.Category)
      → IsValidWorld w
      → IsWrite Categories.entity IsCategory uid w.categories t
      → IsWritten uid w (record w { categories = t })
  categories-IsWritten w t v h = record {
    projects = refl-IsWrite Projects.entity IsProject uid w.projects v.projects;
    tags = refl-IsWrite Tags.entity IsTag uid w.tags v.tags;
    categories = h;
    sessions = refl-IsWrite FocusSessions.entity IsSession uid w.sessions v.sessions;
  }

  sessions-IsWritten :
      (w : World) (t : Table FocusSessions.FocusSession)
      → IsValidWorld w
      → IsWrite FocusSessions.entity IsSession uid w.sessions t
      → IsWritten uid w (record w { sessions = t })
  sessions-IsWritten w t v h = record {
    projects = refl-IsWrite Projects.entity IsProject uid w.projects v.projects;
    tags = refl-IsWrite Tags.entity IsTag uid w.tags v.tags;
    categories = refl-IsWrite Categories.entity IsCategory uid w.categories v.categories;
    sessions = h;
  }

pub Step-IsWritten :
    {uid : String} {w u : World} → Step uid w u → IsValidWorld w → IsWritten uid w u
Step-IsWritten {uid} (project_created w env user_id req known) v = projects-IsWritten w _ v (
    left_written Projects.entity IsProject uid w.projects v.projects
      (Projects.Ensured.create-Ensures env user_id uid w.projects known v.projects req)
      (λ a u s. s.write))
Step-IsWritten {uid} (project_updated w env user_id id req known) v = projects-IsWritten w _ v (
    left_written Projects.entity IsProject uid w.projects v.projects
      (Projects.Ensured.update-Ensures env user_id uid w.projects known v.projects id req)
      (λ a u s. s.0.write))
Step-IsWritten {uid} (project_deleted w env user_id id known) v = projects-IsWritten w _ v (
    left_written Projects.entity IsProject uid w.projects v.projects
      (Projects.Ensured.delete-Ensures env user_id uid w.projects known v.projects id)
      (λ a u s. s.2.write))
Step-IsWritten {uid} (tag_created w env user_id req known) v = tags-IsWritten w _ v (
    left_written Tags.entity IsTag uid w.tags v.tags
      (Tags.Ensured.create-Ensures env user_id uid w.tags known v.tags req) (λ a u s. s.write))
Step-IsWritten {uid} (tag_updated w env user_id id req known) v = tags-IsWritten w _ v (
    left_written Tags.entity IsTag uid w.tags v.tags
      (Tags.Ensured.update-Ensures env user_id uid w.tags known v.tags id req) (λ a u s. s.write))
Step-IsWritten {uid} (tag_deleted w env user_id id known) v = tags-IsWritten w _ v (
    left_written Tags.entity IsTag uid w.tags v.tags
      (Tags.Ensured.delete-Ensures env user_id uid w.tags known v.tags id) (λ a u s. s.2.write))
Step-IsWritten {uid} (category_created w env user_id req known) v = categories-IsWritten w _ v (
    left_written Categories.entity IsCategory uid w.categories v.categories
      (Categories.Ensured.create-Ensures env user_id uid w.categories known v.categories req)
      (λ a u s. s.write))
Step-IsWritten {uid} (category_updated w env user_id id req known) v = categories-IsWritten w _ v (
    left_written Categories.entity IsCategory uid w.categories v.categories
      (Categories.Ensured.update-Ensures env user_id uid w.categories known v.categories id req)
      (λ a u s. s.write))
Step-IsWritten {uid} (category_deleted w env user_id id known) v = categories-IsWritten w _ v (
    left_written Categories.entity IsCategory uid w.categories v.categories
      (Categories.Ensured.delete-Ensures env user_id uid w.categories known v.categories id)
      (λ a u s. s.2.write))
Step-IsWritten {uid} (session_created w env devices user_id req known) v =
    sessions-IsWritten w _ v (
      left_written FocusSessions.entity IsSession uid w.sessions v.sessions
        (FocusSessions.Service.Ensured.create-Ensures env (refs_of devices w) user_id uid w.sessions
          known v.sessions req)
        (λ a u s. s.0.write))
Step-IsWritten {uid} (session_updated w env devices user_id id req known) v =
    sessions-IsWritten w _ v (
      left_written FocusSessions.entity IsSession uid w.sessions v.sessions
        (FocusSessions.Service.Ensured.update-Ensures env (refs_of devices w) user_id uid w.sessions
          known v.sessions id req)
        (λ a u s. s.0.write))
Step-IsWritten {uid} (session_deleted w env user_id id known) v = sessions-IsWritten w _ v (
    left_written FocusSessions.entity IsSession uid w.sessions v.sessions
      (FocusSessions.Service.Ensured.delete-Ensures env (refs_of [] w) user_id uid w.sessions known
        v.sessions id)
      (λ a u s. s.2.write))

pub written_valid : {uid : String} {w u : World} → IsWritten uid w u → IsValidWorld u
written_valid h = record {
  projects = h.projects.valid;
  tags = h.tags.valid;
  categories = h.categories.valid;
  sessions = h.sessions.valid;
}
