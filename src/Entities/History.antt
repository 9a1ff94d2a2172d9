-- ===== src/Entities/History.antt =====
-- Histories: the requests of any users, one after the other, over the four tables.
pub mod Written
pub mod Isolation
use rize_backend.Base.{String, ◌≡◌, Option, some, List}
use rize_backend.Auth.Tables.{Device}
use rize_backend.Entities.{Env}
use rize_backend.Entities.Rows.{Table}
use rize_backend.Entities.Projects
use rize_backend.Entities.Tags
use rize_backend.Entities.Categories
use rize_backend.Entities.FocusSessions

pub record World : Type 0 where
  pub projects : Table Projects.Project
  pub tags : Table Tags.Tag
  pub categories : Table Categories.Category
  pub sessions : Table FocusSessions.FocusSession

-- Sessions refer to the devices of the moment and to the projects here.
abbrev pub refs_of : List Device → World → FocusSessions.References
refs_of devices w = record { devices = devices; projects = w.projects.rows }

-- A request of the user `uid`, whether it is refused or not.
pub data Step (uid : String) : World → World → Type 0 where
  project_created :
      (w : World) (env : Env) (user_id : String) (req : Projects.CreateRequest)
      → env.parse_uuid user_id ≡ some uid
      → Step uid w (record w { projects = (Projects.create env user_id req w.projects).1 })
  project_updated :
      (w : World) (env : Env) (user_id id : String) (req : Projects.UpdateRequest)
      → env.parse_uuid user_id ≡ some uid
      → Step uid w (record w { projects = (Projects.update env user_id id req w.projects).1 })
  project_deleted :
      (w : World) (env : Env) (user_id id : String)
      → env.parse_uuid user_id ≡ some uid
      → Step uid w (record w { projects = (Projects.delete env user_id id w.projects).1 })
  tag_created :
      (w : World) (env : Env) (user_id : String) (req : Tags.CreateRequest)
      → env.parse_uuid user_id ≡ some uid
      → Step uid w (record w { tags = (Tags.create env user_id req w.tags).1 })
  tag_updated :
      (w : World) (env : Env) (user_id id : String) (req : Tags.UpdateRequest)
      → env.parse_uuid user_id ≡ some uid
      → Step uid w (record w { tags = (Tags.update env user_id id req w.tags).1 })
  tag_deleted :
      (w : World) (env : Env) (user_id id : String)
      → env.parse_uuid user_id ≡ some uid
      → Step uid w (record w { tags = (Tags.delete env user_id id w.tags).1 })
  category_created :
      (w : World) (env : Env) (user_id : String) (req : Categories.CreateRequest)
      → env.parse_uuid user_id ≡ some uid
      → Step uid w (record w { categories = (Categories.create env user_id req w.categories).1 })
  category_updated :
      (w : World) (env : Env) (user_id id : String) (req : Categories.UpdateRequest)
      → env.parse_uuid user_id ≡ some uid
      → Step uid w (record w { categories = (Categories.update env user_id id req w.categories).1 })
  category_deleted :
      (w : World) (env : Env) (user_id id : String)
      → env.parse_uuid user_id ≡ some uid
      → Step uid w (record w { categories = (Categories.delete env user_id id w.categories).1 })
  session_created :
      (w : World) (env : Env) (devices : List Device) (user_id : String)
      (req : FocusSessions.CreateRequest)
      → env.parse_uuid user_id ≡ some uid
      → Step uid w (record w {
        sessions = (FocusSessions.Service.create env (refs_of devices w) user_id req w.sessions).1;
      })
  session_updated :
      (w : World) (env : Env) (devices : List Device) (user_id id : String)
      (req : FocusSessions.UpdateRequest)
      → env.parse_uuid user_id ≡ some uid
      → Step uid w (record w {
        sessions =
            (FocusSessions.Service.update env (refs_of devices w) user_id id req w.sessions).1;
      })
  session_deleted :
      (w : World) (env : Env) (user_id id : String)
      → env.parse_uuid user_id ≡ some uid
      → Step uid w
          (record w { sessions = (FocusSessions.Service.delete env user_id id w.sessions).1 })

-- Requests of users that satisfy `C`.
pub data Run (C : String → Type 0) : World → World → Type 0 where
  stay : (w : World) → Run C w w
  go_on : (w u v : World) (uid : String) → C uid → Step uid w u → Run C u v → Run C w v
