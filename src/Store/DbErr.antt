-- ===== src/Store/DbErr.antt =====
-- internal/store/dberr.go: what a failed statement says of a constraint.
use rize_backend.Base.{String, Option, none, some, ◌||◌, if◌then◌else◌, str_eq}
use Prim.Native.String.{◌++◌ as str_append}
use rize_backend.Store.Query.{Fault, sqlstate, broken}

-- A code and a message; `none` for an error that is no violation. `quote` is `%q`.
unfoldable pub constraint_violation : (String → String) → Fault → Option (String × String)
constraint_violation quote broken = none
constraint_violation quote (sqlstate code name) =
    if str_eq code "23503"
    then some ("FOREIGN_KEY_VIOLATION", "referenced row does not exist")
    else if str_eq code "23505"
    then some (
      "CONFLICT",
      if str_eq name ""
          then "value conflicts with an existing record"
          else str_append "value conflicts with an existing record (constraint "
              (str_append (quote name) ")"),
    )
    else if str_eq code "23514" || str_eq code "23502"
    then some (
      "VALIDATION_ERROR",
      if str_eq name ""
          then "value violates a database constraint"
          else str_append "value violates constraint " (quote name),
    )
    else none
