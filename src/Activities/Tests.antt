-- ===== src/Activities/Tests.antt =====
-- Concrete listings.
use rize_backend.Base.{◌+◌, ◌*◌, ◌≡◌, refl, ap, false, none, some, List, [], ◌∷◌, arith, ◌≤◌, ◌<◌}
use rize_backend.Instant.{second}
use rize_backend.Base.Result.{ok}
use rize_backend.Store.TimeRange.{validate_range}
use rize_backend.Store.Decimal.{print, parse_uint}
use rize_backend.Activities.{ActivityEvent, Env}
use rize_backend.Store.Paging.Sorting.{sort_by, insert_by}
use rize_backend.Activities.Cursor.{epoch, earlier}
use rize_backend.Activities.Cursor.RoundTrip.{IsEncodable}
use rize_backend.Activities.Listing.{ListParams, Selection, is_selected, position, list_request}
use rize_backend.Activities.Listing.Walked.{list_all, list_all-in_order}
use rize_backend.Store.Decimal.RoundTrip.{print-All, parse_uint-print}
use rize_backend.Store.Cursor.RoundTrip.{IsDigit-IsByte}

abbrev walk_home : ActivityEvent
walk_home = record {
  event_id = 8;
  user_id = "u1";
  device_id = "d1";
  started_at = epoch + 20 * second;
  ended_at = epoch + 30 * second;
  duration_s = none;
  kind = "app";
  source = "mac";
  precision = "exact";
  app_id = none;
  raw_bundle_id = none;
  window_title = none;
  url = none;
  category_id = none;
  project_id = none;
  deleted = false;
  inserted_at = epoch;
  server_seq = 1;
}

abbrev mail : ActivityEvent
mail = record walk_home { event_id = 9; started_at = epoch + 10 * second }

abbrev events : List ActivityEvent
events = walk_home ∷ mail ∷ []

abbrev env : Env
env = record {
  parse_uuid = λ s. some s;
  print_event_id = print;
  parse_event_id = parse_uint;
  events = some events;
}

abbrev params : ListParams
params = record {
  from = epoch;
  to = epoch + 60 * second;
  app_id = "";
  category_id = "";
  project_id = "";
  device_id = "d1";
  precision = "exact";
}

abbrev selection : Selection
selection = record {
  user_id = "u1";
  from_ts = epoch;
  to_ts = epoch + 60 * second;
  app_id = none;
  category_id = none;
  project_id = none;
  device_id = some "d1";
  precision = some "exact";
}

accepted : list_request env "u1" params ≡ ok selection
unfolding list_request validate_range
accepted = refl

encodable :
    (a : ActivityEvent)
    → epoch ≤ a.started_at
    → a.started_at < epoch + 60 * second
    → a.event_id < 10
    → IsEncodable env (position a)
encodable a h k l = record {
  not_before = omega (arith, h);
  not_after = omega (arith, k);
  bytes = IsDigit-IsByte _ (print-All a.event_id);
  read_back = parse_uint-print a.event_id (omega (arith, l));
}

list_all-in_order_example : list_all env "u1" params 1 3 [] ≡ some (mail ∷ walk_home ∷ [])
unfolding sort_by insert_by is_selected earlier
list_all-in_order_example =
    list_all-in_order env "u1" params 1 selection accepted events refl
      (((λ e. absurd (omega (arith, ap (λ k. k.at.event_id) e))), tt), (tt, tt))
      (
        encodable walk_home (omega arith) (omega arith) (omega arith),
        (encodable mail (omega arith) (omega arith) (omega arith), tt),
      )
      3 (omega arith)
