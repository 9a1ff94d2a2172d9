-- ===== src/Store/Tests.antt =====
-- Runs of the store's helpers at concrete inputs.
use rize_backend.Base.{◌+◌, ◌*◌, ◌≤◌, ◌≡◌, ◌↔◌, none, some, arith}
use rize_backend.Instant.{day}
use rize_backend.Store.TimeRange.{max_report_range, validate_range, validate_range_iff}
use rize_backend.Store.Cursor.{PullCursor, encode_pull_cursor, decode_pull_cursor}
use rize_backend.Store.Cursor.RoundTrip.{IsPosition, decode_pull_cursor-encode_pull_cursor}

validate_range_iff_example :
    (validate_range day (9 * day) ≡ none) ↔ ((day ≤ 9 * day) × (9 * day ≤ day + max_report_range))
validate_range_iff_example = validate_range_iff day (9 * day)

abbrev two : PullCursor
two = record { xid8 = 70012; server_seq = 2 }

abbrev three : PullCursor
three = record { xid8 = 70012; server_seq = 3 }

two-IsPosition : IsPosition two
two-IsPosition = record { xid8 = omega arith; server_seq = omega arith }

decode_pull_cursor-encode_pull_cursor_example :
    decode_pull_cursor (encode_pull_cursor two) ≡ some two
decode_pull_cursor-encode_pull_cursor_example =
    decode_pull_cursor-encode_pull_cursor two two-IsPosition
