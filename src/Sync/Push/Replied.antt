-- ===== src/Sync/Push/Replied.antt =====
-- What a result says of the item that it answers.
use rize_backend.Base.{ℕ, String, ◌≡◌}
use rize_backend.Base.Result.{Result, ok, err}
use rize_backend.Sync.Push.{PushResult, PushError}

abbrev pub IsReply : ℕ → String → PushResult → Type 0
IsReply index entity_type r = (r.index ≡ index) × (r.entity_type ≡ entity_type)

-- Either the item is answered, or the batch ends.
abbrev pub Replied : ℕ → String → Result PushError PushResult → Type 0
Replied index entity_type (ok r) = IsReply index entity_type r
Replied index entity_type (err e) = Unit
