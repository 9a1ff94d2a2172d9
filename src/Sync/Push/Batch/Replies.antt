-- ===== src/Sync/Push/Batch/Replies.antt =====
-- A batch that is answered gets one result for each item, in order, under the item's index.
use rize_backend.Base.{ℕ, ◌+◌, String, ◌≡◌, refl, inl, inr, List, [], ◌∷◌, arith, Bool-cases}
use mathlib.Core.Path.{subst}
use rize_backend.Base.{str_eq, eq_iff}
use rize_backend.Base.Result.{Result, ok, err}
use rize_backend.Sync.Push.{PushItem, PushRequest, PushResult, PushError, Env}
use rize_backend.Sync.Push.Tables.{Device, Tables}
use rize_backend.Sync.Push.Replied.{IsReply, Replied}
use rize_backend.Sync.Push.Events.Replies.{apply_activity_event-Replied}
use rize_backend.Sync.Push.Sessions.Replies.{apply_focus_session-Replied}
use rize_backend.Sync.Push.Batch.{
  source_of, apply_item_at, Answer, prepend, and_rest, apply_items, admit_push, apply_admitted,
  push,
}

-- One result for each item, from an index on.
abbrev pub AreReplies : ℕ → List PushItem → List PushResult → Type 0
AreReplies index [] [] = Unit
AreReplies index [] (r ∷ results) = ⊥
AreReplies index (item ∷ items) [] = ⊥
AreReplies index (item ∷ items) (r ∷ results) =
    IsReply index item.entity_type r × AreReplies (index + 1) items results

abbrev AnswersAll : ℕ → List PushItem → Answer → Type 0
AnswersAll index items (ok results, t) = AreReplies index items results
AnswersAll index items (err e, t) = Unit

module _ (env : Env) (uid : String) (device : Device) where
  apply_item_at-Replied :
      (index : ℕ) (item : PushItem) (t : Tables)
      → Replied index item.entity_type (apply_item_at env uid device index item t).0
  unfolding apply_item_at
  apply_item_at-Replied index item t =
      elim (Bool-cases (str_eq item.entity_type "activity_event")) [
        | inl a ↦
            rw (apply_item_at, (eq_iff item.entity_type "activity_event").0 a)
              (apply_activity_event-Replied env uid device.id device.platform
                (source_of device.platform) index item.payload t)
        | inr a ↦ elim (Bool-cases (str_eq item.entity_type "focus_session")) [
          | inl f ↦
              rw (apply_item_at, (eq_iff item.entity_type "focus_session").0 f)
                (apply_focus_session-Replied env uid device.id index item.payload t)
          | inr f ↦ rw (apply_item_at, a, f) (refl, refl)
        ]
      ]

  apply_items-AnswersAll :
      (index : ℕ) (items : List PushItem) (t : Tables)
      → AnswersAll index items (apply_items env uid device index items t)
  unfolding apply_items
  apply_items-AnswersAll index [] t = tt
  apply_items-AnswersAll index (item ∷ items) t =
      go (apply_item_at env uid device index item t) (apply_item_at-Replied index item t)
        (λ u. apply_items-AnswersAll (index + 1) items u)
    where
      both :
          (r : PushResult) (a : Answer)
          → IsReply index item.entity_type r
          → AnswersAll (index + 1) items a
          → AnswersAll index (item ∷ items) (prepend r a)
      both r (ok results, u) h k = (h, k)
      both r (err e, u) h k = tt

      go :
          (x : Result PushError PushResult × Tables)
          → Replied index item.entity_type x.0
          → ((u : Tables)
              → AnswersAll (index + 1) items (apply_items env uid device (index + 1) items u))
          → AnswersAll index
              (item ∷ items)
              (and_rest x.0 x.1 (apply_items env uid device (index + 1) items x.1))
      go (err e, u) h rest = tt
      go (ok r, u) h rest = both r (apply_items env uid device (index + 1) items u) h (rest u)

push-AnswersAll :
    (env : Env) (user_id : String) (req : PushRequest) (t : Tables)
    → AnswersAll 0 req.items (push env user_id req t)
unfolding push apply_admitted
push-AnswersAll env user_id req t = go (admit_push env user_id req t)
  where
    go :
        (r : Result PushError (String × Device))
        → AnswersAll 0 req.items (apply_admitted env req t r)
    go (err e) = tt
    go (ok (uid, device)) = apply_items-AnswersAll env uid device 0 req.items t

-- A push that is answered gets one result for each item, in the order of the items, each with its
-- item's index and entity type.
pub push-AreReplies :
    (env : Env) (user_id : String) (req : PushRequest) (t : Tables) (results : List PushResult)
    → (push env user_id req t).0 ≡ ok results
    → AreReplies 0 req.items results
push-AreReplies env user_id req t results h =
    go (push env user_id req t) (push-AnswersAll env user_id req t) h
  where
    go : (a : Answer) → AnswersAll 0 req.items a → a.0 ≡ ok results → AreReplies 0 req.items results
    go (ok found, u) k e = subst (AreReplies 0 req.items) (ground arith) k
    go (err e', u) k e = cc
