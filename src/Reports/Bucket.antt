-- ===== src/Reports/Bucket.antt =====
-- internal/reports/dimension.go and service.go: the buckets of a report, keyed by id. A Go map
-- is a list here; the order in which Go iterates over it is not modelled, since every report
-- sorts its buckets before it returns them.
pub mod Merge
pub mod Order
use rize_backend.Base.{
  ℕ, zero, suc, ◌+◌, ◌-◌, ◌*◌, ◌/◌, ◌%◌, ◌^◌, ◌≤◌, ◌<◌, String, ◌≡◌, refl, sym, ap, ◌∙◌, ◌≢◌, ◌↔◌,
  ◌⊎◌, inl, inr, Bool, true, false, not, ◌&&◌, ◌||◌, Option, none, some, List, [], ◌∷◌, ◌++◌, map,
  arith, ltb, leb, ◌==◌, if◌then◌else◌, ltb→lt, lt→ltb, ltb-false→le, le→ltb-false, leb→le, ==_iff,
  Bool-cases, Option-cases, length, take, drop, keep, any, All, last?, length-append,
  take-append-drop, length-take, length-drop, sum,
}
use rize_backend.Base.{str_eq}
use rize_backend.Base.Text.{str_lt}

-- `id` is "" for rows with no category, app or project.
pub record Bucket : Type 0 where
  pub id : String
  pub name : String
  pub bundle_id : String
  pub seconds : ℕ

-- The assignments of `mergeBucket` to the bucket that it finds or makes.
update_bucket : Bucket → String → String → ℕ → Bucket
update_bucket b name bundle_id seconds = record b {
  name = if str_eq name "" then b.name else name;
  bundle_id = if str_eq bundle_id "" then b.bundle_id else bundle_id;
  seconds = b.seconds + seconds;
}

pub merge_bucket : List Bucket → String → String → String → ℕ → List Bucket
unfolding update_bucket
merge_bucket [] id name bundle_id seconds =
    update_bucket (record { id = id; name = ""; bundle_id = ""; seconds = 0 }) name bundle_id
      seconds
    ∷ []
merge_bucket (b ∷ dst) id name bundle_id seconds =
    let later = b ∷ merge_bucket dst id name bundle_id seconds in
    if str_eq b.id id then update_bucket b name bundle_id seconds ∷ dst else later

unfoldable pub sum_seconds : List Bucket → ℕ
sum_seconds [] = 0
sum_seconds (b ∷ m) = b.seconds + sum_seconds m

-- The `less` function of `sortBucketsBySecondsDesc`.
bucket_less : Bucket → Bucket → Bool
unfolding str_lt
bucket_less a b = if not (a.seconds == b.seconds) then ltb b.seconds a.seconds else str_lt a.id b.id

insert_bucket : Bucket → List Bucket → List Bucket
unfolding bucket_less
insert_bucket b [] = b ∷ []
insert_bucket b (c ∷ cs) =
    let later = c ∷ insert_bucket b cs in if bucket_less c b then later else b ∷ c ∷ cs

-- sort.Slice
pub sort_buckets_by_seconds_desc : List Bucket → List Bucket
unfolding insert_bucket
sort_buckets_by_seconds_desc [] = []
sort_buckets_by_seconds_desc (b ∷ buckets) = insert_bucket b (sort_buckets_by_seconds_desc buckets)

pub to_sorted_slice : List Bucket → List Bucket
unfolding sort_buckets_by_seconds_desc
to_sorted_slice m = sort_buckets_by_seconds_desc m
