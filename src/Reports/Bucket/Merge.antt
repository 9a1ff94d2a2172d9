-- ===== src/Reports/Bucket/Merge.antt =====
-- What merging one bucket into a map of buckets does to the totals.
use rize_backend.Base.{ℕ, ◌+◌, String, ◌≡◌, List, [], ◌∷◌, arith, if◌then◌else◌}
use rize_backend.Base.{str_eq, eq_iff}
use rize_backend.Reports.Bucket.{Bucket, merge_bucket, sum_seconds}

-- The seconds recorded under an id; 0 where there is no bucket.
pub seconds_of : String → List Bucket → ℕ
seconds_of id [] = 0
seconds_of id (b ∷ m) = (if str_eq b.id id then b.seconds else 0) + seconds_of id m

pub sum_seconds-merge_bucket :
    (m : List Bucket) (id name bundle_id : String) (seconds : ℕ)
    → sum_seconds (merge_bucket m id name bundle_id seconds) ≡ sum_seconds m + seconds
unfolding sum_seconds merge_bucket
sum_seconds-merge_bucket [] id name bundle_id seconds = omega arith
sum_seconds-merge_bucket (b ∷ m) id name bundle_id seconds =
    ground (arith, sum_seconds-merge_bucket m id name bundle_id seconds)

-- Merging seconds under an id adds them to that id's bucket, whether or not there was one, and
-- changes the seconds of no other id.
pub seconds_of-merge_bucket :
    (m : List Bucket) (id name bundle_id j : String) (seconds : ℕ)
    → seconds_of j (merge_bucket m id name bundle_id seconds)
      ≡ seconds_of j m + (if str_eq id j then seconds else 0)
unfolding seconds_of merge_bucket
seconds_of-merge_bucket [] id name bundle_id j seconds = ground arith
seconds_of-merge_bucket (b ∷ m) id name bundle_id j seconds = ground (
  arith,
  eq_iff b.id id,
  eq_iff b.id j,
  eq_iff id j,
  seconds_of-merge_bucket m id name bundle_id j seconds,
)
