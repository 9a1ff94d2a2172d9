-- ===== src/Reports/Bucket/Order.antt =====
-- The order of a report: the largest total first.
use rize_backend.Base.{
  ℕ, ◌+◌, ◌≤◌, ◌≡◌, refl, inl, inr, true, false, List, [], ◌∷◌, arith, Bool-cases,
}
use mathlib.Core.List.{Perm}
use mathlib.Core.List.Perm
use rize_backend.Reports.Bucket.{
  Bucket, bucket_less, insert_bucket, sort_buckets_by_seconds_desc, to_sorted_slice, sum_seconds,
}

-- The seconds of every bucket are at most `top`, and descend.
abbrev pub DescendsFrom : ℕ → List Bucket → Type 0
DescendsFrom top [] = Unit
DescendsFrom top (b ∷ bs) = (b.seconds ≤ top) × DescendsFrom b.seconds bs

-- What a report shows of its buckets `m`.
pub record IsReportOf (m shown : List Bucket) : Type 0 where
  pub same_buckets : Perm shown m
  pub descends : DescendsFrom (sum_seconds m) shown
  pub same_total : sum_seconds shown ≡ sum_seconds m

insert_bucket-perm : (b : Bucket) (bs : List Bucket) → Perm (insert_bucket b bs) (b ∷ bs)
unfolding insert_bucket
insert_bucket-perm b [] = Perm.refl _
insert_bucket-perm b (c ∷ cs) = elim (Bool-cases (bucket_less c b)) [
  | inl p ↦ rw p (Perm.trans (Perm.cons c (insert_bucket-perm b cs)) (Perm.swap b c cs))
  | inr p ↦ rw p (Perm.refl _)
]

sort-perm : (bs : List Bucket) → Perm (sort_buckets_by_seconds_desc bs) bs
unfolding sort_buckets_by_seconds_desc
sort-perm [] = Perm.refl []
sort-perm (b ∷ bs) = Perm.trans (insert_bucket-perm b _) (Perm.cons b (sort-perm bs))

less_seconds : (b c : Bucket) → bucket_less c b ≡ true → b.seconds ≤ c.seconds
unfolding bucket_less
less_seconds b c h = ground arith

not_less_seconds : (b c : Bucket) → bucket_less c b ≡ false → c.seconds ≤ b.seconds
unfolding bucket_less
not_less_seconds b c h = ground arith

DescendsFrom-le : (lo hi : ℕ) (bs : List Bucket) → lo ≤ hi → DescendsFrom lo bs → DescendsFrom hi bs
DescendsFrom-le lo hi [] h k = tt
DescendsFrom-le lo hi (b ∷ bs) h k = (omega arith, k.1)

insert_bucket-DescendsFrom :
    (top : ℕ) (b : Bucket) (bs : List Bucket)
    → b.seconds ≤ top
    → DescendsFrom top bs
    → DescendsFrom top (insert_bucket b bs)
unfolding insert_bucket
insert_bucket-DescendsFrom top b [] h k = (h, tt)
insert_bucket-DescendsFrom top b (c ∷ cs) h k = elim (Bool-cases (bucket_less c b)) [
  | inl p ↦ rw p (k.0, insert_bucket-DescendsFrom c.seconds b cs (less_seconds b c p) k.1)
  | inr p ↦ rw p (h, (not_less_seconds b c p, k.1))
]

sort-DescendsFrom :
    (bs : List Bucket) → DescendsFrom (sum_seconds bs) (sort_buckets_by_seconds_desc bs)
unfolding sort_buckets_by_seconds_desc sum_seconds
sort-DescendsFrom [] = tt
sort-DescendsFrom (b ∷ bs) =
    insert_bucket-DescendsFrom _ b _ (omega arith)
      (DescendsFrom-le _ _ _ (omega arith) (sort-DescendsFrom bs))

sum_seconds-insert_bucket :
    (b : Bucket) (bs : List Bucket) → sum_seconds (insert_bucket b bs) ≡ b.seconds + sum_seconds bs
unfolding insert_bucket sum_seconds
sum_seconds-insert_bucket b [] = refl
sum_seconds-insert_bucket b (c ∷ cs) = ground (arith, sum_seconds-insert_bucket b cs)

sum_seconds-sort :
    (bs : List Bucket) → sum_seconds (sort_buckets_by_seconds_desc bs) ≡ sum_seconds bs
unfolding sort_buckets_by_seconds_desc sum_seconds
sum_seconds-sort [] = refl
sum_seconds-sort (b ∷ bs) =
    omega
      (arith, sum_seconds-insert_bucket b (sort_buckets_by_seconds_desc bs), sum_seconds-sort bs)

-- The buckets that a report shows are a permutation of those collected, their seconds descend
-- from at most the total, and their total is the same.
pub to_sorted_slice-IsReportOf : (m : List Bucket) → IsReportOf m (to_sorted_slice m)
unfolding to_sorted_slice
to_sorted_slice-IsReportOf m = record {
  same_buckets = sort-perm m;
  descends = sort-DescendsFrom m;
  same_total = sum_seconds-sort m;
}
