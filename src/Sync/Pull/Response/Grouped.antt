-- ===== src/Sync/Pull/Response/Grouped.antt =====
-- What the groups of a response hold.
use rize_backend.Base.{
  String, ◌≡◌, refl, sym, ap, ◌⊎◌, inl, inr, Option, none, some, List, [], ◌∷◌, In,
}
use rize_backend.Sync.Pull.{ChangelogEntry, Change, upsert, tombstone, ChangeSet}
use rize_backend.Sync.Pull.Keyed.{get, In-append_to, In-append_to_held, In_of_append_to}
use rize_backend.Sync.Pull.Response.{Groups, group_one, group_found, group_entries, change_set}

-- A change is among those of a type.
abbrev pub HasChange : ChangeSet → Change → Type 0
HasChange set (upsert u) = In u set.upserts
HasChange set (tombstone d) = In d set.tombstones

pub record IsSentIn (changes : List (String × ChangeSet)) (x : ChangelogEntry) : Type 0 where
  pub set : ChangeSet
  pub listed : In (x.entity_type, set) changes
  pub has : HasChange set x.change

group_one-HasChange :
    (t : String) (c : Change) (g : Groups) → HasChange (change_set (group_one t c g) t) c
group_one-HasChange t (upsert u) g = In-append_to t u g.upserts
group_one-HasChange t (tombstone d) g = In-append_to t d g.tombstones

group_one-HasChange_held :
    (t j : String) (c b : Change) (g : Groups)
    → HasChange (change_set g j) b
    → HasChange (change_set (group_one t c g) j) b
group_one-HasChange_held t j (upsert u) (upsert v) g h = In-append_to_held t u g.upserts j v h
group_one-HasChange_held t j (upsert u) (tombstone e) g h = h
group_one-HasChange_held t j (tombstone d) (upsert v) g h = h
group_one-HasChange_held t j (tombstone d) (tombstone e) g h =
    In-append_to_held t d g.tombstones j e h

change_of_group_one :
    (t j : String) (c b : Change) (g : Groups)
    → HasChange (change_set (group_one t c g) j) b
    → HasChange (change_set g j) b ⊎ ((t ≡ j) × (b ≡ c))
change_of_group_one t j (upsert u) (upsert v) g h = elim (In_of_append_to t u g.upserts j v h) [
  | inl a ↦ inl a
  | inr e ↦ inr (e.0, ap upsert e.1)
]
change_of_group_one t j (upsert u) (tombstone e) g h = inl h
change_of_group_one t j (tombstone d) (upsert v) g h = inl h
change_of_group_one t j (tombstone d) (tombstone e) g h =
    elim (In_of_append_to t d g.tombstones j e h) [
      | inl a ↦ inl a
      | inr q ↦ inr (q.0, ap tombstone q.1)
    ]

group_found-HasChange_held :
    (o : Option ChangelogEntry) (j : String) (b : Change) (g : Groups)
    → HasChange (change_set g j) b
    → HasChange (change_set (group_found o g) j) b
group_found-HasChange_held none j b g h = h
group_found-HasChange_held (some x) j b g h =
    group_one-HasChange_held x.entity_type j x.change b g h

module _ (by_key : List (String × ChangelogEntry)) where
  group_entries-HasChange_held :
      (ks : List String) (j : String) (b : Change) (g : Groups)
      → HasChange (change_set g j) b
      → HasChange (change_set (group_entries by_key ks g) j) b
  unfolding group_entries
  group_entries-HasChange_held [] j b g h = h
  group_entries-HasChange_held (k ∷ ks) j b g h =
      group_entries-HasChange_held ks j b (group_found (get k by_key) g)
        (group_found-HasChange_held (get k by_key) j b g h)

  pub group_entries-HasChange :
      (ks : List String) (k : String) (x : ChangelogEntry) (g : Groups)
      → In k ks
      → get k by_key ≡ some x
      → HasChange (change_set (group_entries by_key ks g) x.entity_type) x.change
  unfolding group_entries
  group_entries-HasChange [] k x g m e = absurd m
  group_entries-HasChange (j ∷ ks) k x g (inl same) e =
      group_entries-HasChange_held ks x.entity_type x.change (group_found (get j by_key) g)
        (rw (sym same, e) (group_one-HasChange x.entity_type x.change g))
  group_entries-HasChange (j ∷ ks) k x g (inr m) e =
      group_entries-HasChange ks k x (group_found (get j by_key) g) m e

  change_of_group_found :
      (k : String) (o : Option ChangelogEntry) (j : String) (b : Change) (g : Groups)
      → get k by_key ≡ o
      → HasChange (change_set (group_found o g) j) b
      → HasChange (change_set g j) b
        ⊎ ((x : ChangelogEntry) × (get k by_key ≡ some x) × (x.entity_type ≡ j) × (x.change ≡ b))
  change_of_group_found k none j b g e h = inl h
  change_of_group_found k (some x) j b g e h =
      elim (change_of_group_one x.entity_type j x.change b g h) [
        | inl a ↦ inl a
        | inr q ↦ inr (x, e, q.0, sym q.1)
      ]

  pub change_of_group_entries :
      (ks : List String) (j : String) (b : Change) (g : Groups)
      → HasChange (change_set (group_entries by_key ks g) j) b
      → HasChange (change_set g j) b
        ⊎ ((k : String) × (x : ChangelogEntry) × (get k by_key ≡ some x)
            × (x.entity_type ≡ j)
            × (x.change ≡ b))
  unfolding group_entries
  change_of_group_entries [] j b g h = inl h
  change_of_group_entries (k ∷ ks) j b g h =
      elim (change_of_group_entries ks j b (group_found (get k by_key) g) h) [
        | inl a ↦ elim (change_of_group_found k (get k by_key) j b g refl a) [
          | inl c ↦ inl c
          | inr q ↦ inr (k, q.0, q.1, q.2, q.3)
        ]
        | inr q ↦ inr q
      ]
