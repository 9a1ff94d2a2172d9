-- ===== src/Activities/Cursor/Order.antt =====
-- The keyset order of positions.
use rize_backend.Base.{◌≡◌, ◌≢◌, true, false, arith}
use rize_backend.Store.Paging.Keyset.{IsStrictOrder}
use rize_backend.Activities.{Position}
use rize_backend.Activities.Cursor.{earlier}

earlier_irreflexive : (a : Position) → earlier a a ≡ false
unfolding earlier
earlier_irreflexive a = ground arith

earlier_transitive :
    (a b c : Position) → earlier a b ≡ true → earlier b c ≡ true → earlier a c ≡ true
unfolding earlier
earlier_transitive a b c h k = ground arith

pub earlier-IsStrictOrder : IsStrictOrder earlier
earlier-IsStrictOrder = record {
  irreflexive = earlier_irreflexive;
  transitive = earlier_transitive;
}

-- Of two different positions, one is earlier.
pub earlier_total : (a b : Position) → a ≢ b → earlier b a ≡ false → earlier a b ≡ true
unfolding earlier
earlier_total a b n h = ground arith
