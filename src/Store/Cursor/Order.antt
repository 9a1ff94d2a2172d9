-- ===== src/Store/Cursor/Order.antt =====
-- The keyset order of positions.
use rize_backend.Base.{◌≤◌, ◌≡◌, true, false, arith}
use rize_backend.Store.Cursor.{PullCursor, less}
use rize_backend.Store.Paging.Keyset.{IsStrictOrder}

-- `p` is not after `c`.
abbrev pub Reached : PullCursor → PullCursor → Type 0
Reached c p = less c p ≡ false

less_irreflexive : (a : PullCursor) → less a a ≡ false
unfolding less
less_irreflexive a = ground arith

less_transitive : (a b c : PullCursor) → less a b ≡ true → less b c ≡ true → less a c ≡ true
unfolding less
less_transitive a b c h k = ground arith

pub less-IsStrictOrder : IsStrictOrder less
less-IsStrictOrder = record { irreflexive = less_irreflexive; transitive = less_transitive }

pub Reached-trans : (c h p : PullCursor) → Reached c h → Reached h p → Reached c p
unfolding less
Reached-trans c h p k l = ground arith

pub Reached-grow :
    (c d p : PullCursor) → c.xid8 ≤ d.xid8 → c.server_seq ≤ d.server_seq → Reached c p → Reached d p
unfolding less
Reached-grow c d p h k l = ground arith

pub Reached-of_le : (d p : PullCursor) → p.xid8 ≤ d.xid8 → p.server_seq ≤ d.server_seq → Reached d p
unfolding less
Reached-of_le d p h k = ground arith

pub Reached-of_less : (c p : PullCursor) → less p c ≡ true → Reached c p
unfolding less
Reached-of_less c p h = ground arith

pub Reached-xid8 : (c p : PullCursor) → Reached c p → p.xid8 ≤ c.xid8
unfolding less
Reached-xid8 c p h = ground arith

pub Reached-antisym :
    (c p : PullCursor)
    → Reached c p
    → Reached p c
    → (c.xid8 ≡ p.xid8) × (c.server_seq ≡ p.server_seq)
unfolding less
Reached-antisym c p h k = ground arith

pub Reached-of_eq : (c p : PullCursor) → c ≡ p → Reached c p
Reached-of_eq c p h = rw h (less_irreflexive p)
