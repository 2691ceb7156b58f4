-- ===== src/Storage/Queue/Rows.antt =====
-- Lists of rows: distinct names, the order by time, and how deletion and update act on both.
use marmot_cli.Common.{
  ◌≤◌, ◌≡◌, refl, false, List, [], ◌∷◌, ◌++◌, arith, Bytes, text_eq_iff, if◌then◌else◌, keep_if,
  All, All-append,
}
use marmot_cli.Storage.Queue.{Row, named, delete_named, insert_by_time, order_by_time, update_named}

-- No row has the name.
abbrev pub Fresh : Bytes → List Row → Type 0
Fresh name = All (λ r. named name r ≡ false)

-- The column is UNIQUE.
abbrev pub Distinct : List Row → Type 0
Distinct [] = Unit {0}
Distinct (r ∷ rs) = Fresh r.name rs × Distinct rs

abbrev pub After : Row → List Row → Type 0
After r = All (λ x. r.created_at ≤ x.created_at)

abbrev pub Ordered : List Row → Type 0
Ordered [] = Unit {0}
Ordered (r ∷ rs) = After r rs × Ordered rs

pub named_symm : (a b : Row) → named b.name a ≡ false → named a.name b ≡ false
named_symm a b h = ground (arith, text_eq_iff a.name b.name, text_eq_iff b.name a.name)

pub delete_named-cons :
    (name : Bytes) (r : Row) (rs : List Row)
    → delete_named name (r ∷ rs)
      ≡ (if named name r then delete_named name rs else r ∷ delete_named name rs)
unfolding delete_named keep_if
delete_named-cons name r rs = ground arith

pub delete_named-Fresh : (name : Bytes) (rs : List Row) → Fresh name rs → delete_named name rs ≡ rs
unfolding delete_named
delete_named-Fresh name [] h = refl
delete_named-Fresh name (r ∷ rs) h = ground (arith, delete_named-Fresh name rs h.1)

pub Fresh-delete_named : (name : Bytes) (rs : List Row) → Fresh name (delete_named name rs)
unfolding delete_named
Fresh-delete_named name [] = tt
Fresh-delete_named name (r ∷ rs) = ground (arith, Fresh-delete_named name rs)

pub Fresh-delete_other :
    (m name : Bytes) (rs : List Row) → Fresh m rs → Fresh m (delete_named name rs)
unfolding delete_named
Fresh-delete_other m name [] h = tt
Fresh-delete_other m name (r ∷ rs) h = ground (arith, Fresh-delete_other m name rs h.1)

pub Distinct-delete_named :
    (name : Bytes) (rs : List Row) → Distinct rs → Distinct (delete_named name rs)
unfolding delete_named
Distinct-delete_named name [] h = tt
Distinct-delete_named name (r ∷ rs) h =
    ground (arith, Distinct-delete_named name rs h.1, Fresh-delete_other r.name name rs h.0)

pub Distinct-snoc :
    (rs : List Row) (r : Row) → Distinct rs → Fresh r.name rs → Distinct (rs ++ (r ∷ []))
Distinct-snoc [] r h f = (tt, tt)
Distinct-snoc (x ∷ rs) r h f =
    (All-append _ rs (r ∷ []) h.0 (named_symm x r f.0, tt), Distinct-snoc rs r h.1 f.1)

pub Fresh-update_named :
    (m name : Bytes) (f : Row → Row) (rs : List Row)
    → ((r : Row) → (f r).name ≡ r.name)
    → Fresh m rs
    → Fresh m (update_named name f rs)
unfolding update_named
Fresh-update_named m name f [] same h = tt
Fresh-update_named m name f (r ∷ rs) same h =
    ground (arith, same r, Fresh-update_named m name f rs same h.1)

pub Distinct-update_named :
    (name : Bytes) (f : Row → Row) (rs : List Row)
    → ((r : Row) → (f r).name ≡ r.name)
    → Distinct rs
    → Distinct (update_named name f rs)
unfolding update_named
Distinct-update_named name f [] same h = tt
Distinct-update_named name f (r ∷ rs) same h = ground (
  arith,
  same r,
  Distinct-update_named name f rs same h.1,
  Fresh-update_named r.name name f rs same h.0,
)

-- The order by time keeps the names distinct.
pub Fresh-insert_by_time :
    (m : Bytes) (r : Row) (rs : List Row)
    → named m r ≡ false
    → Fresh m rs
    → Fresh m (insert_by_time r rs)
unfolding insert_by_time
Fresh-insert_by_time m r [] h f = (h, tt)
Fresh-insert_by_time m r (x ∷ rs) h f = ground (arith, Fresh-insert_by_time m r rs h f.1)

pub Distinct-insert_by_time :
    (r : Row) (rs : List Row) → Fresh r.name rs → Distinct rs → Distinct (insert_by_time r rs)
unfolding insert_by_time
Distinct-insert_by_time r [] f h = (tt, tt)
Distinct-insert_by_time r (x ∷ rs) f h = ground (
  arith,
  Distinct-insert_by_time r rs f.1 h.1,
  Fresh-insert_by_time x.name r rs (named_symm x r f.0) h.0,
)

pub Fresh-order_by_time : (m : Bytes) (rs : List Row) → Fresh m rs → Fresh m (order_by_time rs)
unfolding order_by_time
Fresh-order_by_time m [] f = tt
Fresh-order_by_time m (r ∷ rs) f =
    Fresh-insert_by_time m r (order_by_time rs) f.0 (Fresh-order_by_time m rs f.1)

pub Distinct-order_by_time : (rs : List Row) → Distinct rs → Distinct (order_by_time rs)
unfolding order_by_time
Distinct-order_by_time [] h = tt
Distinct-order_by_time (r ∷ rs) h =
    Distinct-insert_by_time r (order_by_time rs) (Fresh-order_by_time r.name rs h.0)
      (Distinct-order_by_time rs h.1)
