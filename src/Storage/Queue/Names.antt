-- ===== src/Storage/Queue/Names.antt =====
-- Which names have a row.
use marmot_cli.Common.{
  ◌≡◌, ◌⊎◌, inl, inr, ok, err, refl, Bool, false, ◌||◌, List, [], ◌∷◌, ◌++◌, none, some, arith,
  Bytes, text_eq, text_eq_iff, keep_if, if◌then◌else◌,
}
use marmot_cli.Storage.{Time, BackupFile}
use marmot_cli.Storage.Queue.{
  QueueError, enqueue_failed, Row, Table, Fault, named, delete_named, new_row, enqueue, retried,
  update_named, increment_retry, remove,
}

unfoldable pub has_row : Bytes → List Row → Bool
has_row name [] = false
has_row name (r ∷ rs) = named name r || has_row name rs

has_row-append_new :
    (name : Bytes) (rs : List Row) (r : Row)
    → has_row name (rs ++ (r ∷ [])) ≡ (named name r || has_row name rs)
unfolding has_row
has_row-append_new name [] r = refl
has_row-append_new name (x ∷ rs) r = ground (arith, has_row-append_new name rs r)

has_row-delete_named :
    (name gone : Bytes) (rs : List Row)
    → has_row name (delete_named gone rs) ≡ (if text_eq gone name then false else has_row name rs)
unfolding has_row delete_named keep_if
has_row-delete_named name gone [] = ground arith
has_row-delete_named name gone (x ∷ rs) = ground (
  arith,
  has_row-delete_named name gone rs,
  text_eq_iff gone name,
  text_eq_iff x.name name,
  text_eq_iff x.name gone,
)

has_row-update_named :
    (name at message : Bytes) (now : Time) (rs : List Row)
    → has_row name (update_named at (retried message now) rs) ≡ has_row name rs
unfolding has_row update_named
has_row-update_named name at message now [] = refl
has_row-update_named name at message now (x ∷ rs) =
    ground (arith, has_row-update_named name at message now rs)

pub has_row-enqueue :
    (name : Bytes) (b : BackupFile) (t : Table)
    → has_row name (enqueue none b t).0.rows ≡ (text_eq b.name name || has_row name t.rows)
unfolding enqueue
has_row-enqueue name b t = ground (
  arith,
  has_row-append_new name (delete_named b.name t.rows) (new_row t.next_id b),
  has_row-delete_named name b.name t.rows,
)

pub has_row-increment_retry :
    (f : Fault) (name at message : Bytes) (now : Time) (t : Table)
    → has_row name (increment_retry f at message now t).0.rows ≡ has_row name t.rows
unfolding increment_retry
has_row-increment_retry none name at message now t = has_row-update_named name at message now t.rows
has_row-increment_retry (some e) name at message now t = refl

pub has_row-remove :
    (f : Fault) (name gone : Bytes) (t : Table)
    → text_eq gone name ≡ false
    → has_row name (remove f gone t).0.rows ≡ has_row name t.rows
unfolding remove
has_row-remove none name gone t h = ground (arith, has_row-delete_named name gone t.rows)
has_row-remove (some e) name gone t h = refl

-- A failing `Enqueue` leaves the table; one that succeeds is the one without a fault.
pub enqueue_cases :
    (f : Fault) (b : BackupFile) (t : Table)
    → ((x : QueueError) × (enqueue f b t ≡ (t, err x)))
      ⊎ (enqueue f b t ≡ ((enqueue none b t).0, ok tt))
unfolding enqueue
enqueue_cases none b t = inr refl
enqueue_cases (some e) b t = inl (enqueue_failed e, refl)
