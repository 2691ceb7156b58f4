-- ===== src/Storage/Queue/Order.antt =====
-- `List`, `Peek` and `Dequeue` agree: the oldest backup comes first.
use mathlib.Core.List.{Perm}
use mathlib.Core.List.Perm
use mathlib.Core.Path.{ap₂}
use marmot_cli.Common.{
  ℕ, zero, suc, ◌≤◌, ◌≡◌, refl, ap, List, [], ◌∷◌, map, Option, none, some, arith, Bytes,
  text_eq_refl, Result, ok, length, inl, inr, Bool-cases, leb, leb→le, leb→lt, if◌then◌else◌,
  keep_if, subst, ◌∙◌,
}
use marmot_cli.Storage.{BackupFile}
use marmot_cli.Storage.Queue.{
  Row, Table, named, delete_named, insert_by_time, order_by_time, scan_item, scan_next, scan_rows,
  dequeue_row, dequeue, peek, list, QueueError,
}
use marmot_cli.Storage.Queue.Rows.{
  After, Ordered, Distinct, Distinct-order_by_time, delete_named-Fresh, delete_named-cons,
}
use marmot_cli.Storage.Queue.Invariant.{IsValid, dequeue-IsValid}

After-mono : (a b : Row) (rs : List Row) → a.created_at ≤ b.created_at → After b rs → After a rs
After-mono a b [] h p = tt
After-mono a b (x ∷ rs) h p = (omega (arith, p.0), After-mono a b rs h p.1)

After-insert_by_time :
    (a r : Row) (rs : List Row)
    → a.created_at ≤ r.created_at
    → After a rs
    → After a (insert_by_time r rs)
unfolding insert_by_time
After-insert_by_time a r [] h p = (h, tt)
After-insert_by_time a r (x ∷ rs) h p = ground (arith, After-insert_by_time a r rs h p.1)

Ordered-insert_by_time : (r : Row) (rs : List Row) → Ordered rs → Ordered (insert_by_time r rs)
unfolding insert_by_time
Ordered-insert_by_time r [] o = (tt, tt)
Ordered-insert_by_time r (x ∷ rs) o = elim (Bool-cases (leb r.created_at x.created_at)) [
  | inl h ↦ let le = leb→le r.created_at x.created_at h in rw h ((le, After-mono r x rs le o.0), o)
  | inr h ↦
      let lt = leb→lt r.created_at x.created_at h in
      rw h (After-insert_by_time x r rs (omega arith) o.0, Ordered-insert_by_time r rs o.1)
]

pub Ordered-order_by_time : (rs : List Row) → Ordered (order_by_time rs)
unfolding order_by_time
Ordered-order_by_time [] = tt
Ordered-order_by_time (r ∷ rs) = Ordered-insert_by_time r _ (Ordered-order_by_time rs)

insert_by_time-perm : (r : Row) (rs : List Row) → Perm (insert_by_time r rs) (r ∷ rs)
unfolding insert_by_time
insert_by_time-perm r [] = Perm.refl (r ∷ [])
insert_by_time-perm r (x ∷ rs) = elim (Bool-cases (leb r.created_at x.created_at)) [
  | inl h ↦ rw h (Perm.refl (r ∷ x ∷ rs))
  | inr h ↦ rw h (Perm.trans (Perm.cons x (insert_by_time-perm r rs)) (Perm.swap r x rs))
]

pub order_by_time-perm : (rs : List Row) → Perm (order_by_time rs) rs
unfolding order_by_time
order_by_time-perm [] = Perm.refl []
order_by_time-perm (r ∷ rs) =
    Perm.trans (insert_by_time-perm r (order_by_time rs)) (Perm.cons r (order_by_time-perm rs))

-- Deleting and ordering commute.
insert_by_time_first : (r : Row) (rs : List Row) → After r rs → insert_by_time r rs ≡ r ∷ rs
unfolding insert_by_time
insert_by_time_first r [] h = refl
insert_by_time_first r (x ∷ rs) h = ground arith

After-delete_named :
    (a : Row) (name : Bytes) (rs : List Row) → After a rs → After a (delete_named name rs)
unfolding delete_named keep_if
After-delete_named a name [] h = tt
After-delete_named a name (r ∷ rs) h = ground (arith, After-delete_named a name rs h.1)

delete_named-insert_by_time :
    (name : Bytes) (r : Row) (rs : List Row)
    → Ordered rs
    → delete_named name (insert_by_time r rs)
      ≡ (if named name r then delete_named name rs else insert_by_time r (delete_named name rs))
unfolding insert_by_time delete_named keep_if
delete_named-insert_by_time name r [] o = ground arith
delete_named-insert_by_time name r (x ∷ rs) o = ground (
  arith,
  delete_named-insert_by_time name r rs o.1,
  insert_by_time_first r (delete_named name rs),
  After-delete_named r name rs,
  After-mono r x rs,
)

scan_rows_ok : (rs : List Row) → scan_rows none rs ≡ ok (map scan_item rs)
unfolding scan_rows
scan_rows_ok [] = refl
scan_rows_ok (r ∷ rs) = refl

pub delete_named-order_by_time :
    (name : Bytes) (rs : List Row)
    → order_by_time (delete_named name rs) ≡ delete_named name (order_by_time rs)
unfolding order_by_time
delete_named-order_by_time name [] = unfold delete_named keep_if in refl
delete_named-order_by_time name (r ∷ rs) =
    let ih = delete_named-order_by_time name rs in
    rw
      (
        delete_named-insert_by_time name r (order_by_time rs) (Ordered-order_by_time rs),
        delete_named-cons,
      )
      (elim (Bool-cases (named name r)) [
        | inl h ↦ rw h ih
        | inr h ↦ rw h (ap (insert_by_time r) ih)
      ])

-- What `Dequeue` returns of an entry of `List`: the retry columns are not read.
abbrev pub without_retries : BackupFile → BackupFile
without_retries b = record b { retry_count = 0; last_retry_at = 0 }

delete_first : (r : Row) (rs : List Row) → Distinct (r ∷ rs) → delete_named r.name (r ∷ rs) ≡ rs
delete_first r rs d = rw (delete_named-cons, text_eq_refl) (delete_named-Fresh r.name rs d.0)

-- The ordered rows after `Dequeue`, where the first of them was `r`.
dequeue_rows :
    (t : Table) (r : Row) (rs : List Row)
    → IsValid t
    → order_by_time t.rows ≡ r ∷ rs
    → (dequeue none none t
        ≡ (record t { rows = delete_named r.name t.rows }, ok (some (scan_next r))))
      × (order_by_time (delete_named r.name t.rows) ≡ rs)
unfolding dequeue
dequeue_rows t r rs v e = (
  rw (e, dequeue) (unfold dequeue_row in refl),
  rw (delete_named-order_by_time, e)
      (delete_first r rs (subst Distinct e (Distinct-order_by_time t.rows v.distinct))),
)

scan_rows-cons :
    (rs : List Row) (b : BackupFile) (bs : List BackupFile)
    → scan_rows none rs ≡ ok (b ∷ bs)
    → (r : Row) × (qs : List Row) × (rs ≡ r ∷ qs) × (scan_item r ≡ b) × (map scan_item qs ≡ bs)
unfolding scan_rows
scan_rows-cons [] b bs e = cc
scan_rows-cons (r ∷ rs) b bs e = (r, rs, refl, cc, cc)

-- `Dequeue` returns the first entry of `List`, and `List` then returns the others.
pub dequeue_lem :
    (t : Table) (b : BackupFile) (bs : List BackupFile)
    → IsValid t
    → list none none t ≡ ok (b ∷ bs)
    → ((dequeue none none t).1 ≡ ok (some (without_retries b)))
      × (list none none (dequeue none none t).0 ≡ ok bs)
unfolding list
dequeue_lem t b bs v e =
    let (r, qs, split, same, rest) = scan_rows-cons (order_by_time t.rows) b bs e in
    let (gives, left) = dequeue_rows t r qs v split in
    rw gives (ap (λ x. ok (some (without_retries x))) same, rw left (scan_rows_ok qs ∙ ap ok rest))

-- The results of so many calls of `Dequeue`, and the table after them.
pub drain : ℕ → Table → List (Result QueueError (Option BackupFile)) × Table
drain zero t = ([], t)
drain (suc n) t =
    let (t', r) = dequeue none none t in let (rest, t'') = drain n t' in (r ∷ rest, t'')

-- On a valid table, where no statement fails, calling `Dequeue` as often as there are entries
-- returns those of `List` in its order, with their retries left out, and leaves nothing to list.
pub drain-list :
    (bs : List BackupFile) (t : Table)
    → IsValid t
    → list none none t ≡ ok bs
    → ((drain (length bs) t).0 ≡ map (λ b. ok (some (without_retries b))) bs)
      × (list none none (drain (length bs) t).1 ≡ ok [])
unfolding drain
drain-list [] t v e = (refl, e)
drain-list (b ∷ bs) t v e =
    let (gives, left) = dequeue_lem t b bs v e in
    let (first, last) =
      drain-list bs (dequeue none none t).0 (dequeue-IsValid none none t v) left in
    (ap₂ ◌∷◌ gives first, last)

-- `Peek` shows what `Dequeue` would return, on an empty queue too.
pub peek-dequeue : (t : Table) → peek none t ≡ (dequeue none none t).1
unfolding peek dequeue dequeue_row
peek-dequeue t = ground arith
