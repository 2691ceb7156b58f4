-- ===== src/Storage/Queue/Invariant.antt =====
-- What holds of the table between two statements, and what a method that fails leaves behind.
use marmot_cli.Common.{
  ℕ, suc, ◌<◌, ◌≡◌, refl, false, List, [], ◌∷◌, ◌++◌, Option, none, some, arith, Bytes, Result, ok,
  err, All, any_of, inl, inr, Bool-cases, if◌then◌else◌, keep_if, subst, sym,
}
use marmot_cli.Storage.{Time, BackupFile}
use marmot_cli.Storage.Queue.{
  Row, Table, QueueError, Fault, named, delete_named, update_named, retried, enqueue, dequeue_row,
  dequeue, increment_retry, remove, clear,
}
use marmot_cli.Storage.Queue.Rows.{
  Fresh, Distinct, delete_named-Fresh, Fresh-delete_named, Distinct-delete_named, Distinct-snoc,
  Distinct-update_named,
}

-- Ids grow along the list and stay under the bound.
abbrev pub Below : ℕ → List Row → Type 0
Below n = All (λ r. r.id < n)

abbrev pub Rising : List Row → Type 0
Rising [] = Unit {0}
Rising (r ∷ rs) = All (λ x. r.id < x.id) rs × Rising rs

pub record IsValid (t : Table) : Type 0 where
  pub distinct : Distinct t.rows
  pub below : Below t.next_id t.rows
  pub rising : Rising t.rows

All-delete_named {κ} :
    (P : Row → Type κ) (name : Bytes) (rs : List Row) → All P rs → All P (delete_named name rs)
unfolding delete_named keep_if
All-delete_named P name [] h = h
All-delete_named P name (r ∷ rs) h = ground (arith, All-delete_named P name rs h.1)

Rising-delete_named : (name : Bytes) (rs : List Row) → Rising rs → Rising (delete_named name rs)
unfolding delete_named keep_if
Rising-delete_named name [] h = tt
Rising-delete_named name (r ∷ rs) h =
    ground (arith, Rising-delete_named name rs h.1, All-delete_named (λ x. r.id < x.id) name rs h.0)

Below-snoc :
    (n : ℕ) (rs : List Row) (r : Row) → r.id ≡ n → Below n rs → Below (suc n) (rs ++ (r ∷ []))
Below-snoc n [] r e h = (omega arith, tt)
Below-snoc n (x ∷ rs) r e h = (omega (arith, h.0), Below-snoc n rs r e h.1)

All-snoc-id :
    (k n : ℕ) (rs : List Row) (r : Row)
    → k < n
    → r.id ≡ n
    → All (λ x. k < x.id) rs
    → All (λ x. k < x.id) (rs ++ (r ∷ []))
All-snoc-id k n [] r lt e h = (omega arith, tt)
All-snoc-id k n (x ∷ rs) r lt e h = (h.0, All-snoc-id k n rs r lt e h.1)

Rising-snoc :
    (n : ℕ) (rs : List Row) (r : Row) → r.id ≡ n → Below n rs → Rising rs → Rising (rs ++ (r ∷ []))
Rising-snoc n [] r e b h = (tt, tt)
Rising-snoc n (x ∷ rs) r e b h = (All-snoc-id x.id n rs r b.0 e h.0, Rising-snoc n rs r e b.1 h.1)

All-update_named {κ} :
    (P : Row → Type κ) (name : Bytes) (f : Row → Row) (rs : List Row)
    → ((r : Row) → P r → P (f r))
    → All P rs
    → All P (update_named name f rs)
unfolding update_named
All-update_named P name f [] same h = h
All-update_named P name f (r ∷ rs) same h =
    ground (arith, same r h.0, All-update_named P name f rs same h.1)

Rising-update_named :
    (name : Bytes) (f : Row → Row) (rs : List Row)
    → ((r : Row) → (f r).id ≡ r.id)
    → Rising rs
    → Rising (update_named name f rs)
unfolding update_named
Rising-update_named name f [] same h = tt
Rising-update_named name f (r ∷ rs) same h =
    let kept : (if named name r then f r else r).id ≡ r.id = ground (arith, same r) in
    let above = All-update_named (λ x. r.id < x.id) name f rs (λ x p. omega (arith, same x)) h.0 in
    (
      subst (λ k. All (λ x. k < x.id) (update_named name f rs)) (sym kept) above,
      Rising-update_named name f rs same h.1,
    )

-- A call of a method that writes, with what the database makes of its statements.
pub data Call : Type 0 where
  enqueues : Fault → BackupFile → Call
  dequeues : Fault → Fault → Call
  increments : Fault → Bytes → Bytes → Time → Call
  removes : Fault → Bytes → Call
  clears : Fault → Call

abbrev pub error_of {ℓ} : {A : Type ℓ} → Result QueueError A → Option QueueError
error_of (ok a) = none
error_of (err e) = some e

-- The table after the call, and its error.
unfoldable pub step : Call → Table → Table × Option QueueError
step (enqueues f b) t = let (t', r) = enqueue f b t in (t', error_of r)
step (dequeues f g) t = let (t', r) = dequeue f g t in (t', error_of r)
step (increments f name message now) t =
    let (t', r) = increment_retry f name message now t in (t', error_of r)
step (removes f name) t = let (t', r) = remove f name t in (t', error_of r)
step (clears f) t = let (t', r) = clear f t in (t', error_of r)

pub run : List Call → Table → Table
run [] t = t
run (c ∷ cs) t = run cs (step c t).0

delete-IsValid :
    (name : Bytes) (t : Table) → IsValid t → IsValid (record t { rows = delete_named name t.rows })
delete-IsValid name t v = record {
  distinct = Distinct-delete_named name t.rows v.distinct;
  below = All-delete_named _ name t.rows v.below;
  rising = Rising-delete_named name t.rows v.rising;
}

enqueue-IsValid : (f : Fault) (b : BackupFile) (t : Table) → IsValid t → IsValid (enqueue f b t).0
unfolding enqueue
enqueue-IsValid (some e) b t v = v
enqueue-IsValid none b t v =
    let w = delete-IsValid b.name t v in
    record {
      distinct = Distinct-snoc _ _ w.distinct (Fresh-delete_named b.name t.rows);
      below = Below-snoc t.next_id _ _ refl w.below;
      rising = Rising-snoc t.next_id _ _ refl w.below w.rising;
    }

dequeue_row-IsValid :
    (f : Fault) (r : Option Row) (t : Table) → IsValid t → IsValid (dequeue_row f r t).0
unfolding dequeue_row
dequeue_row-IsValid f none t v = v
dequeue_row-IsValid (some e) (some r) t v = v
dequeue_row-IsValid none (some r) t v = delete-IsValid r.name t v

pub dequeue-IsValid : (f g : Fault) (t : Table) → IsValid t → IsValid (dequeue f g t).0
unfolding dequeue
dequeue-IsValid (some e) g t v = v
dequeue-IsValid none g t v = dequeue_row-IsValid g _ t v

increment-IsValid :
    (f : Fault) (name message : Bytes) (now : Time) (t : Table)
    → IsValid t
    → IsValid (increment_retry f name message now t).0
unfolding increment_retry
increment-IsValid (some e) name message now t v = v
increment-IsValid none name message now t v =
    let g = retried message now in
    record {
      distinct = Distinct-update_named name g t.rows (λ r. refl) v.distinct;
      below = All-update_named _ name g t.rows (λ r h. h) v.below;
      rising = Rising-update_named name g t.rows (λ r. refl) v.rising;
    }

-- Every call, also one that fails, keeps the names distinct and the ids rising and below the next.
pub step-IsValid : (c : Call) (t : Table) → IsValid t → IsValid (step c t).0
unfolding step remove clear
step-IsValid (enqueues f b) t v = enqueue-IsValid f b t v
step-IsValid (dequeues f g) t v = dequeue-IsValid f g t v
step-IsValid (increments f name message now) t v = increment-IsValid f name message now t v
step-IsValid (removes (some e) name) t v = v
step-IsValid (removes none name) t v = delete-IsValid name t v
step-IsValid (clears (some e)) t v = v
step-IsValid (clears none) t v = record { distinct = tt; below = tt; rising = tt }

-- If the rows of a table have distinct names, ids below the next one, and ids that rise, so they
-- have after any calls of the queue's methods, those that fail included.
pub run-IsValid : (cs : List Call) (t : Table) → IsValid t → IsValid (run cs t)
unfolding run
run-IsValid [] t v = v
run-IsValid (c ∷ cs) t v = run-IsValid cs (step c t).0 (step-IsValid c t v)

any_of-Fresh : (name : Bytes) (rs : List Row) → any_of (named name) rs ≡ false → Fresh name rs
unfolding any_of
any_of-Fresh name [] h = tt
any_of-Fresh name (r ∷ rs) h = ground (arith, any_of-Fresh name rs)

dequeue_row_unchanged :
    (f : Fault) (r : Option Row) (t : Table) {e : QueueError}
    → error_of (dequeue_row f r t).1 ≡ some e
    → (dequeue_row f r t).0 ≡ t
unfolding dequeue_row
dequeue_row_unchanged f none t h = refl
dequeue_row_unchanged (some x) (some r) t h = refl
dequeue_row_unchanged none (some r) t h = cc

remove_unchanged :
    (name : Bytes) (t : Table) {e : QueueError}
    → error_of (remove none name t).1 ≡ some e
    → (remove none name t).0 ≡ t
unfolding remove
remove_unchanged name t h = elim (Bool-cases (any_of (named name) t.rows)) [
  | inl p ↦ absurd (cc (rw p at h))
  | inr p ↦ rw (delete_named-Fresh name t.rows (any_of-Fresh name t.rows p))
]

-- A call that returns an error leaves the table as it was: `Dequeue` whose delete fails keeps the
-- row, and `Remove` of an absent name deletes nothing.
pub step_error_unchanged :
    (c : Call) (t : Table) {e : QueueError} → (step c t).1 ≡ some e → (step c t).0 ≡ t
unfolding step enqueue dequeue increment_retry clear
step_error_unchanged (enqueues (some x) b) t h = refl
step_error_unchanged (enqueues none b) t h = cc
step_error_unchanged (dequeues (some x) g) t h = refl
step_error_unchanged (dequeues none g) t h = dequeue_row_unchanged g _ t h
step_error_unchanged (increments (some x) name message now) t h = refl
step_error_unchanged (increments none name message now) t h = cc
step_error_unchanged (removes (some x) name) t h = unfold remove in refl
step_error_unchanged (removes none name) t h = remove_unchanged name t h
step_error_unchanged (clears (some x)) t h = refl
step_error_unchanged (clears none) t h = cc
