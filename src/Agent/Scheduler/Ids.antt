-- ===== src/Agent/Scheduler/Ids.antt =====
-- The map from databases to entries of cron.
use marmot_cli.Common.{
  ℕ, ◌≡◌, Bool, true, false, not, List, [], ◌∷◌, none, some, arith, Bytes, text_eq, text_eq_iff,
  ◌==◌, keep_if, All, Bool-cases, inl, inr, if◌then◌else◌,
}
use marmot_cli.Config.{DatabaseConfig, find_database}
use marmot_cli.Agent.Scheduler.{
  Job, backs_up, retries_uploads, EntryIds, entry_id, delete_id, set_id,
}

pub entry_id-delete_id :
    (m name : Bytes) (ids : EntryIds)
    → entry_id m (delete_id name ids) ≡ (if text_eq name m then none else entry_id m ids)
unfolding entry_id delete_id
entry_id-delete_id m name [] = ground arith
entry_id-delete_id m name ((n, id) ∷ ids) =
    ground (
      arith,
      entry_id-delete_id m name ids,
      text_eq_iff name m,
      text_eq_iff n m,
      text_eq_iff n name,
    )

pub entry_id-set_id :
    (m name : Bytes) (id : ℕ) (ids : EntryIds)
    → entry_id m (set_id name id ids) ≡ (if text_eq name m then some id else entry_id m ids)
unfolding entry_id set_id
entry_id-set_id m name id ids = ground (arith, entry_id-delete_id m name ids)

pub find_database-id :
    (name : Bytes) (dbs : List DatabaseConfig) {db : DatabaseConfig}
    → find_database name dbs ≡ some db
    → db.id ≡ name
unfolding find_database
find_database-id name [] h = cc
find_database-id name (x ∷ dbs) {db} h =
    ground (arith, find_database-id name dbs {db = db}, text_eq_iff x.id name)

-- A backup entry is the one that the map has for its database.
abbrev pub IsOwn : EntryIds → ℕ × Job → Type 0
IsOwn ids (id, backs_up db) = entry_id db.id ids ≡ some id
IsOwn ids (id, retries_uploads) = Unit

-- It is another database's, and its own.
abbrev pub IsOther : Bytes → EntryIds → ℕ × Job → Type 0
IsOther name ids (id, backs_up db) = (entry_id db.id ids ≡ some id) × (text_eq name db.id ≡ false)
IsOther name ids (id, retries_uploads) = Unit

pub All-kept {ℓ κ μ} :
    {A : Type ℓ} (P : A → Type κ) (Q : A → Type μ) (p : A → Bool) (xs : List A)
    → ((x : A) → P x → p x ≡ true → Q x)
    → All P xs
    → All Q (keep_if p xs)
unfolding keep_if
All-kept P Q p [] f h = tt
All-kept P Q p (x ∷ xs) f h = elim (Bool-cases (p x)) [
  | inl kept ↦ rw kept (f x h.0 kept, All-kept P Q p xs f h.1)
  | inr dropped ↦ rw dropped (All-kept P Q p xs f h.1)
]

pub All-each {ℓ κ μ} :
    {A : Type ℓ} (P : A → Type κ) (Q : A → Type μ) (xs : List A)
    → ((x : A) → P x → Q x)
    → All P xs
    → All Q xs
All-each P Q [] f h = tt
All-each P Q (x ∷ xs) f h = (f x h.0, All-each P Q xs f h.1)

pub IsOther-none :
    (name : Bytes) (ids : EntryIds) (e : ℕ × Job)
    → entry_id name ids ≡ none
    → IsOwn ids e
    → IsOther name ids e
IsOther-none name ids (id, backs_up db) h own = (own, ground (arith, text_eq_iff name db.id))
IsOther-none name ids (id, retries_uploads) h own = tt

pub IsOther-kept :
    (name : Bytes) (ids : EntryIds) (old : ℕ) (e : ℕ × Job)
    → entry_id name ids ≡ some old
    → IsOwn ids e
    → not (e.0 == old) ≡ true
    → IsOther name ids e
IsOther-kept name ids old (id, backs_up db) h own kept =
    (own, ground (arith, text_eq_iff name db.id))
IsOther-kept name ids old (id, retries_uploads) h own kept = tt

pub IsOwn-set_id :
    (name : Bytes) (ids : EntryIds) (new : ℕ) (e : ℕ × Job)
    → IsOther name ids e
    → IsOwn (set_id name new ids) e
IsOwn-set_id name ids new (id, backs_up db) other =
    ground (arith, entry_id-set_id db.id name new ids)
IsOwn-set_id name ids new (id, retries_uploads) other = tt

pub IsOwn-delete_id :
    (name : Bytes) (ids : EntryIds) (e : ℕ × Job)
    → IsOther name ids e
    → IsOwn (delete_id name ids) e
IsOwn-delete_id name ids (id, backs_up db) other = ground (arith, entry_id-delete_id db.id name ids)
IsOwn-delete_id name ids (id, retries_uploads) other = tt

pub IsOwn-IsOther : (name : Bytes) (ids : EntryIds) (e : ℕ × Job) → IsOther name ids e → IsOwn ids e
IsOwn-IsOther name ids (id, backs_up db) other = other.0
IsOwn-IsOther name ids (id, retries_uploads) other = tt
