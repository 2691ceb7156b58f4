-- ===== src/Config/Databases/Unique.antt =====
-- Database ids under `db add` and `db remove`.
use marmot_cli.Common.{
  ◌≡◌, refl, Bool, true, false, not, List, [], ◌∷◌, ◌++◌, none, some, arith, Bytes, text_eq,
  text_eq_iff, text_eq_refl, Result, ok, ◌>>=◌, fail_if->>-eq-ok, >>=-eq-ok, All, All-append,
  All-keep_if, keep_if, any_of, if◌then◌else◌,
}
use marmot_cli.Config.{Config, DatabaseConfig, find_database}
use marmot_cli.Config.Databases.{
  Url, ParsedDsn, AddFlags, DbError, duplicate_id, connection, new_database, added, removed,
}

abbrev pub Fresh : Bytes → List DatabaseConfig → Type 0
Fresh id = All (λ db. text_eq db.id id ≡ false)

-- No two databases have one id.
abbrev pub Distinct : List DatabaseConfig → Type 0
Distinct [] = Unit
Distinct (db ∷ dbs) = Fresh db.id dbs × Distinct dbs

find_database-Fresh :
    (id : Bytes) (dbs : List DatabaseConfig) → find_database id dbs ≡ none → Fresh id dbs
unfolding find_database
find_database-Fresh id [] h = tt
find_database-Fresh id (db ∷ dbs) h = ground (arith, find_database-Fresh id dbs)

Fresh-find_database :
    (id : Bytes) (dbs : List DatabaseConfig) → Fresh id dbs → find_database id dbs ≡ none
unfolding find_database
Fresh-find_database id [] h = refl
Fresh-find_database id (db ∷ dbs) h = ground (arith, Fresh-find_database id dbs h.1)

Distinct-append :
    (dbs : List DatabaseConfig) (db : DatabaseConfig)
    → Distinct dbs
    → Fresh db.id dbs
    → Distinct (dbs ++ (db ∷ []))
Distinct-append [] db d f = (tt, tt)
Distinct-append (x ∷ dbs) db d f = (
  All-append (λ y. text_eq y.id x.id ≡ false) dbs (db ∷ []) d.0
      (ground (arith, text_eq_iff x.id db.id, text_eq_iff db.id x.id), tt),
  Distinct-append dbs db d.1 f.1,
)

pub Distinct-keep_if :
    (keep : DatabaseConfig → Bool) (dbs : List DatabaseConfig)
    → Distinct dbs
    → Distinct (keep_if keep dbs)
unfolding keep_if
Distinct-keep_if keep [] d = tt
Distinct-keep_if keep (x ∷ dbs) d =
    let rest = Distinct-keep_if keep dbs d.1 in
    let fresh = All-keep_if (λ y. text_eq y.id x.id ≡ false) keep dbs d.0 in ground arith

pub find_database-append :
    (id : Bytes) (dbs : List DatabaseConfig) (db : DatabaseConfig)
    → Fresh db.id dbs
    → find_database id (dbs ++ (db ∷ []))
      ≡ (if text_eq db.id id then some db else find_database id dbs)
unfolding find_database
find_database-append id [] db f = ground arith
find_database-append id (x ∷ dbs) db f = ground (
  arith,
  find_database-append id dbs db f.1,
  text_eq_iff x.id id,
  text_eq_iff db.id id,
  text_eq_iff x.id db.id,
)

find_database-keep_if :
    (id gone : Bytes) (dbs : List DatabaseConfig)
    → find_database id (keep_if (λ db. not (text_eq db.id gone)) dbs)
      ≡ (if text_eq gone id then none else find_database id dbs)
unfolding find_database keep_if
find_database-keep_if id gone [] = ground arith
find_database-keep_if id gone (x ∷ dbs) = ground (
  arith,
  find_database-keep_if id gone dbs,
  text_eq_iff x.id id,
  text_eq_iff gone id,
  text_eq_iff x.id gone,
)

keep_if-Fresh :
    (id : Bytes) (dbs : List DatabaseConfig)
    → Fresh id dbs
    → keep_if (λ db. not (text_eq db.id id)) dbs ≡ dbs
unfolding keep_if
keep_if-Fresh id [] f = refl
keep_if-Fresh id (x ∷ dbs) f = ground (arith, keep_if-Fresh id dbs f.1)

keep_if-append-Fresh :
    (dbs : List DatabaseConfig) (db : DatabaseConfig)
    → Fresh db.id dbs
    → (keep_if (λ x. not (text_eq x.id db.id)) (dbs ++ (db ∷ [])) ≡ dbs)
      × (any_of (λ x. text_eq x.id db.id) (dbs ++ (db ∷ [])) ≡ true)
unfolding keep_if any_of
keep_if-append-Fresh [] db f = ground (arith, text_eq_refl db.id)
keep_if-append-Fresh (x ∷ dbs) db f = ground (arith, keep_if-append-Fresh dbs db f.1)

module _ (url_parse : Bytes → Result Bytes Url) where
  -- What an accepted `add` appends, and that its id was free.
  pub added_new :
      (f : AddFlags) (c : Config) {c' : Config}
      → added url_parse f c ≡ ok c'
      → (d : ParsedDsn) × (c'
          ≡ record c { databases = c.databases ++ (new_database url_parse f d ∷ []) })
        × Fresh f.id c.databases
  unfolding added
  added_new f c {c'} h =
      let (free, rest) =
        fail_if->>-eq-ok (elim (find_database f.id c.databases) [ none ↦ false | some db ↦ true ])
          (duplicate_id f.id) (connection url_parse f >>= with_new) h in
      let (d, got, same) = >>=-eq-ok (connection url_parse f) with_new rest in
      (d, cc, find_database-Fresh f.id c.databases (ground arith))
    where
      with_new : ParsedDsn → Result DbError Config
      with_new d = ok (record c { databases = c.databases ++ (new_database url_parse f d ∷ []) })

  -- Where the ids were distinct, an added database leaves them distinct; the new id gives a
  -- database with the type, the container and the DSN of the flags, and every other id gives what
  -- it gave.
  pub added-Distinct :
      (f : AddFlags) (c : Config) (id : Bytes) {c' : Config}
      → Distinct c.databases
      → added url_parse f c ≡ ok c'
      → Distinct c'.databases
        × (d : ParsedDsn) × (find_database id c'.databases ≡ (
            if text_eq f.id id
            then some (new_database url_parse f d)
            else find_database id c.databases))
  added-Distinct f c id distinct h =
      let (d, same, fresh) = added_new f c h in
      rw same (
        Distinct-append c.databases (new_database url_parse f d) distinct fresh,
        d,
        find_database-append id c.databases (new_database url_parse f d) fresh,
      )

  -- `db remove` of the id that was just added gives the configuration from before.
  pub removed-added :
      (f : AddFlags) (c : Config) {c' : Config}
      → added url_parse f c ≡ ok c'
      → removed f.id c' ≡ ok c
  unfolding removed
  removed-added f c h =
      let (d, same, fresh) = added_new f c h in
      let (kept, found) = keep_if-append-Fresh c.databases (new_database url_parse f d) fresh in
      rw (same, found, kept) refl

-- Where the ids were distinct, a removed id names no database any more; every other id gives what
-- it gave, and the ids stay distinct.
pub removed-Distinct :
    (gone id : Bytes) (c : Config) {c' : Config}
    → Distinct c.databases
    → removed gone c ≡ ok c'
    → Distinct c'.databases
      × (find_database id c'.databases
          ≡ (if text_eq gone id then none else find_database id c.databases))
unfolding removed
removed-Distinct gone id c d h =
    let kept = Distinct-keep_if (λ db. not (text_eq db.id gone)) c.databases d in
    let found = find_database-keep_if id gone c.databases in ground arith
