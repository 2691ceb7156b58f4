-- ===== src/Config/Validity.antt =====
-- What `Config.Validate` accepts.
use marmot_cli.Common.{
  ℕ, suc, ◌≡◌, ◌⊎◌, ◌↔◌, refl, false, List, [], ◌∷◌, arith, text_eq_iff, is_empty, Result, ok, err,
  All,
}
use marmot_cli.S3.Settings.{IsComplete, validate_iff}
use marmot_cli.S3.Settings
use marmot_cli.Config.{
  Config, DatabaseConfig, Invalid, local_storage, s3_storage, mysql, postgres, mongo,
  validate_database, first_error, validate_databases, validate_s3_config, then_databases, validate,
}

-- A database that can be backed up: it has an id, a type that is known and a container or a DSN.
pub record IsUsable (db : DatabaseConfig) : Type 0 where
  pub has_id : is_empty db.id ≡ false
  pub has_type : (db.type ≡ mysql) ⊎ ((db.type ≡ postgres) ⊎ (db.type ≡ mongo))
  pub has_target : (is_empty db.container_id ≡ false) ⊎ (is_empty db.dsn ≡ false)

pub validate_database-IsUsable :
    (i : ℕ) (db : DatabaseConfig) → (validate_database i db ≡ ok tt) ↔ IsUsable db
unfolding validate_database
validate_database-IsUsable i db = (
  λ h.
      ground
        (arith, text_eq_iff db.type mysql, text_eq_iff db.type postgres, text_eq_iff db.type mongo),
  λ h.
      ground
        (arith, text_eq_iff db.type mysql, text_eq_iff db.type postgres, text_eq_iff db.type mongo),
)

first_error_ok :
    (r rest : Result Invalid (Unit {0}))
    → (first_error r rest ≡ ok tt) ↔ ((r ≡ ok tt) × (rest ≡ ok tt))
unfolding first_error
first_error_ok (err e) rest = (λ h. cc, λ h. cc)
first_error_ok (ok done) rest = (λ h. (refl, h), λ h. h.1)

validate_databases-All :
    (i : ℕ) (dbs : List DatabaseConfig) → (validate_databases i dbs ≡ ok tt) ↔ All IsUsable dbs
unfolding validate_databases
validate_databases-All i [] = (λ h. tt, λ h. refl)
validate_databases-All i (db ∷ dbs) =
    let split = first_error_ok (validate_database i db) (validate_databases (suc i) dbs) in
    let one = validate_database-IsUsable i db in
    let all = validate_databases-All (suc i) dbs in
    (λ h. (one.0 (split.0 h).0, all.0 (split.0 h).1), λ h. split.1 (one.1 h.0, all.1 h.1))

-- A usable configuration: local storage, or S3 storage that is complete; and usable databases.
pub record IsUsableConfig (c : Config) : Type 0 where
  pub storage : (c.storage_type ≡ local_storage) ⊎ ((c.storage_type ≡ s3_storage) × IsComplete c.s3)
  pub all_usable : All IsUsable c.databases

then_databases_ok :
    (c : Config) (r : Result Invalid (Unit {0}))
    → ((then_databases (c, r)).1 ≡ ok tt) ↔ ((r ≡ ok tt) × All IsUsable c.databases)
unfolding then_databases
then_databases_ok c (err e) = (λ h. cc, λ h. cc)
then_databases_ok c (ok done) =
    let all = validate_databases-All 0 c.databases in (λ h. (refl, all.0 h), λ h. all.1 h.1)

s3_ok : (c : Config) → ((validate_s3_config c).1 ≡ ok tt) ↔ ((Settings.validate c.s3).1 ≡ ok tt)
unfolding validate_s3_config
s3_ok c = (λ h. ground arith, λ h. ground arith)

s3_databases : (c : Config) → (validate_s3_config c).0.databases ≡ c.databases
unfolding validate_s3_config
s3_databases c = refl

then_databases_s3 :
    (c : Config)
    → ((then_databases (validate_s3_config c)).1 ≡ ok tt)
      ↔ (IsComplete c.s3 × All IsUsable c.databases)
then_databases_s3 c =
    let all = then_databases_ok (validate_s3_config c).0 (validate_s3_config c).1 in
    let s3 = s3_ok c in
    let complete = validate_iff c.s3 in
    (
      λ h. let (fine, dbs) = all.0 h in (complete.0 (s3.0 fine), rw s3_databases at dbs),
      λ (fine, dbs). all.1 (s3.1 (complete.1 fine), rw s3_databases dbs),
    )

-- `Config.Validate` accepts exactly the usable configurations: local storage, or S3 storage whose
-- settings are complete; and every database with an id, one of the three types, and a container or a
-- connection string.
pub validate-IsUsableConfig : (c : Config) → ((validate c).1 ≡ ok tt) ↔ IsUsableConfig c
unfolding validate
validate-IsUsableConfig c =
    let here = then_databases_ok c (ok tt) in
    let there = then_databases_s3 c in
    (
      λ h.
          ground (
            arith,
            text_eq_iff c.storage_type local_storage,
            text_eq_iff c.storage_type s3_storage,
          ),
      λ u.
          ground (
            arith,
            text_eq_iff c.storage_type local_storage,
            text_eq_iff c.storage_type s3_storage,
          ),
    )
