-- ===== src/Init/Chosen.antt =====
-- Which of the databases that are taken from a discovery can be backed up.
use marmot_cli.Common.{
  ℕ, ◌≡◌, ◌↔◌, ◌⊎◌, inl, inr, refl, false, Bool-cases, Option-cases, subst, List, [], ◌∷◌, ◌++◌,
  Option, some, Bytes, codes, is_empty, All,
}
use marmot_cli.Config.{DatabaseConfig, mysql, postgres, mongo}
use marmot_cli.Config.Validity.{IsUsable}
use marmot_cli.Discovery.{DatabaseInfo, build_discovered_id}
use marmot_cli.Init.{config_of, build_db_config_from_discovery, with_config, select_databases}
use marmot_cli.Init.Prompts.{Stdin, prompt, confirm}

-- A database of one of the three types.
abbrev pub IsKnown : DatabaseInfo → Type 0
IsKnown db = (db.type ≡ mysql) ⊎ ((db.type ≡ postgres) ⊎ (db.type ≡ mongo))

append-is_empty : (a b : Bytes) (c : ℕ) → is_empty (a ++ (c ∷ b)) ≡ false
unfolding is_empty
append-is_empty [] b c = refl
append-is_empty (x ∷ a) b c = refl

cons-is_empty : (c : ℕ) (s : Bytes) → is_empty (c ∷ s) ≡ false
unfolding is_empty
cons-is_empty c s = refl

build_discovered_id-named : (db : DatabaseInfo) → is_empty (build_discovered_id db) ≡ false
unfolding build_discovered_id
build_discovered_id-named db = elim (Bool-cases (is_empty db.container_id)) [
  | inl e ↦ rw e (cons-is_empty b'l' _)
  | inr e ↦ rw e (append-is_empty _ db.database b'-')
]

-- What the user takes has the type and the container of the database that was found, and no connection string.
config_of_lem :
    (db : DatabaseInfo) (schedule : Bytes) (stdin : Stdin)
    → let c = (config_of db schedule stdin).0 in
      (c.id ≡ build_discovered_id db)
      × (c.type ≡ db.type)
      × (c.container_id ≡ db.container_id)
      × (c.dsn ≡ [])
unfolding config_of
config_of_lem db schedule stdin = elim (Bool-cases (is_empty db.container_id)) [
  | inl e ↦ rw e (refl, refl, refl, refl)
  | inr e ↦ rw e (refl, refl, refl, refl)
]

-- A database that was found is usable, once it is taken, exactly if it is in a container.
config_of-IsUsable :
    (db : DatabaseInfo) (schedule : Bytes) (stdin : Stdin)
    → IsKnown db
    → IsUsable (config_of db schedule stdin).0 ↔ (is_empty db.container_id ≡ false)
unfolding is_empty
config_of-IsUsable db schedule stdin known =
    let (id, type, container, dsn) = config_of_lem db schedule stdin in
    (
      λ u. elim u.has_target [
        | inl there ↦ rw container at there
        | inr string ↦ absurd (cc (rw dsn at string))
      ],
      λ there. record {
        has_id = rw id (build_discovered_id-named db);
        has_type = rw type known;
        has_target = inl (rw container there);
      },
    )

built-IsUsable :
    (db : DatabaseInfo) (stdin : Stdin) {c : DatabaseConfig}
    → IsKnown db
    → (build_db_config_from_discovery db stdin).0 ≡ some c
    → IsUsable c ↔ (is_empty c.container_id ≡ false)
unfolding build_db_config_from_discovery
built-IsUsable db stdin {c} known h =
    let (wanted, s1) = confirm stdin in
    let (schedule, s2) = prompt (codes "0 2 * * *") s1 in
    elim (Bool-cases wanted) [
      | inr e ↦ absurd (cc (rw e at h))
      | inl e ↦
          let got : Path (Option DatabaseConfig) (some (config_of db schedule s2).0) (some c) =
            rw e at h in
          let same : (config_of db schedule s2).0 ≡ c = cc in
          let (id, type, container, dsn) = config_of_lem db schedule s2 in
          subst (λ k. IsUsable k ↔ (is_empty k.container_id ≡ false)) same
            (rw container (config_of-IsUsable db schedule s2 known))
    ]

-- All of the databases that are taken are usable exactly if each of them is in a container.
pub select_databases-All :
    (found : List DatabaseInfo) (stdin : Stdin)
    → All IsKnown found
    → All (λ c. IsUsable c ↔ (is_empty c.container_id ≡ false)) (select_databases found stdin).0
unfolding select_databases with_config
select_databases-All [] stdin known = tt
select_databases-All (db ∷ found) stdin (first, others) =
    let (c, s1) = build_db_config_from_discovery db stdin in
    elim (Option-cases c) [
      | inl e ↦ rw e (select_databases-All found s1 others)
      | inr (k, e) ↦ rw e (built-IsUsable db stdin first e, select_databases-All found s1 others)
    ]
