-- ===== src/Discovery/Docker/Found.antt =====
-- What is found in the containers.
use marmot_cli.Common.{
  ℕ, ◌≡◌, ◌⊎◌, inl, inr, refl, false, List, [], ◌∷◌, ◌++◌, some, arith, Bytes, codes, text_eq,
  text_eq_iff, is_empty, contains, to_lower, decimal_value, All, Option-cases, Bool-cases, ltb,
  subst, sym,
}
use marmot_cli.Config.{mysql, postgres, mongo}
use marmot_cli.PidFile.{natural, are_digits}
use marmot_cli.Discovery.{DatabaseInfo, default_port_for_type}
use marmot_cli.Discovery.Docker.{
  Container, Inspect, Environment, Ports, value, get_port, port_name, first_of, detect_mongo_db,
  detect_my_sql, detect_postgre_sql, detect, inspect_container, with_found, discover,
  environment_of, container_name,
}

-- The bindings of a port are not read: the port is the default one, or its number again.
get_port-default :
    (ports : Ports) (default : ℕ) (text : Bytes)
    → natural text ≡ some default
    → get_port ports default text ≡ default
unfolding get_port
get_port-default [] default text h = refl
get_port-default ((p, bindings) ∷ ports) default text h =
    let rest = get_port-default ports default text h in
    elim (Bool-cases (text_eq (port_name p) text)) [
      | inr e ↦ rw e rest
      | inl e ↦
          let number : natural (port_name p) ≡ some default =
            subst (λ t. natural t ≡ some default) (sym ((text_eq_iff (port_name p) text).0 e)) h in
          elim (Bool-cases (ltb 0 bindings)) [
            | inr free ↦ rw (e, free) rest
            | inl bound ↦ rw (e, bound, number) refl
          ]
    ]

-- A database of one of the three types at its default port, with a name and a user.
pub record IsFound (db : DatabaseInfo) : Type 0 where
  pub known : (db.type ≡ mysql) ⊎ ((db.type ≡ postgres) ⊎ (db.type ≡ mongo))
  pub host : db.host ≡ codes "localhost"
  pub port : db.port ≡ default_port_for_type db.type
  pub named : is_empty db.database ≡ false
  pub user : is_empty db.user ≡ false

mongo_port : natural (codes "27017") ≡ some 27017
unfolding natural are_digits decimal_value
mongo_port = refl

mysql_port : natural (codes "3306") ≡ some 3306
unfolding natural are_digits decimal_value
mysql_port = refl

postgres_port : natural (codes "5432") ≡ some 5432
unfolding natural are_digits decimal_value
postgres_port = refl

admin_named : is_empty (codes "admin") ≡ false
unfolding is_empty
admin_named = refl

root_named : is_empty (codes "root") ≡ false
unfolding is_empty
root_named = refl

mysql_named : is_empty (codes "mysql") ≡ false
unfolding is_empty
mysql_named = refl

postgres_named : is_empty (codes "postgres") ≡ false
unfolding is_empty
postgres_named = refl

-- The last of the texts has bytes.
first_of-named :
    (texts : List Bytes) (last : Bytes)
    → is_empty last ≡ false
    → is_empty (first_of (texts ++ last ∷ [])) ≡ false
unfolding first_of
first_of-named [] last h = h
first_of-named (a ∷ []) last h = ground arith
first_of-named (a ∷ b ∷ texts) last h = ground (arith, first_of-named (b ∷ texts) last h)

module _ (id name : Bytes) (env : Environment) (ports : Ports) where
  detect_mongo_db-IsFound : IsFound (detect_mongo_db id name env ports)
  unfolding detect_mongo_db text_eq
  detect_mongo_db-IsFound = record {
    known = inr (inr refl);
    host = refl;
    port = get_port-default ports 27017 (codes "27017") mongo_port;
    named =
        first_of-named
          (value (codes "MONGO_INITDB_DATABASE") env ∷ value (codes "MONGODB_DATABASE") env ∷ [])
          (codes "admin") admin_named;
    user =
        first_of-named
          (value (codes "MONGO_INITDB_ROOT_USERNAME") env
            ∷ value (codes "MONGODB_USERNAME") env
            ∷ value (codes "MONGO_USERNAME") env
            ∷ [])
          (codes "root") root_named;
  }

  detect_my_sql-IsFound : IsFound (detect_my_sql id name env ports)
  unfolding detect_my_sql text_eq
  detect_my_sql-IsFound = record {
    known = inl refl;
    host = refl;
    port = get_port-default ports 3306 (codes "3306") mysql_port;
    named = first_of-named (value (codes "MYSQL_DATABASE") env ∷ []) (codes "mysql") mysql_named;
    user = first_of-named (value (codes "MYSQL_USER") env ∷ []) (codes "root") root_named;
  }

  detect_postgre_sql-IsFound : IsFound (detect_postgre_sql id name env ports)
  unfolding detect_postgre_sql text_eq
  detect_postgre_sql-IsFound = record {
    known = inr (inl refl);
    host = refl;
    port = get_port-default ports 5432 (codes "5432") postgres_port;
    named =
        first_of-named (value (codes "POSTGRES_DB") env ∷ value (codes "POSTGRES_USER") env ∷ [])
          (codes "postgres") postgres_named;
    user =
        first_of-named (value (codes "POSTGRES_USER") env ∷ []) (codes "postgres") postgres_named;
  }

found_here {ℓ} : {A : Type ℓ} {a b : A} → some a ≡ some b → a ≡ b
found_here h = cc

detect-IsFound :
    (id name : Bytes) (i : Inspect) {db : DatabaseInfo} → detect id name i ≡ some db → IsFound db
unfolding detect
detect-IsFound id name i {db} h =
    let env = environment_of i.env in
    let image = to_lower i.image in
    elim (Bool-cases (contains mongo image)) [
      | inl m ↦ subst IsFound (found_here (rw m at h)) (detect_mongo_db-IsFound id name env i.ports)
      | inr m ↦ elim (Bool-cases (contains postgres image)) [
        | inl p ↦
            subst IsFound (found_here (rw (m, p) at h))
              (detect_postgre_sql-IsFound id name env i.ports)
        | inr p ↦ elim (Bool-cases (contains mysql image)) [
          | inl s ↦
              subst IsFound (found_here (rw (m, p, s) at h))
                (detect_my_sql-IsFound id name env i.ports)
          | inr s ↦ absurd (cc (rw (m, p, s) at h))
        ]
      ]
    ]

inspect_container-IsFound :
    (c : Container) {db : DatabaseInfo} → inspect_container c ≡ some db → IsFound db
unfolding inspect_container
inspect_container-IsFound c h = elim (Option-cases c.inspect) [
  | inl e ↦ absurd (cc (rw e at h))
  | inr (i, e) ↦ detect-IsFound c.id (container_name c.names) i (rw e at h)
]

-- Every database that is found in a container is of one of the three types, at `localhost` and the type's own
-- port, whatever port of the host is bound to it, and has a name and a user.
pub discover-IsFound : (cs : List Container) → All IsFound (discover cs)
unfolding discover
discover-IsFound [] = tt
discover-IsFound (c ∷ cs) = elim (Option-cases (inspect_container c)) [
  | inl e ↦ rw (e, with_found) (discover-IsFound cs)
  | inr (db, e) ↦ rw (e, with_found) (inspect_container-IsFound c e, discover-IsFound cs)
]
