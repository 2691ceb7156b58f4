-- ===== src/Discovery/Merged.antt =====
-- What `mergeUniqueDatabases` keeps.
use marmot_cli.Common.{
  ◌≡◌, refl, ap, true, false, Bool-cases, inl, inr, List, [], ◌∷◌, ◌++◌, arith, Bytes, text_eq_refl,
  any_of, All,
}
use marmot_cli.Discovery.{
  DatabaseInfo, discovery_key, is_seen, add_unique, keys_of, merge_unique_databases,
}

-- No key is among the ones that are seen, or there twice.
abbrev pub AreNew : List Bytes → List DatabaseInfo → Type 0
AreNew seen [] = Unit
AreNew seen (db ∷ dbs) = (is_seen seen db ≡ false) × AreNew (discovery_key db ∷ seen) dbs

pub add_unique-AreNew :
    (seen : List Bytes) (incoming : List DatabaseInfo) → AreNew seen (add_unique seen incoming)
unfolding add_unique
add_unique-AreNew seen [] = tt
add_unique-AreNew seen (db ∷ incoming) = elim (Bool-cases (is_seen seen db)) [
  | inl e ↦ rw e (add_unique-AreNew seen incoming)
  | inr e ↦ rw e (e, add_unique-AreNew (discovery_key db ∷ seen) incoming)
]

-- Each of the databases has a key among the given ones.
abbrev pub AreSeen : List Bytes → List DatabaseInfo → Type 0
AreSeen keys dbs = All (λ db. is_seen keys db ≡ true) dbs

is_seen-append :
    (a b : List Bytes) (db : DatabaseInfo) → is_seen a db ≡ true → is_seen (a ++ b) db ≡ true
unfolding any_of
is_seen-append [] b db h = cc
is_seen-append (k ∷ a) b db h = ground (arith, is_seen-append a b db)

is_seen_self : (seen : List Bytes) (db : DatabaseInfo) → is_seen (discovery_key db ∷ seen) db ≡ true
unfolding any_of
is_seen_self seen db = ground (arith, text_eq_refl (discovery_key db))

is_seen-middle :
    (key : Bytes) (a b : List Bytes) (db : DatabaseInfo)
    → is_seen (key ∷ (a ++ b)) db ≡ true
    → is_seen (a ++ key ∷ b) db ≡ true
unfolding any_of
is_seen-middle key [] b db h = h
is_seen-middle key (k ∷ a) b db h = ground (arith, is_seen-middle key a b db)

-- A list of keys that has each key of another one.
Covers : List Bytes → List Bytes → Type 0
Covers more keys = (db : DatabaseInfo) → is_seen keys db ≡ true → is_seen more db ≡ true

add_unique-AreSeen :
    (all seen : List Bytes) (incoming : List DatabaseInfo)
    → Covers all (seen ++ keys_of (add_unique seen incoming))
    → AreSeen all incoming
unfolding add_unique Covers keys_of
add_unique-AreSeen all seen [] h = tt
add_unique-AreSeen all seen (db ∷ incoming) h = elim (Bool-cases (is_seen seen db)) [
  | inl e ↦
      let covers = rw e at h in
      (
        covers db (is_seen-append seen (keys_of (add_unique seen incoming)) db e),
        add_unique-AreSeen all seen incoming covers,
      )
  | inr e ↦
      let key = discovery_key db in
      let rest = keys_of (add_unique (key ∷ seen) incoming) in
      let covers : Covers all (seen ++ key ∷ rest) = rw e at h in
      (
        covers db (
            is_seen-middle key seen rest db
              (is_seen-append (key ∷ seen) rest db (is_seen_self seen db))),
        add_unique-AreSeen all (key ∷ seen) incoming
            (λ d there. covers d (is_seen-middle key seen rest d there)),
      )
]

keys_of-append : (a b : List DatabaseInfo) → keys_of (a ++ b) ≡ keys_of a ++ keys_of b
unfolding keys_of
keys_of-append [] b = refl
keys_of-append (db ∷ a) b = ap (◌∷◌ (discovery_key db)) (keys_of-append a b)

-- The databases that are there stay in front; behind them come only databases whose key is neither there nor
-- comes twice; and every database that comes in has its key in the result.
pub merge_unique_databases_lem :
    (existing incoming : List DatabaseInfo)
    → (added : List DatabaseInfo) × (merge_unique_databases existing incoming ≡ existing ++ added)
      × AreNew (keys_of existing) added
      × AreSeen (keys_of (merge_unique_databases existing incoming)) incoming
unfolding merge_unique_databases Covers
merge_unique_databases_lem existing incoming =
    let added = add_unique (keys_of existing) incoming in
    (
      added,
      refl,
      add_unique-AreNew (keys_of existing) incoming,
      rw (keys_of-append existing added) (
          add_unique-AreSeen (keys_of existing ++ keys_of added) (keys_of existing) incoming
            (λ db h. h)),
    )
