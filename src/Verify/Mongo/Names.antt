-- ===== src/Verify/Mongo/Names.antt =====
-- The names of the collections that a scan lists.
use marmot_cli.Common.{
  suc, ◌+◌, ◌≤◌, ◌≡◌, refl, ap, true, false, List, [], ◌∷◌, ◌++◌, some, arith, Bytes, text_eq,
  text_eq_iff, ◌∙◌, length,
}
use marmot_cli.Verify.Report.{CollectionInfo, counted}
use marmot_cli.Verify.Mongo.{has_collection, count_named, last_name, count_last}

abbrev pub names : List CollectionInfo → List Bytes
names [] = []
names (c ∷ cs) = c.name ∷ names cs

-- No name is there twice.
abbrev pub IsDistinct : List CollectionInfo → Type 0
IsDistinct [] = Unit
IsDistinct (c ∷ cs) = (has_collection c.name cs ≡ false) × IsDistinct cs

pub names-append : (cs ds : List CollectionInfo) → names (cs ++ ds) ≡ names cs ++ names ds
names-append [] ds = refl
names-append (c ∷ cs) ds = ap (◌∷◌ c.name) (names-append cs ds)

pub names-count_named : (n : Bytes) (cs : List CollectionInfo) → names (count_named n cs) ≡ names cs
unfolding count_named
names-count_named n [] = refl
names-count_named n (c ∷ cs) = ground (arith, names-count_named n cs)

pub names-count_last : (cs : List CollectionInfo) → names (count_last cs) ≡ names cs
unfolding count_last
names-count_last [] = refl
names-count_last (c ∷ []) = refl
names-count_last (c ∷ d ∷ cs) = ap (◌∷◌ c.name) (names-count_last (d ∷ cs))

pub length-count_last : (cs : List CollectionInfo) → length (count_last cs) ≡ length cs
unfolding count_last
length-count_last [] = refl
length-count_last (c ∷ []) = refl
length-count_last (c ∷ d ∷ cs) = ap suc (length-count_last (d ∷ cs))

pub counted-append : (cs ds : List CollectionInfo) → counted (cs ++ ds) ≡ counted cs + counted ds
counted-append [] ds = omega arith
counted-append (c ∷ cs) ds = omega (arith, counted-append cs ds)

pub counted-count_last : (cs : List CollectionInfo) → counted (count_last cs) ≤ counted cs + 1
unfolding count_last
counted-count_last [] = omega arith
counted-count_last (c ∷ []) = omega arith
counted-count_last (c ∷ d ∷ cs) = omega (arith, counted-count_last (d ∷ cs))

-- Whether a collection is there depends on the names only.
pub has_collection-names :
    (n : Bytes) (cs ds : List CollectionInfo)
    → names cs ≡ names ds
    → has_collection n cs ≡ has_collection n ds
unfolding has_collection
has_collection-names n [] [] h = refl
has_collection-names n [] (d ∷ ds) h = cc
has_collection-names n (c ∷ cs) [] h = cc
has_collection-names n (c ∷ cs) (d ∷ ds) h =
    let heads : c.name ≡ d.name = cc in
    let tails : names cs ≡ names ds = cc in rw (heads, has_collection-names n cs ds tails)

pub has_collection-last_name :
    (n : Bytes) (cs : List CollectionInfo) → last_name cs ≡ some n → has_collection n cs ≡ true
unfolding has_collection last_name
has_collection-last_name n [] h = cc
has_collection-last_name n (c ∷ []) h = ground (arith, text_eq_iff c.name n)
has_collection-last_name n (c ∷ d ∷ cs) h = ground (arith, has_collection-last_name n (d ∷ cs))

pub IsDistinct-names :
    (cs ds : List CollectionInfo) → names cs ≡ names ds → IsDistinct cs → IsDistinct ds
IsDistinct-names [] [] e h = tt
IsDistinct-names [] (d ∷ ds) e h = absurd (cc)
IsDistinct-names (c ∷ cs) [] e h = tt
IsDistinct-names (c ∷ cs) (d ∷ ds) e (new, others) =
    let heads : c.name ≡ d.name = cc in
    let tails : names cs ≡ names ds = cc in
    let same = has_collection-names d.name cs ds tails in (cc, IsDistinct-names cs ds tails others)

has_collection-append :
    (n : Bytes) (cs ds : List CollectionInfo)
    → has_collection n cs ≡ false
    → has_collection n (cs ++ ds) ≡ has_collection n ds
unfolding has_collection
has_collection-append n [] ds h = refl
has_collection-append n (c ∷ cs) ds h = ground (arith, has_collection-append n cs ds)

has_collection-other :
    (c d : CollectionInfo) → text_eq d.name c.name ≡ false → has_collection d.name (c ∷ []) ≡ false
unfolding has_collection
has_collection-other c d h = ground (arith, text_eq_iff c.name d.name, text_eq_iff d.name c.name)

pub IsDistinct-append :
    (c : CollectionInfo) (cs : List CollectionInfo)
    → IsDistinct cs
    → has_collection c.name cs ≡ false
    → IsDistinct (cs ++ c ∷ [])
unfolding has_collection
IsDistinct-append c [] h new = (refl, tt)
IsDistinct-append c (d ∷ cs) (first, others) new =
    let differs : text_eq d.name c.name ≡ false = ground arith in
    let absent : has_collection c.name cs ≡ false = ground arith in
    (
      has_collection-append d.name cs (c ∷ []) first ∙ has_collection-other c d differs,
      IsDistinct-append c cs others absent,
    )
