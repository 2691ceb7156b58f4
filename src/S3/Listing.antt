-- ===== src/S3/Listing.antt =====
-- What `ListBackups` returns.
use marmot_cli.Common.{
  ℕ, ◌≤◌, ◌≡◌, refl, false, List, [], ◌∷◌, arith, Bytes, Result, ok, err, text_eq_iff, is_empty,
  subst, length, All, if◌then◌else◌, ◌==◌,
}
use marmot_cli.S3.Settings.{S3Provider}
use marmot_cli.S3.Key.Pattern.{extract_metadata_from_key-none}
use marmot_cli.S3.Client.{
  S3Client, S3Object, BackupMetadata, metadata_of, collect, list_result, list_backups,
}

module _ (c : S3Client) (p : S3Provider) where
  metadata_of_unnamed : (o : S3Object) → (metadata_of c p o).database_name ≡ []
  unfolding metadata_of
  metadata_of_unnamed o = ground (arith, extract_metadata_from_key-none o.key)

  metadata_of_own : (o : S3Object) → (metadata_of c p o).server_id ≡ p.server_id
  unfolding metadata_of
  metadata_of_own o = ground (arith, extract_metadata_from_key-none o.key)

  collect_named :
      (name : Bytes) (os : List S3Object) → is_empty name ≡ false → collect c p name os ≡ []
  unfolding collect is_empty
  collect_named name [] h = refl
  collect_named name (o ∷ os) h =
      ground (arith, collect_named name os h, metadata_of_unnamed o, text_eq_iff [] name)

  collect_anonymous :
      (os : List S3Object)
      → All (λ b. (b.database_name ≡ []) × (b.server_id ≡ p.server_id)) (collect c p [] os)
        × (length (collect c p [] os) ≡ length os)
  unfolding collect is_empty
  collect_anonymous [] = (tt, refl)
  collect_anonymous (o ∷ os) =
      let (each, all) = collect_anonymous os in
      (((metadata_of_unnamed o, metadata_of_own o), each), omega (arith, all))

  list_result_named :
      (name : Bytes) (r : Result Bytes (List S3Object)) {bs : List BackupMetadata}
      → is_empty name ≡ false
      → list_result c p name r ≡ ok bs
      → bs ≡ []
  unfolding list_result
  list_result_named name (err e) h k = cc
  list_result_named name (ok os) h k = ground (arith, collect_named name os h)

  list_result-All :
      (max : ℕ) (r : Result Bytes (List S3Object)) {bs : List BackupMetadata}
      → ((os : List S3Object) → r ≡ ok os → length os ≤ max)
      → list_result c p [] r ≡ ok bs
      → All (λ b. (b.database_name ≡ []) × (b.server_id ≡ p.server_id)) bs × (length bs ≤ max)
  unfolding list_result
  list_result-All max (err e) h k = cc
  list_result-All max (ok os) {bs} h k =
      let same : collect c p [] os ≡ bs = cc in
      let (each, all) = collect_anonymous os in
      subst
        (λ xs.
          All (λ b. (b.database_name ≡ []) × (b.server_id ≡ p.server_id)) xs × (length xs ≤ max))
        same (each, omega (arith, all, h os refl))

  -- Where `ListBackups` for a database succeeds it returns no backup, whatever the bucket holds: no
  -- key is read, so no object has the name that is asked for.
  pub list_backups_named :
      (name : Bytes) (limit : ℕ) (s : c.State) {bs : List BackupMetadata}
      → is_empty name ≡ false
      → list_backups c p name limit s ≡ ok bs
      → bs ≡ []
  unfolding list_backups
  list_backups_named name limit s h e = list_result_named name _ h e

  -- Each backup that `ListBackups` returns without a database has no database name and is this
  -- server's; they are at most as many as the limit, or a hundred where none is given.
  pub list_backups-All :
      (limit : ℕ) (s : c.State) {bs : List BackupMetadata}
      → list_backups c p [] limit s ≡ ok bs
      → All (λ b. (b.database_name ≡ []) × (b.server_id ≡ p.server_id)) bs
        × (length bs ≤ (if limit == 0 then 100 else limit))
  unfolding list_backups
  list_backups-All limit s e =
      list_result-All _ _ (λ os bounded. c.list_bounded p.bucket _ _ s bounded) e
