-- ===== src/S3/Client.antt =====
-- The methods of `S3Provider` in internal/s3/s3.go. The AWS client is an interface: it keeps a state,
-- a request may fail with a message, and the laws say what S3 documents: a read that succeeds after a
-- write that succeeded gives the object written, and a listing holds at most as many objects as were
-- asked for.
use marmot_cli.Common.{
  ℕ, ◌≤◌, ◌≡◌, refl, not, ◌&&◌, List, [], ◌∷◌, ◌++◌, Option, none, some, Bytes, codes, Result, ok,
  err, text_eq, is_empty, length, if◌then◌else◌, ℤ, pos, ◌==◌,
}
use marmot_cli.Streams.{Writer, write, fresh}
use marmot_cli.S3.Settings.{S3Provider}
use marmot_cli.S3.Key.{
  Stamp, slash, KeyMetadata, generate_object_key, extract_metadata_from_key, parse_backup_id,
  backup_id,
}

pub record S3Object : Type 0 where
  pub key : Bytes
  pub size : ℕ
  pub last_modified : ℕ
  pub etag : Bytes

pub record S3Client : Type 1 where
  pub State : Type 0
  pub put_object : Bytes → Bytes → Bytes → State → State × Option Bytes
  pub get_object : Bytes → Bytes → State → Result Bytes Bytes
  pub list_objects : Bytes → Bytes → ℕ → State → Result Bytes (List S3Object)
  pub delete_object : Bytes → Bytes → State → State × Option Bytes
  pub head_bucket : Bytes → State → Option Bytes
  pub head_object : Bytes → Bytes → State → Result Bytes S3Object
  pub get-put :
      (bucket key body : Bytes) (s : State) {got : Bytes}
      → (put_object bucket key body s).1 ≡ none
      → get_object bucket key (put_object bucket key body s).0 ≡ ok got
      → got ≡ body
  pub list_bounded :
      (bucket prefix : Bytes) (max : ℕ) (s : State) {objects : List S3Object}
      → list_objects bucket prefix max s ≡ ok objects
      → length objects ≤ max

pub data S3Error : Type 0 where
  server_id_required invalid_backup_id : S3Error
  upload_failed download_failed list_failed delete_failed health_failed head_failed :
      Bytes → S3Error
  write_failed : Bytes → S3Error

pub record BackupMetadata : Type 0 where
  pub backup_id : Bytes
  pub server_id : Bytes
  pub database_name : Bytes
  pub size : ℤ
  pub created_at : ℕ
  pub retention_tier : Bytes
  pub storage_location : Bytes

abbrev pub standard : Bytes
standard = codes "standard"

-- `io.Copy` of a body that was fetched is one write of it.
unfoldable pub deliver : Writer → Result Bytes Bytes → Writer × Result S3Error (Unit {0})
deliver w (err e) = (w, err (download_failed e))
deliver w (ok body) =
    let (w', r) = write w body in (w', elim r [ ok _ ↦ ok tt | err e ↦ err (write_failed e) ])

-- A copy into an empty file delivers what was fetched.
pub deliver-fresh :
    (r : Result Bytes Bytes)
    → (deliver fresh r).1 ≡ ok tt
    → (got : Bytes) × (r ≡ ok got) × ((deliver fresh r).0.written ≡ got)
unfolding deliver write
deliver-fresh (err e) h = cc
deliver-fresh (ok body) h = (body, refl, refl)

module _ (c : S3Client) (p : S3Provider) where
  put : Bytes → Bytes → Bytes → Stamp → c.State → c.State × Result S3Error BackupMetadata
  put server_id database_name body t s =
      let key = generate_object_key p.prefix server_id database_name t in
      let id = backup_id p.bucket key in
      let (s', fault) = c.put_object p.bucket key body s in
      (
        s',
        elim fault [
          | some e ↦ err (upload_failed e)
          | none ↦ ok (record {
            backup_id = id;
            server_id = server_id;
            database_name = database_name;
            size = pos (length body);
            created_at = t.unix;
            retention_tier = standard;
            storage_location = id;
          })
        ],
      )

  -- The body is an opened file, which can seek: `size` is what is left of it.
  unfoldable pub upload :
      Bytes → Bytes → Bytes → Stamp → c.State → c.State × Result S3Error BackupMetadata
  unfolding put
  upload server_id database_name body t s =
      let id = if is_empty server_id then p.server_id else server_id in
      if is_empty id then (s, err server_id_required) else put id database_name body t s

  unfoldable pub download : Bytes → Writer → c.State → Writer × Result S3Error (Unit {0})
  unfolding deliver
  download id w s = elim (parse_backup_id p.bucket id) [
    | none ↦ (w, err invalid_backup_id)
    | some (bucket, key) ↦ deliver w (c.get_object bucket key s)
  ]

  unfoldable pub delete_backup : Bytes → c.State → c.State × Result S3Error (Unit {0})
  delete_backup id s = elim (parse_backup_id p.bucket id) [
    | none ↦ (s, err invalid_backup_id)
    | some (bucket, key) ↦
        let (s', fault) = c.delete_object bucket key s in
        (s', elim fault [ some e ↦ err (delete_failed e) | none ↦ ok tt ])
  ]

  unfoldable pub health_check : c.State → Result S3Error (Unit {0})
  health_check s = elim (c.head_bucket p.bucket s) [ some e ↦ err (health_failed e) | none ↦ ok tt ]

  unfoldable pub get_object_metadata : Bytes → c.State → Result S3Error S3Object
  get_object_metadata id s = elim (parse_backup_id p.bucket id) [
    | none ↦ err invalid_backup_id
    | some (bucket, key) ↦ elim (c.head_object bucket key s) [
      | err e ↦ err (head_failed e)
      | ok o ↦ ok o
    ]
  ]

  -- The prefix under which `ListBackups` looks.
  unfoldable pub listing_prefix : Bytes
  listing_prefix =
      (if not (is_empty p.prefix) then p.prefix ++ (slash ∷ []) else p.prefix)
      ++ (if not (is_empty p.server_id) then p.server_id ++ (slash ∷ []) else [])

  -- Where the key cannot be read, the server is the provider's and the database has no name.
  unfoldable pub metadata_of : S3Object → KeyMetadata
  metadata_of o = elim (extract_metadata_from_key o.key) [
    | some m ↦ m
    | none ↦ record {
      server_id = p.server_id;
      database_name = [];
      timestamp = some o.last_modified;
    }
  ]

  abbrev listed : S3Object → KeyMetadata → BackupMetadata
  listed o m = record {
    backup_id = backup_id p.bucket o.key;
    server_id = m.server_id;
    database_name = m.database_name;
    size = pos o.size;
    created_at = elim m.timestamp [ none ↦ 0 | some t ↦ t ];
    retention_tier = standard;
    storage_location = backup_id p.bucket o.key;
  }

  unfoldable pub collect : Bytes → List S3Object → List BackupMetadata
  unfolding metadata_of
  collect database_name [] = []
  collect database_name (o ∷ os) =
      let m = metadata_of o in
      let rest = collect database_name os in
      if not (is_empty database_name) && not (text_eq m.database_name database_name)
      then rest
      else listed o m ∷ rest

  unfoldable pub list_result :
      Bytes → Result Bytes (List S3Object) → Result S3Error (List BackupMetadata)
  list_result database_name (err e) = err (list_failed e)
  list_result database_name (ok objects) = ok (collect database_name objects)

  -- `limit` is a signed number in the code; every limit that is not positive is 0 here.
  unfoldable pub list_backups : Bytes → ℕ → c.State → Result S3Error (List BackupMetadata)
  unfolding list_result listing_prefix
  list_backups database_name limit s =
      list_result database_name
        (c.list_objects p.bucket listing_prefix (if limit == 0 then 100 else limit) s)
