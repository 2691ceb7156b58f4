-- ===== src/S3/Examples.antt =====
-- A bucket kept as a list of objects, and the theorems on keys, ids and uploads at it.
use marmot_cli.Common.{
  ℕ, ◌≤◌, ◌≡◌, refl, true, false, ◌&&◌, List, [], ◌∷◌, none, some, arith, Bytes, codes, Result, ok,
  err, text_eq, text_eq_refl, is_empty, digits, decimal, length, take, length-take, map,
  if◌then◌else◌, pos,
}
use marmot_cli.Streams.{fresh}
use marmot_cli.S3.Settings.{S3Config, S3Provider, new_s3_provider}
use marmot_cli.S3.Key.{
  Stamp, slash, generate_object_key, pad2, pad4, format_date, parse_backup_id, backup_id,
}
use marmot_cli.S3.Key.BackupId.{Lacks}
use marmot_cli.S3.Client.{list_result}
use marmot_cli.Streams.{write}
use marmot_cli.S3.Client.{
  S3Client, S3Object, BackupMetadata, S3Error, upload, download, list_backups,
}
use marmot_cli.S3.Listing.{list_backups_named}
use marmot_cli.S3.Transfer.{download-upload}

pub record Stored : Type 0 where
  pub at_bucket : Bytes
  pub at_key : Bytes
  pub body : Bytes

abbrev pub get : Bytes → Bytes → List Stored → Result Bytes Bytes
get bucket key [] = err (codes "NoSuchKey")
get bucket key (o ∷ os) =
    if text_eq o.at_bucket bucket && text_eq o.at_key key then ok o.body else get bucket key os

abbrev pub object : Stored → S3Object
object o = record { key = o.at_key; size = length o.body; last_modified = 0; etag = [] }

pub get-first :
    (bucket key body : Bytes) (s : List Stored) {got : Bytes}
    → get bucket key (record { at_bucket = bucket; at_key = key; body = body } ∷ s) ≡ ok got
    → got ≡ body
get-first bucket key body s found = ground (arith, text_eq_refl bucket, text_eq_refl key)

pub take_bounded :
    (max : ℕ) (xs : List S3Object) {objects : List S3Object}
    → ◌≡◌ {A = Result Bytes (List S3Object)} (ok (take max xs)) (ok objects)
    → length objects ≤ max
take_bounded max xs found = ground (arith, length-take max xs)

-- Every request but a read of a missing key succeeds; deletions leave the list as it is.
abbrev pub bucket_list : S3Client
bucket_list = record {
  State = List Stored;
  put_object =
      λ bucket key body s. (record { at_bucket = bucket; at_key = key; body = body } ∷ s, none);
  get_object = get;
  list_objects = λ bucket prefix max s. ok (take max (map object s));
  delete_object = λ bucket key s. (s, none);
  head_bucket = λ bucket s. none;
  head_object = λ bucket key s. err (codes "NotFound");
  get-put = λ bucket key body s put found. get-first bucket key body s found;
  list_bounded = λ bucket prefix max s found. take_bounded max (map object s) found;
}

abbrev pub minio_config : S3Config
minio_config = record {
  provider = codes "minio";
  endpoint = codes "http://nas:9000";
  bucket = codes "dumps";
  region = [];
  access_key = codes "a";
  secret_key = codes "b";
  path_style = false;
  prefix = codes "nightly";
  server_id = codes "web-01";
}

abbrev pub minio_provider : S3Provider
minio_provider = record {
  config = minio_config;
  client_region = codes "us-east-1";
  base_endpoint = some (codes "http://nas:9000");
  use_path_style = true;
  bucket = codes "dumps";
  prefix = codes "nightly";
  server_id = codes "web-01";
}

abbrev pub noon : Stamp
noon = record { unix = 1705312800; year = 2024; month = 1; day = 15 }

dumps_plain : Lacks slash (codes "dumps")
dumps_plain = (refl, (refl, (refl, (refl, (refl, tt)))))

minio_path_style :
    new_s3_provider none minio_config
    ≡ ok (record minio_provider { config = record minio_config { path_style = true } })
unfolding new_s3_provider is_empty text_eq
minio_path_style = refl

abbrev server : Bytes
server = codes "web-01"

abbrev name : Bytes
name = codes "my-db"

-- The bucket after one upload and after two in the same second.
abbrev one_sent : List Stored × Result S3Error BackupMetadata
one_sent = upload bucket_list minio_provider server name (codes "dump") noon []

abbrev two_sent : List Stored × Result S3Error BackupMetadata
two_sent = upload bucket_list minio_provider server name (codes "more") noon one_sent.0

abbrev backups_in : Result S3Error (List BackupMetadata) → List BackupMetadata
backups_in (err e) = []
backups_in (ok bs) = bs

listed_ok :
    (database_name : Bytes)
    → let r = list_backups bucket_list minio_provider database_name 1 one_sent.0 in
      r ≡ ok (backups_in r)
unfolding list_backups upload is_empty list_result
listed_ok database_name = refl

list_backups_named_example :
    backups_in (list_backups bucket_list minio_provider name 1 one_sent.0) ≡ []
unfolding is_empty
list_backups_named_example =
    list_backups_named bucket_list minio_provider name 1 one_sent.0 refl (listed_ok name)

sent : BackupMetadata
sent = record {
  backup_id = codes "s3://dumps/nightly/web-01/2024/01/15/my-db-1705312800.enc";
  server_id = server;
  database_name = name;
  size = pos 4;
  created_at = 1705312800;
  retention_tier = codes "standard";
  storage_location = codes "s3://dumps/nightly/web-01/2024/01/15/my-db-1705312800.enc";
}

one_sent_ok : one_sent.1 ≡ ok sent
unfolding upload is_empty sent generate_object_key decimal digits format_date pad4 pad2 backup_id
one_sent_ok = refl

two_sent_ok : two_sent.1 ≡ ok sent
unfolding upload is_empty sent generate_object_key decimal digits format_date pad4 pad2 backup_id
two_sent_ok = refl

one_got : (download bucket_list minio_provider sent.backup_id fresh one_sent.0).1 ≡ ok tt
unfolding download upload is_empty sent generate_object_key decimal digits format_date pad4 pad2
    parse_backup_id text_eq write
one_got = refl

two_got : (download bucket_list minio_provider sent.backup_id fresh two_sent.0).1 ≡ ok tt
unfolding download upload is_empty sent generate_object_key decimal digits format_date pad4 pad2
    parse_backup_id text_eq write
two_got = refl

download-upload_example :
    ((download bucket_list minio_provider sent.backup_id fresh one_sent.0).0.written ≡ codes "dump")
    × (sent.size ≡ pos 4)
download-upload_example =
    download-upload bucket_list minio_provider server name (codes "dump") noon [] dumps_plain
      one_sent_ok one_got
