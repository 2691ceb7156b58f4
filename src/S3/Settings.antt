-- ===== src/S3/Settings.antt =====
-- `Config`, `Validate`, `GetProvider` and `NewS3Provider`. The provider's name picks one of five
-- factories, which are all `NewS3Provider`.
use marmot_cli.Common.{
  ◌≡◌, ◌⊎◌, ◌↔◌, Bool, true, false, ◌&&◌, ◌||◌, not, Option, none, some, arith, Bytes, codes,
  text_eq, text_eq_iff, is_empty, Result, ok, err, if◌then◌else◌,
}

pub record S3Config : Type 0 where
  pub provider : Bytes
  pub endpoint : Bytes
  pub bucket : Bytes
  pub region : Bytes
  pub access_key : Bytes
  pub secret_key : Bytes
  pub path_style : Bool
  pub prefix : Bytes
  pub server_id : Bytes

pub data ConfigError : Type 0 where
  bucket_required access_key_required secret_key_required endpoint_required : ConfigError
  aws_config_failed : Bytes → ConfigError

abbrev pub aws : Bytes
aws = codes "s3"

abbrev r2 : Bytes
r2 = codes "r2"

abbrev b2 : Bytes
b2 = codes "b2"

abbrev wasabi : Bytes
wasabi = codes "wasabi"

abbrev minio : Bytes
minio = codes "minio"

abbrev us_east : Bytes
us_east = codes "us-east-1"

need_endpoint : S3Config → S3Config × Result ConfigError (Unit {0})
need_endpoint c = if is_empty c.endpoint then (c, err endpoint_required) else (c, ok tt)

-- The `switch` on the provider: it may fill in a region or the path style.
validate_provider : S3Config → S3Config × Result ConfigError (Unit {0})
unfolding need_endpoint
validate_provider c =
    if is_empty c.provider || text_eq c.provider aws
    then (c, ok tt)
    else if text_eq c.provider r2
    then need_endpoint c
    else if text_eq c.provider b2
    then need_endpoint c
    else if text_eq c.provider wasabi
    then (if is_empty c.region then (record c { region = us_east }, ok tt) else (c, ok tt))
    else if text_eq c.provider minio
    then (if is_empty c.endpoint
        then (c, err endpoint_required)
        else (if not c.path_style then record c { path_style = true } else c, ok tt))
    else need_endpoint c

-- `Validate` has a pointer receiver: the configuration comes back with its defaults.
unfoldable pub validate : S3Config → S3Config × Result ConfigError (Unit {0})
unfolding validate_provider
validate c =
    if is_empty c.bucket
    then (c, err bucket_required)
    else if is_empty c.access_key
    then (c, err access_key_required)
    else if is_empty c.secret_key
    then (c, err secret_key_required)
    else validate_provider c

-- What `NewS3Provider` hands to the AWS client, and what it keeps.
pub record S3Provider : Type 0 where
  pub config : S3Config
  pub client_region : Bytes
  pub base_endpoint : Option Bytes
  pub use_path_style : Bool
  pub bucket : Bytes
  pub prefix : Bytes
  pub server_id : Bytes

abbrev pick_region : S3Config → Bytes
pick_region c =
    if is_empty c.region
    then (if text_eq c.provider r2 then codes "auto" else us_east)
    else c.region

unfoldable pub make_provider : S3Config → S3Provider
make_provider c = record {
  config = c;
  client_region = pick_region c;
  base_endpoint = if is_empty c.endpoint then none else some c.endpoint;
  use_path_style = not (is_empty c.endpoint) && (c.path_style || text_eq c.provider minio);
  bucket = c.bucket;
  prefix = c.prefix;
  server_id = c.server_id;
}

-- `fault` is the error of `LoadDefaultConfig`.
unfoldable pub new_s3_provider : Option Bytes → S3Config → Result ConfigError S3Provider
unfolding validate make_provider
new_s3_provider fault c = elim (validate c).1 [
  | err e ↦ err e
  | ok _ ↦ elim fault [
    | some e ↦ err (aws_config_failed e)
    | none ↦ ok (make_provider (validate c).0)
  ]
]

-- `GetProvider` looks the factory up after it put "s3" in place of an empty name.
unfoldable pub get_provider : Option Bytes → S3Config → Result ConfigError S3Provider
unfolding new_s3_provider
get_provider fault c =
    new_s3_provider fault (if is_empty c.provider then record c { provider = aws } else c)

-- What the providers ask of a configuration.
pub record IsComplete (c : S3Config) : Type 0 where
  pub has_bucket : is_empty c.bucket ≡ false
  pub has_access_key : is_empty c.access_key ≡ false
  pub has_secret_key : is_empty c.secret_key ≡ false
  pub has_endpoint :
      (is_empty c.endpoint ≡ false)
      ⊎ ((is_empty c.provider ≡ true) ⊎ ((c.provider ≡ aws) ⊎ (c.provider ≡ wasabi)))

validate_sound : (c : S3Config) → (validate c).1 ≡ ok tt → IsComplete c
unfolding validate
validate_sound c h = ground (arith, text_eq_iff c.provider aws, text_eq_iff c.provider wasabi)

validate_complete : (c : S3Config) → IsComplete c → (validate c).1 ≡ ok tt
unfolding validate
validate_complete c h = ground (
  arith,
  text_eq_iff c.provider aws,
  text_eq_iff c.provider wasabi,
  text_eq_iff c.provider r2,
  text_eq_iff c.provider b2,
  text_eq_iff c.provider minio,
)

-- `Validate` accepts exactly the complete configurations: bucket and both keys, and an endpoint
-- unless the provider is AWS, Wasabi or not named.
pub validate_iff : (c : S3Config) → ((validate c).1 ≡ ok tt) ↔ IsComplete c
validate_iff c = (validate_sound c, validate_complete c)

-- Validating again changes nothing more.
pub validate_idem : (c : S3Config) → validate (validate c).0 ≡ ((validate c).0, (validate c).1)
unfolding validate is_empty
validate_idem c = ground arith
