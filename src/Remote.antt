-- ===== src/Remote.antt =====
-- The remote storage of internal/remote/storage.go.
pub mod Created
use marmot_cli.Common.{Bool, not, Option, some, none, Bytes, Result, ok, err, if◌then◌else◌}
use marmot_cli.S3.Settings.{S3Config, S3Provider, ConfigError, validate, get_provider}
use marmot_cli.Config.{Config, is_s3}

pub record Storage : Type 0 where
  pub provider : S3Provider
  pub config : S3Config

pub data RemoteError : Type 0 where
  not_configured : RemoteError
  invalid provider_failed : ConfigError → RemoteError

provided : S3Config → Result ConfigError S3Provider → Result RemoteError Storage
provided c (err e) = err (provider_failed e)
provided c (ok p) = ok (record { provider = p; config = c })

checked : Option Bytes → S3Config → Result ConfigError (Unit {0}) → Result RemoteError Storage
unfolding provided
checked fault c (err e) = err (invalid e)
checked fault c (ok done) = provided c (get_provider fault c)

-- The configuration comes back too: `Validate` puts its defaults in. `fault` is the error of the AWS
-- configuration.
unfoldable pub new_storage_with_context :
    Option Bytes → Config → Config × Result RemoteError Storage
unfolding checked
new_storage_with_context fault cfg =
    if not (is_s3 cfg)
    then (cfg, err not_configured)
    else let (c, valid) = validate cfg.s3 in (record cfg { s3 = c }, checked fault c valid)
