-- ===== src/Commands/Examples/Queue.antt =====
-- The theorems on what is opened, at one server.
use marmot_cli.Common.{◌≡◌, ◌≢◌, ◌↔◌, true, Option, none, Bytes, ok}
use marmot_cli.Config.{is_s3}
use marmot_cli.Config.Examples.{with_shop}
use marmot_cli.Storage.Queue.Open.{Probe, Connection, writable, new_sqlite_queue}
use marmot_cli.Storage.Queue.{enqueue, clear}
use marmot_cli.Storage.Queue.Examples.{old_backup, two}
use marmot_cli.Storage.Queue.Open.Modes.{CanWrite, new_sqlite_queue_iff, new_sqlite_queue_refuses}
use marmot_cli.Remote.{Storage, new_storage_with_context}
use marmot_cli.Remote.Created.{new_storage_with_context_iff}
use marmot_cli.S3.Settings.{IsComplete}
use marmot_cli.Commands.Examples.{user_probe, user_probe-IsUserQueue, sqlite}

abbrev root_probe : Probe
root_probe = record user_probe { is_root = true }

new_sqlite_queue_refuses_example :
    (c : Connection) × (new_sqlite_queue user_probe ≡ ok c)
    × ((enqueue (sqlite.write c none) old_backup two).0 ≡ two)
    × ((enqueue (sqlite.write c none) old_backup two).1 ≢ ok tt)
    × ((clear (sqlite.write c none) two).0 ≡ two)
    × ((clear (sqlite.write c none) two).1 ≢ ok tt)
new_sqlite_queue_refuses_example =
    new_sqlite_queue_refuses user_probe sqlite none old_backup two user_probe-IsUserQueue

new_sqlite_queue_iff_example : (new_sqlite_queue root_probe ≡ ok writable) ↔ (
    CanWrite root_probe
    × (root_probe.mkdir ≡ none)
    × (root_probe.connect writable ≡ none)
    × (root_probe.pragma ≡ none)
    × (root_probe.schema ≡ none))
new_sqlite_queue_iff_example = new_sqlite_queue_iff root_probe

abbrev no_fault : Option Bytes
no_fault = none

new_storage_with_context_iff_example :
    ((s : Storage) × ((new_storage_with_context no_fault with_shop).1 ≡ ok s))
    ↔ ((is_s3 with_shop ≡ true) × IsComplete with_shop.s3 × (no_fault ≡ none))
new_storage_with_context_iff_example = new_storage_with_context_iff no_fault with_shop
