-- ===== src/Lib.antt =====
-- marmot backs up databases: it runs a dump program, compresses and encrypts the dump, keeps the
-- file in a local directory, and for cloud storage queues it for an upload to S3; a restore goes
-- the other way. This library models the parts of the program that decide what happens to a backup.
-- Paths are from the root of the repository.
--
-- The parts, and how they meet:
-- * Agent models internal/agent/agent.go. `backup` of Agent.Backup is `Backup` as one function of
--   the world (files, queue table, bucket, databases): `run_dump`, `seal_dump` (compress, encrypt),
--   `save_backup`, `enqueue_backup` and the upload, each guard and early return in its place.
--   `upload_backup_sync` and `upload_backup` of Agent.Upload are the two uploads, `restore`,
--   `restore_from_file` and `restore_from_encrypted_reader` of Agent.Restore the restores,
--   `retry_failed_uploads` of Agent.Retry the retry. Agent.Scheduler is
--   internal/agent/scheduler.go: `start`, `schedule_database`, `unschedule_database` and `stop` on
--   the map of entries and on cron. Agent.Retry.Uploads has the goroutines of the daemon as a step
--   relation, in which an upload is two steps (load and send, then settle the queue) and any
--   goroutine may move. Agent.Programs has the command lines of internal/backup/mysql.go,
--   postgres.go and mongo.go and of `restoreToDatabase`; the compressor of
--   internal/backup/compressor.go is in Agent.Backup and Agent.Restore.
-- * Storage.Queue models internal/storage/queue.go: the table `upload_queue` with one function for
--   each statement that a method runs. Storage.Local models internal/storage/local.go.
-- * Crypto models internal/crypto/aes.go, on the readers and writers of Streams.
-- * S3 models internal/s3/provider.go and internal/s3/s3.go: keys and backup ids in S3.Key, the
--   pattern `keyPattern` as a function by clauses, the settings of a provider in S3.Settings, its
--   methods in S3.Client.
-- * Config models internal/config/config.go; Config.Databases the commands `db add` and `db remove`
--   of cmd/marmot/cmd/db.go with `LoadConfig` and `SaveConfig`.
-- * PidFile models internal/daemon/pidfile.go, as one function for a process alone and, in
--   PidFile.Race, as single calls of two processes in any order; PidFile.Stop has `StopProcess` and
--   the command `stop` of cmd/marmot/cmd/stop.go.
-- * Verify models cmd/marmot/cmd/verify.go: Verify.Bson is `parseBSONDocument`, Verify.Mongo
--   `verifyMongoArchive`, Verify.Sql `verifySQLDump` with its two patterns, and Verify.Command
--   `runVerify`, from the flags to the report.
-- * Storage.Queue.Open models `NewSQLiteQueue`: the connection string that the file is opened with.
--   An interface of the driver says that a connection for queries only refuses a write.
-- * Remote models internal/remote/storage.go, `NewStorageWithContext` over S3.
-- * Commands models the commands that put the parts together: `runBackup`, `runRestore`, `runStart`
--   and `runDecrypt` of cmd/marmot/cmd/backup.go, restore.go, start.go and decrypt.go, and in
--   Commands.Keys those of key.go and queue.go. Commands.Prepare is the beginning that `runBackup`
--   and `runStart` share.
-- * Discovery models internal/discovery/docker.go, local.go and types.go with the merge of
--   cmd/marmot/cmd/init.go; Init models the questions of cmd/marmot/cmd/init.go and the loop of
--   cmd/marmot/cmd/db_discover.go.
-- * Cleanup models cmd/marmot/cmd/cleanup.go. Files is the file system that the parts share.
--
-- Conventions. A call of the system or of another library that may fail is an argument: `none`, or
-- the message of its error. Errors are values of one type for each part, in place of the wrapped
-- texts; `nil_remote` stands for a panic. A write of a file that breaks off leaves what an argument
-- says. A time is a number of nanoseconds since the year 1; texts are lists of bytes; sizes are
-- natural numbers, and ports and the limits of the configuration are signed. AES-GCM, base64, gzip,
-- the AWS client, cron, the database programs, the calendar, the offsets of local time and net/url
-- are interfaces or arguments, with the laws that the code relies on: what was sealed is opened,
-- what was compressed is decompressed, a read after a write gives what was written, a listing is
-- not longer than was asked for, an entry of cron has an id of its own. viper reads back what it
-- wrote.
--
-- Fuel: `digits` of Common.Text has fuel above the number, which is divided by ten in each round;
-- `match_key` of S3.Key has the length of the key, and each segment takes a byte of it at least.
-- The loops of Verify and of PidFile.Stop are `repeat` of Common.Loops: a round is a function that
-- says whether there is another, and with enough rounds the result is where the loop without a
-- bound ends. `parse_fields` and `scan_archive` have as many rounds as there are bytes, each of
-- which takes one; `poll_all` has two more than sleeps fit into the timeout.
--
-- Not modelled: the permissions of files, the file of the queue before it has a row and, but for
-- `runRestore`, the directories that MkdirAll makes, none of which decides what happens to a
-- backup; deadlines of contexts, temporary files (they are removed by `defer`), what is printed,
-- the times at which cron runs a job, the reading of the configuration by viper, the check of a
-- connection in cmd/marmot/cmd/db_verify.go, which opens database drivers, the launch and restart
-- of the daemon (cmd/marmot/cmd/daemon.go and daemon_launch.go), the commands `status` and
-- `service`, and the wiring of the command line.
mod Common
pub mod Files
pub mod Streams
pub mod Crypto
pub mod S3
pub mod Storage
pub mod Config
pub mod Agent
pub mod PidFile
pub mod Cleanup
pub mod Verify
pub mod Remote
pub mod Commands
pub mod Discovery
pub mod Init
