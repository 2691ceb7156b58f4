-- ===== src/Agent/Examples.antt =====
-- An agent with toy programs, and its theorems at one database.
use marmot_cli.Common.{
  ◌≡◌, ◌↔◌, refl, true, List, [], ◌∷◌, none, some, arith, Bytes, codes, Result, ok, err, text_eq,
  is_empty, decimal, digits, keep_if, Has,
}
use marmot_cli.Files.{find_file, write_file, remove_file}
use marmot_cli.Streams.{read_all, write}
use marmot_cli.Storage.{BackupFile}
use marmot_cli.Storage.Queue.{new_row}
use marmot_cli.Storage.Queue.Names.{has_row}
use marmot_cli.Storage.Local.{save}
use marmot_cli.S3.Examples.{bucket_list, minio_provider, noon}
use marmot_cli.Crypto.{encrypt}
use marmot_cli.Crypto.Examples.{backwards, keyed, nonce_12}
use marmot_cli.Config.{DatabaseConfig, s3_storage}
use marmot_cli.Config.Examples.{with_shop, shop}
use marmot_cli.Agent.{Gzip, Setup, Agent, World}
use marmot_cli.Agent.Programs.{DatabasePrograms, Command, dump_command}
use marmot_cli.Agent.Backup.{
  BackupFaults, compress, encrypted, seal_zipped, seal_dump, backup_name, backup,
}
use marmot_cli.Agent.Upload.{SendFaults, send}
use marmot_cli.Agent.Restore.{restore_to_database, restore_from_file}
use marmot_cli.Agent.Restore.RoundTrip.{no_faults, IsNonce, restore_from_file-backup}
use marmot_cli.Storage.Queue.Examples.{two, two_listed, old_backup, new_backup}
use marmot_cli.Agent.Retry.{retry_failed_uploads, IsDue, retry_failed_uploads-IsDue}
use marmot_cli.Agent.Retry.Uploads.{
  Daemon, loading, after_send, after_settle, sends, settles, done, step,
}
use marmot_cli.Agent.Retry.Uploads.Accounted.{IsAccounted, steps-IsAccounted}

-- Texts compressed by one byte in front.
abbrev pub unmark : Bytes → Result Bytes Bytes
unmark [] = err (codes "EOF")
unmark (x ∷ text) = ok text

abbrev pub marked : Gzip
marked = record { zip = λ bs. 31 ∷ bs; unzip = unmark; unzip-zip = λ bs. refl }

-- Every program prints one dump, and keeps what it was fed.
abbrev pub printers : DatabasePrograms
printers = record { State = List Bytes; run = λ c stdin fed. (stdin ∷ fed, ok (codes "INSERT")) }

abbrev pub toy : Setup
toy = record {
  client = bucket_list;
  gcm = backwards;
  gzip = marked;
  programs = printers;
  calendar = λ t. noon;
  hostname = codes "box";
  error_text = λ e. codes "failed";
}

abbrev pub local_agent : Agent
local_agent = record {
  config = with_shop;
  storage = record { base_dir = codes "/b" };
  remote = none;
  encryptor = keyed;
}

abbrev pub cloud_agent : Agent
cloud_agent = record local_agent {
  config = record with_shop { storage_type = s3_storage };
  remote = some minio_provider;
}

abbrev pub fine : BackupFaults
fine = record {
  dump_temp = none;
  dump_seek = none;
  gzip_temp = none;
  gzip = record { new_writer = none; copy = none; close = none };
  gzip_seek = none;
  sealed_temp = none;
  random = ok nonce_12;
  sealed_writes = [];
  sealed_seek = none;
  save = record { create = none; copy = none; unlink = none; partial = [] };
  stat = none;
  enqueue = none;
}

abbrev pub fine_send : SendFaults
fine_send = record { load = codes "no such file"; unqueue = none; increment = none; now = 9 }

abbrev pub start : World toy
start = record { disk = []; table = record { rows = []; next_id = 1 }; bucket = []; databases = [] }

saved : (backup toy local_agent shop true fine fine_send 7 9 start).1 ≡ ok none
unfolding backup dump_command seal_dump seal_zipped encrypted compress encrypt save find_file
    write_file remove_file read_all write text_eq is_empty decimal digits keep_if
saved = refl

pub fine-IsNonce : IsNonce toy local_agent fine
fine-IsNonce nonce h = ground arith

restore_from_file-backup_example :
    let now = (backup toy local_agent shop true fine fine_send 7 9 start).0 in
    (c : Command) × (dump : Bytes) × (dump_command shop ≡ some c)
    × ((printers.run c [] []).1 ≡ ok dump)
    × (restore_from_file toy local_agent shop
          (no_faults [])
          (codes "/b")
          (backup_name toy local_agent shop 7)
          now
        ≡ restore_to_database toy local_agent shop dump now)
restore_from_file-backup_example =
    restore_from_file-backup toy local_agent shop shop true fine fine_send 7 9 start
      (backup toy local_agent shop true fine fine_send 7 9 start).0 [] refl fine-IsNonce saved refl

abbrev one_backup : BackupFile
one_backup = record {
  name = codes "x.enc";
  path = codes "/b/x.enc";
  size = 3;
  created_at = 9;
  database_id = codes "shop";
  retry_count = 0;
  last_retry_at = 0;
}

-- One upload is under way, and its goroutine has not started.
abbrev under_way : Daemon toy
under_way = record {
  world = record start { table = record { rows = new_row 1 one_backup ∷ []; next_id = 2 } };
  flights = loading one_backup shop ∷ [];
  queued = codes "x.enc" ∷ [];
  uploaded = [];
}

under_way-IsAccounted : IsAccounted under_way
unfolding has_row text_eq
under_way-IsAccounted = record { safe = (refl, tt); true_flights = (tt, tt) }

-- The goroutine finds no file, and settles that.
steps-IsAccounted_example : IsAccounted (
    after_settle toy cloud_agent fine_send [] one_backup
      (send toy cloud_agent fine_send shop one_backup under_way.world).1
      []
      (after_send toy cloud_agent fine_send [] one_backup shop [] under_way))
steps-IsAccounted_example =
    steps-IsAccounted toy cloud_agent
      (step (sends fine_send [] one_backup shop [] refl) (
        step
          (settles fine_send [] one_backup
            (send toy cloud_agent fine_send shop one_backup under_way.world).1 [] refl)
          done))
      under_way-IsAccounted

retry_failed_uploads-IsDue_example :
    (uploads : List (BackupFile × DatabaseConfig)) × (retry_failed_uploads with_shop none none 9 two
      ≡ ok uploads)
    × (Has (old_backup, shop) uploads
        ↔ (Has old_backup (old_backup ∷ new_backup ∷ []) × IsDue with_shop 9 old_backup shop))
retry_failed_uploads-IsDue_example =
    retry_failed_uploads-IsDue with_shop 9 two (old_backup ∷ new_backup ∷ []) old_backup shop
      two_listed
