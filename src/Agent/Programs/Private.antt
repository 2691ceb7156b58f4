-- ===== src/Agent/Programs/Private.antt =====
-- Which programs are run, and who can read the password.
use marmot_cli.Common.{
  ◌≡◌, ◌⊎◌, ◌↔◌, Bool, true, false, List, [], Option, none, some, arith, Bytes, text_eq,
  text_eq_iff,
}
use marmot_cli.Config.{DatabaseConfig, mysql, postgres, mongo}
use marmot_cli.Agent.Programs.{Command, dump_command, restore_command}

abbrev pub args_of : Option Command → List Bytes
args_of none = []
args_of (some c) = c.args

abbrev pub is_some : Option Command → Bool
is_some none = false
is_some (some c) = true

-- The arguments of a process can be read by every user of the machine. For every type but MongoDB
-- those of the dump and of the restore are the same whatever the password is.
pub args_of-dump_command :
    (db : DatabaseConfig) (password : Bytes)
    → text_eq db.type mongo ≡ false
    → (args_of (dump_command (record db { password = password })) ≡ args_of (dump_command db))
      × (args_of (restore_command (record db { password = password }))
          ≡ args_of (restore_command db))
unfolding dump_command restore_command
args_of-dump_command db password h = ground arith

-- A database can be dumped exactly where it can be restored: where its type is one of the three.
pub dump_command-restore_command :
    (db : DatabaseConfig)
    → (is_some (dump_command db) ≡ is_some (restore_command db))
      × ((is_some (dump_command db) ≡ true)
          ↔ ((db.type ≡ mysql) ⊎ ((db.type ≡ postgres) ⊎ (db.type ≡ mongo))))
unfolding dump_command restore_command
dump_command-restore_command db = (
  ground arith,
  (
    λ h.
        ground (
          arith,
          text_eq_iff db.type mysql,
          text_eq_iff db.type postgres,
          text_eq_iff db.type mongo,
        ),
    λ h.
        ground (
          arith,
          text_eq_iff db.type mysql,
          text_eq_iff db.type postgres,
          text_eq_iff db.type mongo,
        ),
  ),
)
