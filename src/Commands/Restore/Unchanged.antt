-- ===== src/Commands/Restore/Unchanged.antt =====
-- What `marmot restore` does without a file and a backup id.
use marmot_cli.Common.{◌≡◌, ◌⊎◌, ◌++◌, map}
use marmot_cli.Config.{Config}
use marmot_cli.Agent.{Setup, World}
use marmot_cli.Commands.Restore.{RestoreCommandFaults, as_directory}

-- The world that was, or that with the directories that were made.
abbrev pub IsKept : {setup : Setup} → RestoreCommandFaults → World setup → World setup → Type 0
IsKept f w w' = (w' ≡ w) ⊎ (w' ≡ record w { disk = w.disk ++ map as_directory f.made })
