-- ===== src/Init/Wizard/Usable.antt =====
-- When the configuration that `marmot init` writes can be used.
use marmot_cli.Common.{
  ℕ, ◌≡◌, ◌↔◌, sym, ap, subst, false, List, [], ◌∷◌, Bytes, is_empty, Result, ok, err, >>=-leads,
  All,
}
use marmot_cli.Files.{Disk}
use marmot_cli.Config.{Config, DatabaseConfig, Paths, validate}
use marmot_cli.Config.Databases.{ConfigFiles}
use marmot_cli.Config.Validity.{IsUsable, validate-IsUsableConfig}
use marmot_cli.Discovery.{DatabaseInfo}
use marmot_cli.Init.{InitError, InitFaults, select_databases}
use marmot_cli.Init.Chosen.{IsKnown, select_databases-All}
use marmot_cli.Init.Prompts.{Stdin}
use marmot_cli.Init.Wizard.{
  configure_storage, none_found, with_databases, configured, init_key, init_configured, run_init,
}
use marmot_cli.Init.Wizard.Key.{init_saved-eq-ok}

All-mp :
    (P Q : DatabaseConfig → Type 0) (cs : List DatabaseConfig)
    → All (λ c. P c ↔ Q c) cs
    → All P cs
    → All Q cs
All-mp P Q [] each all = tt
All-mp P Q (c ∷ cs) (one, each) (here, all) = (one.0 here, All-mp P Q cs each all)

module _ (in_home : Bytes → Bytes) (f : InitFaults) (paths : Paths)
    (found : List DatabaseInfo) where
  configured-databases :
      (stdin : Stdin) {c : Config}
      → configured in_home f paths found stdin ≡ ok c
      → (s : Stdin) × (c.databases ≡ (select_databases found s).0)
  unfolding configured with_databases
  configured-databases stdin {c} h =
      >>=-leads (configure_storage in_home f paths stdin) _ h λ pair stored h.
        >>=-leads (none_found found pair.1) _ h λ s2 asked h.
          let same : with_databases pair.0 (select_databases found s2) ≡ c = cc in
          (s2, ap (λ k. k.databases) (sym same))

  init_configured-eq-ok :
      (now : ℕ) (disk : Disk) (files : ConfigFiles) (r : Result InitError Config) {c : Config}
      → (init_configured f now disk files r).1 ≡ ok c
      → r ≡ ok c
  unfolding init_configured
  init_configured-eq-ok now disk files (err e) h = absurd (cc)
  init_configured-eq-ok now disk files (ok cfg) h =
      let (saved, same, kept) =
        init_saved-eq-ok f now cfg files (init_key f cfg.paths.key_file now disk) h in
      cc

  -- Where `marmot init` succeeds and `Validate` accepts the configuration that it has written, every database
  -- that was taken is in a container: one of the host has no connection string, and with it the
  -- configuration is refused by the backup command and by the daemon.
  pub run_init-validate :
      (stdin : Stdin) (now : ℕ) (disk : Disk) (files : ConfigFiles) {c : Config}
      → All IsKnown found
      → (run_init in_home f paths found stdin now disk files).1 ≡ ok c
      → (validate c).1 ≡ ok tt
      → All (λ db. is_empty db.container_id ≡ false) c.databases
  unfolding run_init
  run_init-validate stdin now disk files {c} known h valid =
      let made = init_configured-eq-ok now disk files (configured in_home f paths found stdin) h in
      let (s, here) = configured-databases stdin made in
      let usable = (validate-IsUsableConfig c).0 valid in
      let each =
        subst (λ dbs. All (λ k. IsUsable k ↔ (is_empty k.container_id ≡ false)) dbs) (sym here)
          (select_databases-All found s known) in
      All-mp IsUsable (λ db. is_empty db.container_id ≡ false) c.databases each usable.all_usable
