-- ===== src/Init/Wizard/Key.antt =====
-- What `marmot init` does to the key file.
use marmot_cli.Common.{
  ℕ, ◌≡◌, refl, List, Option, none, some, arith, Bytes, Result, ok, err, >>-eq-ok, length, false,
}
use marmot_cli.Files.{Disk, File, find_file}
use marmot_cli.Files.Laws.{find_file-write_file, same_place_refl}
use marmot_cli.Crypto.{
  AesEncryptor, CryptoError, new_aes_encryptor, generate_key, load_key, save_key_to_file,
}
use marmot_cli.Config.{Config, Paths}
use marmot_cli.Config.Databases.{ConfigFiles, save_config}
use marmot_cli.Agent.Upload.{map_err, map_err-eq-ok}
use marmot_cli.Commands.{split_path, encryptor_of}
use marmot_cli.Discovery.{DatabaseInfo}
use marmot_cli.Init.{InitError, InitFaults, save_key_failed, save_failed}
use marmot_cli.Init.Prompts.{Stdin}
use marmot_cli.Init.Wizard.{
  configured, save_key, save_generated, init_key, init_saved, init_configured, run_init,
}

module _ (f : InitFaults) (now : ℕ) where
  -- The file of a key that was saved.
  abbrev HoldsKey : Bytes → Bytes → Disk → Type 0
  HoldsKey path key disk =
      (file : File) × (find_file (split_path path).0 (split_path path).1 disk ≡ some file)
      × (file.content ≡ key)

  save_key_to_file-holds :
      (dir name : Bytes) (e : AesEncryptor) (disk : Disk)
      → (save_key_to_file f.write_key dir name now e disk).1 ≡ ok tt
      → (file : File) × (find_file dir name (save_key_to_file f.write_key dir name now e disk).0
          ≡ some file)
        × (file.content ≡ e.key)
  unfolding save_key_to_file
  save_key_to_file-holds dir name e disk h = (
    record { dir = dir; name = name; content = e.key; mod_time = now; is_dir = false },
    ground (arith, find_file-write_file dir name dir name e.key now disk, same_place_refl dir name),
    refl,
  )

  save_key-holds :
      (path key : Bytes) (disk : Disk)
      → length key ≡ 32
      → (save_key f path now key disk).1 ≡ ok tt
      → HoldsKey path key (save_key f path now key disk).0
  unfolding save_key load_key
  save_key-holds path key disk long h =
      let loaded : load_key key new_aes_encryptor ≡ (record { key = key }, ok tt) = ground arith in
      let (dir, name) = split_path path in
      let written = save_key_to_file f.write_key dir name now (record { key = key }) disk in
      rw loaded (
        save_key_to_file-holds dir name (record { key = key }) disk
          (map_err-eq-ok save_key_failed written.1 (rw loaded at h)))

  save_generated-holds :
      (path : Bytes) (disk : Disk) (mkdir : Option Bytes) (r : Result CryptoError Bytes)
      → ((k : Bytes) → r ≡ ok k → length k ≡ 32)
      → (save_generated f path now disk mkdir r).1 ≡ ok tt
      → (key : Bytes) × (r ≡ ok key) × HoldsKey path key (save_generated f path now disk mkdir r).0
  unfolding save_generated
  save_generated-holds path disk mkdir (err e) full h = absurd (cc)
  save_generated-holds path disk (some e) (ok key) full h = absurd (cc)
  save_generated-holds path disk none (ok key) full h =
      (key, refl, save_key-holds path key disk (full key refl) h)

  pub init_saved-eq-ok :
      (cfg : Config) (files : ConfigFiles) (p : Disk × Result InitError (Unit {0})) {c : Config}
      → (init_saved f cfg files p).1 ≡ ok c
      → (p.1 ≡ ok tt) × (c ≡ cfg) × ((init_saved f cfg files p).0.0 ≡ p.0)
  unfolding init_saved
  init_saved-eq-ok cfg files (disk, err e) h = absurd (cc)
  init_saved-eq-ok cfg files (disk, ok done) h =
      let (files', saved) = save_config f.save cfg cfg.paths.config_file files in
      let (_, same) = >>-eq-ok (map_err save_failed saved) (ok cfg) h in (refl, cc, refl)

  generated : {k : Bytes} → generate_key f.random ≡ ok k → f.random ≡ ok k
  unfolding generate_key
  generated h = ground arith

  HoldsKey-encryptor_of :
      (fault path key : Bytes) (disk : Disk)
      → length key ≡ 32
      → HoldsKey path key disk
      → encryptor_of fault path disk ≡ ok (record { key = key })
  unfolding encryptor_of load_key
  HoldsKey-encryptor_of fault path key disk long (file, there, content) = ground arith

  init_configured-key :
      (disk : Disk) (files : ConfigFiles) (r : Result InitError Config) (fault : Bytes) {c : Config}
      → ((k : Bytes) → f.random ≡ ok k → length k ≡ 32)
      → (init_configured f now disk files r).1 ≡ ok c
      → (key : Bytes) × (f.random ≡ ok key)
        × (encryptor_of fault c.paths.key_file (init_configured f now disk files r).0.0
            ≡ ok (record { key = key }))
  unfolding init_configured init_key
  init_configured-key disk files (err e) fault full h = absurd (cc)
  init_configured-key disk files (ok cfg) fault full h =
      let (saved, same, kept) =
        init_saved-eq-ok cfg files (init_key f cfg.paths.key_file now disk) h in
      let (key, made, holds) =
        save_generated-holds cfg.paths.key_file disk f.mkdir_config (generate_key f.random)
          (λ k g. full k (generated g)) saved in
      (
        key,
        generated made,
        rw (same, kept)
            (HoldsKey-encryptor_of fault cfg.paths.key_file key _ (full key (generated made))
              holds),
      )

  -- Where `marmot init` succeeds, the key that is loaded from the key file afterwards is the one that was just
  -- generated, whichever key was there before.
  pub run_init-key :
      (in_home : Bytes → Bytes) (paths : Paths) (found : List DatabaseInfo) (stdin : Stdin)
      (disk : Disk) (files : ConfigFiles) (fault : Bytes) {c : Config}
      → ((k : Bytes) → f.random ≡ ok k → length k ≡ 32)
      → (run_init in_home f paths found stdin now disk files).1 ≡ ok c
      → (key : Bytes) × (f.random ≡ ok key)
        × (encryptor_of fault c.paths.key_file
              (run_init in_home f paths found stdin now disk files).0.0
            ≡ ok (record { key = key }))
  unfolding run_init
  run_init-key in_home paths found stdin disk files fault full h =
      init_configured-key disk files (configured in_home f paths found stdin) fault full h
