-- ===== src/Bridge/Catalog/World.antt =====
-- `RULES` of tools/apm_suite/analysis/catalog.py, entries blocking_io to main_loop.
use dtd_server_apm.Common.{[], ◌∷◌, codes}
use dtd_server_apm.Bridge.Rule.{Rule}

abbrev pub rule_blocking_io : Rule
rule_blocking_io = record {
  id = codes "blocking_io";
  title = codes "Blocking disk I/O";
  native_any =
      codes "vfs_read"
      ∷ codes "vfs_write"
      ∷ codes "vfs_fsync"
      ∷ codes "ext4_"
      ∷ codes "xfs_"
      ∷ codes "nvme_"
      ∷ codes "blk_"
      ∷ codes "__x64_sys_read"
      ∷ codes "__x64_sys_write"
      ∷ codes "pread64"
      ∷ codes "pwrite64"
      ∷ [];
  prof_sections =
      codes "GmUpdate"
      ∷ codes "World.OnUpdateTick"
      ∷ codes "WorldBlockTicker.Tick"
      ∷ codes "GameManager.SaveWorld"
      ∷ codes "GameManager.SavePlayerData"
      ∷ codes "ChunkProviderGenerateWorld.SaveRandomChunks"
      ∷ codes "World.SaveWorldState"
      ∷ codes "ChunkManager.DetermineChunksToLoad"
      ∷ [];
  csharp =
      codes "Synchronous file IO on sim thread (region/chunk save/load)"
      ∷ codes "World save, prefab, player data, dynamic mesh files"
      ∷ [];
  harmony_targets =
      codes "GameManager.gmUpdate"
      ∷ codes "World.Save*"
      ∷ codes "Chunk* save/load paths (version-specific names)"
      ∷ [];
  mod_apis =
      codes "Move Saves to local NVMe"
      ∷ codes "Increase save interval / avoid save spam commands"
      ∷ codes "EnableMapRendering=false"
      ∷ codes "Inspect APM io/vfs.bt.out openat paths + slow stacks"
      ∷ [];
}

abbrev pub rule_deco_sleepers : Rule
rule_deco_sleepers = record {
  id = codes "deco_sleepers";
  title = codes "Decoration / sleepers / block ticker";
  native_any = codes "DecoManager" ∷ codes "WaterSplashCubes" ∷ [];
  prof_sections =
      codes "DecoManager.UpdateTick"
      ∷ codes "World.TickSleeperVolumes"
      ∷ codes "WorldBlockTicker.Tick"
      ∷ codes "World.OnUpdateTick"
      ∷ codes "WaterSplashCubes.Update"
      ∷ [];
  csharp =
      codes "DecoManager.UpdateTick"
      ∷ codes "World.TickSleeperVolumes / SleeperVolume.Tick"
      ∷ codes "WorldBlockTicker.Tick"
      ∷ [];
  harmony_targets =
      codes "DecoManager.UpdateTick"
      ∷ codes "World.TickSleeperVolumes"
      ∷ codes "WorldBlockTicker.Tick"
      ∷ codes "World.OnUpdateTick"
      ∷ [];
  mod_apis =
      codes "EfficientServer DedicatedSkipPatch (music/splash/audio)"
      ∷ codes "Harmony: early-out DecoManager when no players nearby"
      ∷ codes "POI/sleeper density via XML if over-spawned"
      ∷ [];
}

abbrev pub rule_main_loop : Rule
rule_main_loop = record {
  id = codes "main_loop";
  title = codes "Main game loop";
  native_any =
      codes "PlayerLoop"
      ∷ codes "UnityMain"
      ∷ codes "RuntimeManager"
      ∷ codes "7DaysToDieServe"
      ∷ [];
  prof_sections =
      codes "GmUpdate"
      ∷ codes "GameManager.UpdateTick"
      ∷ codes "ThreadManager.UpdateMainThreadTasks"
      ∷ [];
  csharp =
      codes "GameManager.Update → gmUpdate" ∷ codes "GameManager.UpdateTick / FixedUpdate" ∷ [];
  harmony_targets =
      codes "GameManager.gmUpdate"
      ∷ codes "GameManager.Update"
      ∷ codes "GameManager.UpdateTick"
      ∷ [];
  mod_apis =
      codes "APM bridge snapshot for child section breakdown"
      ∷ codes "APM bridge sections already wrap gmUpdate children"
      ∷ codes "Remove expensive Prefix on gmUpdate from other mods"
      ∷ [];
}
