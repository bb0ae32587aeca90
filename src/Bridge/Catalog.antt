-- ===== src/Bridge/Catalog.antt =====
-- The rules that match native frames and managed sections to systems of the game,
-- tools/apm_suite/analysis/catalog.py.
pub mod Simulation
pub mod Engine
pub mod World
use dtd_server_apm.Common.{List, [], ◌∷◌, Text, codes}
use dtd_server_apm.Bridge.Rule.{Rule}
use dtd_server_apm.Bridge.Catalog.Simulation.{
  rule_gc_mono, rule_entity_ai, rule_tick_entities, rule_ai_director,
}
use dtd_server_apm.Bridge.Catalog.Engine.{
  rule_dynamic_mesh, rule_network, rule_unity_jobs, rule_futex_lock,
}
use dtd_server_apm.Bridge.Catalog.World.{rule_blocking_io, rule_deco_sleepers, rule_main_loop}

abbrev pub rules : List Rule
rules =
    rule_gc_mono ∷ rule_entity_ai ∷ rule_tick_entities ∷ rule_ai_director ∷ rule_dynamic_mesh
    ∷ rule_network ∷ rule_unity_jobs ∷ rule_futex_lock ∷ rule_blocking_io ∷ rule_deco_sleepers
    ∷ rule_main_loop ∷ []

-- The types and the methods behind a section.
pub record Surface : Type 0 where
  pub types : List Text
  pub methods : List Text

abbrev pub section_to_csharp : List (Text × Surface)
section_to_csharp =
    (
      codes "GmUpdate",
      record { types = codes "GameManager" ∷ []; methods = codes "gmUpdate" ∷ codes "Update" ∷ [] },
    )
    ∷ (
      codes "UpdateTick",
      record { types = codes "GameManager" ∷ []; methods = codes "UpdateTick" ∷ [] },
    )
    ∷ (
      codes "OnUpdateTick",
      record { types = codes "World" ∷ []; methods = codes "OnUpdateTick" ∷ [] },
    )
    ∷ (
      codes "TickEntities",
      record {
        types = codes "World" ∷ [];
        methods = codes "TickEntities" ∷ codes "TickEntity" ∷ codes "TickEntitiesSlice" ∷ [];
      },
    )
    ∷ (
      codes "TickSleeperVolumes",
      record {
        types = codes "World" ∷ codes "SleeperVolume" ∷ [];
        methods = codes "TickSleeperVolumes" ∷ codes "Tick" ∷ [];
      },
    )
    ∷ (
      codes "EntityMoveHelper.UpdateMoveHelper",
      record { types = codes "EntityMoveHelper" ∷ []; methods = codes "UpdateMoveHelper" ∷ [] },
    )
    ∷ (
      codes "EntityAlive.FindPath",
      record {
        types = codes "EntityAlive" ∷ codes "GamePath.PathFinderThread" ∷ [];
        methods = codes "FindPath" ∷ [];
      },
    )
    ∷ (
      codes "NetEntityDistributionEntry.updatePlayerList",
      record {
        types = codes "NetEntityDistributionEntry" ∷ [];
        methods = codes "updatePlayerList" ∷ [];
      },
    )
    ∷ (
      codes "WaterSplashCubes.Update",
      record { types = codes "WaterSplashCubes" ∷ []; methods = codes "Update" ∷ [] },
    )
    ∷ (
      codes "World.LetBlocksFall",
      record {
        types = codes "World" ∷ [];
        methods = codes "LetBlocksFall" ∷ codes "GroupFallingBlocks" ∷ [];
      },
    )
    ∷ (
      codes "World.GroupFallingBlocks",
      record { types = codes "World" ∷ []; methods = codes "GroupFallingBlocks" ∷ [] },
    )
    ∷ (
      codes "World.TickEntitiesSlice",
      record {
        types = codes "World" ∷ [];
        methods = codes "TickEntitiesSlice" ∷ codes "TickEntity" ∷ [];
      },
    )
    ∷ (
      codes "World.TickEntity",
      record { types = codes "World" ∷ []; methods = codes "TickEntity" ∷ [] },
    )
    ∷ (
      codes "EntityAlive.OnUpdateLive",
      record {
        types = codes "EntityAlive" ∷ [];
        methods = codes "OnUpdateLive" ∷ codes "updateTasks" ∷ [];
      },
    )
    ∷ (
      codes "ThreadManager.UpdateMainThreadTasks",
      record { types = codes "ThreadManager" ∷ []; methods = codes "UpdateMainThreadTasks" ∷ [] },
    )
    ∷ (
      codes "ChunkProviderGenerateWorld.SaveRandomChunks",
      record {
        types = codes "ChunkProviderGenerateWorld" ∷ [];
        methods = codes "SaveRandomChunks" ∷ [];
      },
    )
    ∷ (
      codes "EAIApproachAndAttackTarget.Update",
      record { types = codes "EAIApproachAndAttackTarget" ∷ []; methods = codes "Update" ∷ [] },
    )
    ∷ (
      codes "ASPPathFinder.Calculate",
      record {
        types = codes "GamePath.ASPPathFinder" ∷ codes "GamePath.ASPPathFinderThread" ∷ [];
        methods = codes "Calculate" ∷ codes "GetPathTo" ∷ [];
      },
    )
    ∷ (
      codes "ASPPathNavigate.pathFollow",
      record { types = codes "GamePath.ASPPathNavigate" ∷ []; methods = codes "pathFollow" ∷ [] },
    )
    ∷ (
      codes "World.AddFallingBlock",
      record { types = codes "World" ∷ []; methods = codes "AddFallingBlock" ∷ [] },
    )
    ∷ []
