-- ===== src/Bridge/Subsystems.antt =====
-- The tables of tools/apm_suite/analysis/bridge.py that place a section of the game in a subsystem or a
-- drill-down.
use dtd_server_apm.Common.{
  Bool, ◌&&◌, ◌||◌, List, [], ◌∷◌, Option, none, some, Text, codes, ◌=?◌, nat_eq, list_eq,
  if◌then◌else◌, any, starts_with,
}
use dtd_server_apm.Session.Review.{ends_with}

-- `SUBSYSTEMS`.
abbrev pub subsystems : List (Text × List Text)
subsystems =
    (
      codes "entity_tick",
      codes "World.TickEntities"
          ∷ codes "World.TickEntitiesSlice"
          ∷ codes "World.TickEntitiesFlush"
          ∷ codes "World.EntityActivityUpdate"
          ∷ [],
    )
    ∷ (
      codes "spawn_director",
      codes "SpawnManagerBiomes."
          ∷ codes "AIDirector."
          ∷ codes "AIDirectorBloodMoonComponent."
          ∷ [],
    )
    ∷ (codes "mesh", codes "DynamicMeshManager." ∷ codes "DynamicMeshServer." ∷ [])
    ∷ (
      codes "deco_world",
      codes "DecoManager."
          ∷ codes "WaterSplashCubes."
          ∷ codes "WorldBlockTicker."
          ∷ codes "World.TickSleeperVolumes"
          ∷ [],
    )
    ∷ (
      codes "falling_blocks",
      codes "World.AddFallingBlock"
          ∷ codes "World.LetBlocksFall"
          ∷ codes "World.GroupFallingBlocks"
          ∷ codes "TrajectorySimulation."
          ∷ [],
    )
    ∷ (
      codes "explosions",
      codes "GameManager.ExplosionServer"
          ∷ codes "GameManager.explode"
          ∷ codes "GameManager.ExplodeGroupFrameUpdate"
          ∷ [],
    )
    ∷ (
      codes "network",
      codes "NetConnectionSimple.FlushSendQueue"
          ∷ codes "NetPackageChunk."
          ∷ codes "NetPackageMapChunks."
          ∷ codes "NetPackageWorldFolder."
          ∷ codes "NetEntityDistribution."
          ∷ codes "ConnectionManager."
          ∷ [],
    )
    ∷ (
      codes "io_saves",
      codes "GameManager.Save"
          ∷ codes "World.SaveWorldState"
          ∷ codes "ChunkProviderGenerateWorld."
          ∷ codes "ChunkManager."
          ∷ [],
    )
    ∷ (
      codes "managers",
      codes "VehicleManager."
          ∷ codes "DroneManager."
          ∷ codes "PowerManager."
          ∷ codes "GameEventManager."
          ∷ codes "QuestEventManager."
          ∷ codes "NavObjectManager."
          ∷ codes "FactionManager."
          ∷ codes "TurretTracker."
          ∷ codes "ThreadManager."
          ∷ [],
    )
    ∷ (
      codes "frame_core",
      codes "GameManager.UpdateTick" ∷ codes "World.OnUpdateTick" ∷ codes "GmUpdate" ∷ [],
    )
    ∷ []

-- `DRILLDOWN`.
abbrev pub drilldown : List (Text × List Text)
drilldown =
    (codes "tick_entity", codes "World.TickEntity" ∷ [])
    ∷ (codes "on_update_entity", codes "Entity.OnUpdateEntity" ∷ [])
    ∷ (codes "on_update_live", codes "EntityAlive.OnUpdateLive" ∷ [])
    ∷ (
      codes "ai_decide",
      codes "EntityAlive.updateTasks"
          ∷ codes "EAIManager."
          ∷ codes "EAIApproachAndAttackTarget."
          ∷ [],
    )
    ∷ (codes "movement", codes "EntityMoveHelper." ∷ codes "ASPPathNavigate.pathFollow" ∷ [])
    ∷ (
      codes "pathfinding",
      codes "EntityAlive.FindPath"
          ∷ codes "ASPPathNavigate.GetPathTo"
          ∷ codes "ASPPathFinder."
          ∷ codes "AstarManager."
          ∷ [],
    )
    ∷ (codes "net_interest", codes "NetEntityDistributionEntry.updatePlayerList" ∷ [])
    ∷ []

-- `DEEP_SECTION_NAMES`.
abbrev pub deep_section_names : List Text
deep_section_names =
    codes "EntityAlive.updateTasks"
    ∷ codes "EAIManager.Update"
    ∷ codes "PathNavigate.UpdateNavigation"
    ∷ codes "ASPPathNavigate.UpdateNavigation"
    ∷ codes "EntityMoveHelper.UpdateMoveHelper"
    ∷ codes "EntityAlive.FindPath"
    ∷ codes "NetEntityDistributionEntry.updatePlayerList"
    ∷ codes "World.TickEntity"
    ∷ codes "Entity.OnUpdateEntity"
    ∷ codes "EntityAlive.OnUpdateLive"
    ∷ codes "ASPPathNavigate.GetPathTo"
    ∷ codes "ASPPathFinder.Calculate"
    ∷ codes "ASPPathNavigate.pathFollow"
    ∷ codes "EAIApproachAndAttackTarget.Update"
    ∷ []

-- The buckets whose sections run inside the tick.
abbrev pub nested : List Text
nested =
    codes "entity_tick"
    ∷ codes "spawn_director"
    ∷ codes "deco_world"
    ∷ codes "falling_blocks"
    ∷ codes "explosions"
    ∷ codes "io_saves"
    ∷ []

-- `_matches`.
unfoldable pub matches : Text → Text → Bool
unfolding ends_with starts_with
matches name pattern = name =? pattern || ends_with pattern (codes ".") && starts_with name pattern

-- The first entry of a table with a pattern that a name matches.
unfoldable pub first_match : Text → List (Text × List Text) → Option Text
unfolding matches
first_match name [] = none
first_match name ((key, patterns) ∷ rules) =
    let rest = first_match name rules in
    if any (λ pattern. matches name pattern) patterns then some key else rest

-- Where the time of a section is counted.
pub data Place : Type 0 where
  in_drilldown : Text → Place
  in_subsystem : Text → Place
  nowhere : Place

unfoldable pub subsystem_place : Option Text → Place
subsystem_place none = nowhere
subsystem_place (some key) = in_subsystem key

unfoldable pub drilldown_place : Text → Option Text → Place
unfolding subsystem_place first_match
drilldown_place name none = subsystem_place (first_match name subsystems)
drilldown_place name (some key) = in_drilldown key

unfoldable pub place_of : Text → Place
unfolding drilldown_place
place_of name = drilldown_place name (first_match name drilldown)
