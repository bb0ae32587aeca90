-- ===== src/Bridge/Catalog/Simulation.antt =====
-- `RULES` of tools/apm_suite/analysis/catalog.py, entries gc_mono to ai_director.
use dtd_server_apm.Common.{[], ◌∷◌, codes}
use dtd_server_apm.Bridge.Rule.{Rule}

abbrev pub rule_gc_mono : Rule
rule_gc_mono = record {
  id = codes "gc_mono";
  title = codes "Mono / Boehm GC";
  native_any =
      codes "mono_gc_collect"
      ∷ codes "GC_gcollect"
      ∷ codes "GC_try_to_collect"
      ∷ codes "libmonobdwgc"
      ∷ codes "mono_gc_collect_a_little"
      ∷ codes "sgen_"
      ∷ [];
  prof_sections =
      codes "GmUpdate"
      ∷ codes "World.TickEntities"
      ∷ codes "EntityAlive.updateTasks"
      ∷ codes "DynamicMeshManager.Update"
      ∷ [];
  csharp =
      codes "System.GC pressure from managed allocations on the main sim thread"
      ∷ codes "Common alloc sites: LINQ in hot loops, string concat in AI, new List per tick"
      ∷ [];
  harmony_targets =
      codes "GameManager.gmUpdate"
      ∷ codes "World.TickEntities"
      ∷ codes "EntityAlive.updateTasks"
      ∷ codes "EntityAlive.OnUpdateLive"
      ∷ codes "EAIManager.Update"
      ∷ [];
  mod_apis =
      codes
        "EfficientServer: bridge `DeepMode` in Config/apmbridge.json → find which section correlates with GC"
      ∷ codes "Harmony: remove allocs in Prefix/Postfix on listed targets"
      ∷ codes "Pool List/Dictionary; avoid string.Format in entity tick"
      ∷ codes "XML: reduce entity count (MaxSpawnedZombies) to cut GC volume"
      ∷ [];
}

abbrev pub rule_entity_ai : Rule
rule_entity_ai = record {
  id = codes "entity_ai";
  title = codes "Entity AI / path follow";
  native_any =
      codes "PathFinder"
      ∷ codes "Astar"
      ∷ codes "ASPPath"
      ∷ codes "PathNavigate"
      ∷ codes "EntityMoveHelper"
      ∷ codes "UpdateMoveHelper"
      ∷ codes "FindPath"
      ∷ [];
  prof_sections =
      codes "World.TickEntities"
      ∷ codes "EntityAlive.updateTasks"
      ∷ codes "EAIManager.Update"
      ∷ codes "PathNavigate.UpdateNavigation"
      ∷ codes "EntityMoveHelper.UpdateMoveHelper"
      ∷ codes "EntityAlive.FindPath"
      ∷ codes "EAIApproachAndAttackTarget.Update"
      ∷ codes "ASPPathNavigate.GetPathTo"
      ∷ codes "ASPPathFinder.Calculate"
      ∷ codes "ASPPathNavigate.pathFollow"
      ∷ codes "AstarManager.UpdateGraphs"
      ∷ [];
  csharp =
      codes "EntityAlive.updateTasks → EAIManager.Update / UAI"
      ∷ codes "GamePath.PathFinderThread / AStar pathfinding"
      ∷ codes "World.TickEntities / TickEntity / EntityActivityUpdate (aiActiveScale)"
      ∷ [];
  harmony_targets =
      codes "EntityAlive.updateTasks"
      ∷ codes "EAIManager.Update"
      ∷ codes "World.TickEntities"
      ∷ codes "World.EntityActivityUpdate"
      ∷ codes "World.TickEntity"
      ∷ [];
  mod_apis =
      codes "EfficientServer AiLodPatch / UpdateTasksLodPatch (aiActiveScale, far skip)"
      ∷ codes "loadgen shutdown after tests; lower MaxSpawnedZombies in serverconfig"
      ∷ codes "Harmony postfix EntityActivityUpdate for custom LOD"
      ∷ codes
          "bridge `DeepMode` (Config/apmbridge.json) during horde to confirm EaiManagerUpdate cost"
      ∷ [];
}

abbrev pub rule_tick_entities : Rule
rule_tick_entities = record {
  id = codes "tick_entities";
  title = codes "World entity tick budget";
  native_any = codes "LetBlocksFall" ∷ codes "GroupFallingBlocks" ∷ codes "FallingBlock" ∷ [];
  prof_sections =
      codes "World.TickEntities"
      ∷ codes "World.TickEntitiesSlice"
      ∷ codes "World.TickEntitiesFlush"
      ∷ codes "World.TickEntity"
      ∷ codes "Entity.OnUpdateEntity"
      ∷ codes "EntityAlive.OnUpdateLive"
      ∷ codes "World.EntityActivityUpdate"
      ∷ codes "World.LetBlocksFall"
      ∷ codes "World.GroupFallingBlocks"
      ∷ codes "World.AddFallingBlock"
      ∷ codes "TrajectorySimulation.UpdateSimulationQueue"
      ∷ [];
  csharp =
      codes "World.TickEntities / TickEntitiesSlice / TickEntity"
      ∷ codes "World.EntityActivityUpdate (closest player, cloth/jiggle)"
      ∷ [];
  harmony_targets =
      codes "World.TickEntities"
      ∷ codes "World.TickEntitiesSlice"
      ∷ codes "World.TickEntity"
      ∷ codes "World.EntityActivityUpdate"
      ∷ [];
  mod_apis =
      codes "EfficientServer: aggressive AI LOD config (FullAiDistSq, FarScale)"
      ∷ codes "Skip cloth/jiggle on dedicated (SkipOnDedicated.ClothAndJiggle)"
      ∷ codes "serverconfig: MaxSpawnedZombies, MaxSpawnedAnimals"
      ∷ [];
}

abbrev pub rule_ai_director : Rule
rule_ai_director = record {
  id = codes "ai_director";
  title = codes "AIDirector / hordes";
  native_any = [];
  prof_sections =
      codes "AIDirector.Tick"
      ∷ codes "AIDirectorBloodMoonComponent.Tick"
      ∷ codes "SpawnManagerBiomes.SpawnUpdate"
      ∷ [];
  csharp =
      codes "AIDirector.Tick / ComponentsTick"
      ∷ codes "AIDirectorBloodMoonComponent"
      ∷ codes "SpawnManagerBiomes.SpawnUpdate"
      ∷ [];
  harmony_targets =
      codes "AIDirector.Tick"
      ∷ codes "SpawnManagerBiomes.SpawnUpdate"
      ∷ codes "World.OnUpdateTick"
      ∷ [];
  mod_apis =
      codes "Console: spawnhorde rate; gamestage XML"
      ∷ codes "Harmony: throttle SpawnUpdate when entity budget high"
      ∷ codes "sibling 7dtd-loadgen scenario only for synthetic load tests"
      ∷ [];
}
