-- ===== src/Bridge/Catalog/Engine.antt =====
-- `RULES` of tools/apm_suite/analysis/catalog.py, entries dynamic_mesh to futex_lock.
use dtd_server_apm.Common.{[], ◌∷◌, codes}
use dtd_server_apm.Bridge.Rule.{Rule}

abbrev pub rule_dynamic_mesh : Rule
rule_dynamic_mesh = record {
  id = codes "dynamic_mesh";
  title = codes "Dynamic mesh / imposters";
  native_any = codes "DynamicMesh" ∷ [];
  prof_sections = codes "DynamicMeshManager.Update" ∷ codes "DynamicMeshServer.Update" ∷ [];
  csharp =
      codes "DynamicMeshManager.Update"
      ∷ codes "DynamicMeshServer.Update"
      ∷ codes "DynamicMeshSettings (OnlyPlayerAreas, MaxRegionLoadMsPerFrame)"
      ∷ [];
  harmony_targets = codes "DynamicMeshManager.Update" ∷ codes "DynamicMeshServer.Update" ∷ [];
  mod_apis =
      codes
        "EfficientServer DynamicMeshBudgetPatch (OnlyPlayerAreas, MaxRegionLoadMsPerFrame, MaxActiveSyncs)"
      ∷ codes "serverconfig: MaxQueuedMeshLayers"
      ∷ codes "Disable map tile rendering (EnableMapRendering=false)"
      ∷ [];
}

abbrev pub rule_network : Rule
rule_network = record {
  id = codes "network";
  title = codes "Networking / LiteNetLib";
  native_any =
      codes "LiteNetLib"
      ∷ codes "tcp_sendmsg"
      ∷ codes "tcp_recvmsg"
      ∷ codes "Socket"
      ∷ codes "NetworkServer"
      ∷ codes "ConnectionManager"
      ∷ codes "NetEntityDistribution"
      ∷ [];
  prof_sections =
      codes "ConnectionManager.Update"
      ∷ codes "ConnectionManager.LateUpdate"
      ∷ codes "NetConnectionSimple.FlushSendQueue"
      ∷ codes "NetEntityDistributionEntry.updatePlayerList"
      ∷ [];
  csharp =
      codes "ConnectionManager.Update / ProcessPackages"
      ∷ codes "NetPackage* serialization"
      ∷ codes "NetworkServerLiteNetLib"
      ∷ [];
  harmony_targets =
      codes "ConnectionManager.Update" ∷ codes "ConnectionManager.ProcessPackages" ∷ [];
  mod_apis =
      codes "Reduce player count / package spam mods"
      ∷ codes "ServerDisabledNetworkProtocols=SteamNetworking when port-forwarded"
      ∷ codes "FakeClients only for net soak tests; sim lag is usually AI not LNL"
      ∷ [];
}

abbrev pub rule_unity_jobs : Rule
rule_unity_jobs = record {
  id = codes "unity_jobs";
  title = codes "Unity job workers";
  native_any =
      codes "Job.Worker" ∷ codes "JobQueue" ∷ codes "Background Job" ∷ codes "Worker Thread" ∷ [];
  prof_sections =
      codes "GmUpdate" ∷ codes "DynamicMeshManager.Update" ∷ codes "World.OnUpdateTick" ∷ [];
  csharp =
      codes "Unity job system / Burst jobs (native)"
      ∷ codes "Often mesh, physics, or path-adjacent work"
      ∷ [];
  harmony_targets =
      codes "DynamicMeshManager.Update"
      ∷ codes "ChunkManager methods"
      ∷ codes "World.OnUpdateTick"
      ∷ [];
  mod_apis =
      codes "Lower mesh generation rate (DynamicMesh settings)"
      ∷ codes "MaxQueuedMeshLayers; ServerMaxAllowedViewDistance"
      ∷ codes "Correlate job CPU% in APM threads/ with managed bridge DynamicMesh*"
      ∷ [];
}

abbrev pub rule_futex_lock : Rule
rule_futex_lock = record {
  id = codes "futex_lock";
  title = codes "Lock / futex contention";
  native_any =
      codes "futex"
      ∷ codes "pthread_mutex"
      ∷ codes "pthread_cond"
      ∷ codes "Monitor.Enter"
      ∷ codes "mono_monitor"
      ∷ codes "mono_locks"
      ∷ codes "lock_internal"
      ∷ [];
  prof_sections =
      codes "GmUpdate"
      ∷ codes "World.TickEntities"
      ∷ codes "ConnectionManager.Update"
      ∷ codes "DynamicMeshManager.Update"
      ∷ [];
  csharp =
      codes "Managed lock (lock/Monitor) or native mutex under Mono/Unity"
      ∷ codes "Often GC STW, thread pool, or net package queues"
      ∷ [];
  harmony_targets =
      codes "GameManager.gmUpdate"
      ∷ codes "ConnectionManager.Update"
      ∷ codes "ThreadManager.UpdateMainThreadTasks"
      ∷ [];
  mod_apis =
      codes "Host APM: open sync/futex.bt.out waiter stacks"
      ∷ codes "If stacks show mono_gc_* → fix allocations (see gc_mono)"
      ∷ codes "Avoid blocking IO inside Harmony on main thread"
      ∷ codes
          "Do not hold locks across SpawnEntityInWorld storms generated by a controlled scenario"
      ∷ [];
}
