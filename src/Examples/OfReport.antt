-- ===== src/Examples/OfReport.antt =====
-- The diagnosis of lag at a concrete session, with hundredths for floats and natural numbers for integers.
use dtd_server_apm.Common.{some, none, map, ◌/◌, true, ◌≡◌, refl, List, [], ◌∷◌, codes, ℕ}
use dtd_server_apm.Common.{nat_eq, list_eq, keep}
use dtd_server_apm.Common.Dict.{lookup, insert}
use dtd_server_apm.Common.Sort.{sorted, insert_sorted}
use dtd_server_apm.Io.Json.{Json, Fields, num, obj, end, field}
use dtd_server_apm.Examples.OfAnalysis.{hundredths, ordered}
use dtd_server_apm.Examples.OfBridge.{naturals}
use dtd_server_apm.Models.{as_number, get_or}
use dtd_server_apm.Report.Causes.{
  gc_pauses, subsystem_bound, causes_of, collected_signals, is_saturated, num0, int0,
  saturation_cause, gc_cause, main_thread_cause, disk_cause, memory_cause, starvation_cause,
  lock_cause, bandwidth_cause, subsystem_cause, signals_of, fired_if, severity_of, share_of_ticks,
  fd_growth, grew, growth_or_zero, is_disjoint, top_from, top_of, bound_by,
}
use dtd_server_apm.Report.Causes.{LayerScore}
use dtd_server_apm.Report.Pressure.{
  Conversions, apply_main_thread_pressure, apply_gc_pressure, apply_late_tick_pressure,
  apply_memory_trend, on_layer, with_main_thread, raised,
}
use dtd_server_apm.Report.Pressure.Raised.{AreRaised, pressure-AreRaised}
use dtd_server_apm.Report.Lag.{laggy_by, diagnose_lag, profile_of, judgement_of, tps_of}
use dtd_server_apm.Report.Lag.Named.{IsDiagnosis, diagnose_lag-IsDiagnosis}

abbrev laggy_metadata : Fields ℕ
laggy_metadata =
    field (codes "frame") (obj (field (codes "lateTicks") (num 5) end))
      (field (codes "gc") (obj (field (codes "fullCollections") (num 3) end)) end)

abbrev shares : List (Fields ℕ)
shares =
    field (codes "subsystem") (Json.str (codes "frame_core")) (field (codes "share") (num 1) end)
    ∷ (field (codes "subsystem") (Json.str (codes "network")) (field (codes "share") (num 1) end)
        ∷ [])

diagnose_lag-IsDiagnosis_example :
    IsDiagnosis hundredths naturals ordered
      (collected_signals hundredths naturals [] [])
      laggy_metadata
      end
      shares
      (diagnose_lag hundredths naturals [] laggy_metadata end shares)
diagnose_lag-IsDiagnosis_example =
    diagnose_lag-IsDiagnosis hundredths naturals ordered [] laggy_metadata end shares

-- The frame takes as much time as the network, but the network is named, before the collections.
network_named :
    (diagnose_lag hundredths naturals [] laggy_metadata end shares).judgement
    ≡ laggy_by (subsystem_bound (codes "network") ∷ (gc_pauses ∷ []))
unfolding diagnose_lag causes_of collected_signals profile_of judgement_of is_saturated tps_of
    sorted num0 int0 saturation_cause gc_cause main_thread_cause disk_cause memory_cause
    starvation_cause lock_cause bandwidth_cause subsystem_cause signals_of fired_if severity_of
    share_of_ticks fd_growth grew growth_or_zero is_disjoint top_from top_of bound_by lookup insert
    insert_sorted keep as_number get_or
network_named = refl

abbrev cpu_layers : List (LayerScore ℕ ℕ)
cpu_layers = record { layer = codes "cpu"; collected = true; score = some 4000; signals = end } ∷ []

abbrev conversions : Conversions ℕ ℕ ℕ
conversions = record {
  float = as_number hundredths;
  int = λ v. elim (as_number hundredths v) [ none ↦ none | some x ↦ some (x / 100) ];
  of_float = num;
  of_int = num;
}

pressure-AreRaised_example :
    AreRaised hundredths ordered
      (codes "cpu")
      cpu_layers
      (apply_main_thread_pressure hundredths naturals conversions cpu_layers (some 60) (some 9000))
    × AreRaised hundredths ordered
        (codes "runtime_gc")
        cpu_layers
        (apply_gc_pressure hundredths naturals conversions cpu_layers end)
    × AreRaised hundredths ordered
        (codes "app_sim")
        cpu_layers
        (apply_late_tick_pressure hundredths naturals conversions cpu_layers end)
    × AreRaised hundredths ordered
        (codes "memory_cache")
        cpu_layers
        (apply_memory_trend hundredths naturals conversions cpu_layers (some 100) (some 3))
pressure-AreRaised_example =
    pressure-AreRaised hundredths naturals conversions ordered cpu_layers (some 60) (some 9000)
      (some 100) end end (some 3)

-- A main thread at 90 percent of a core that carries most of the process.
cpu_score :
    map
      (λ l. l.score)
      (apply_main_thread_pressure hundredths naturals conversions cpu_layers (some 60) (some 9000))
    ≡ some 8500 ∷ []
unfolding apply_main_thread_pressure on_layer with_main_thread raised
cpu_score = refl
