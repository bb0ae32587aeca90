-- ===== src/Prometheus.antt =====
-- `_prom_label` and `export_metrics` of tools/apm_suite/prometheus.py. The text of a number in a format is
-- a parameter of the floats; the result is the lines that are joined and written.
pub mod Labels
pub mod Exposition
use dtd_server_apm.Common.{
  ℕ, Bool, true, false, not, ◌&&◌, List, [], ◌∷◌, ◌++◌, Option, none, some, Text, codes, nat_eq,
  list_eq, ◌=?◌, ◌==◌, if◌then◌else◌,
}
use dtd_server_apm.Io.Json.{Json, Fields, null, str, obj, end, field}
use dtd_server_apm.Models.{
  get, get_or, as_mapping, object_list, is_null, as_number, or_zero, truthy, text_of,
  layer_is_collected, layer_signals,
}
use dtd_server_apm.Models.Numbers.{Floats}

-- `text.replace(old, new)` for an `old` of one character.
pub replace_with : ℕ → Text → Text → Text
replace_with old new [] = []
replace_with old new (c ∷ s) =
    let rest = replace_with old new s in if c == old then new ++ rest else c ∷ rest

pub prom_label : Text → Text
unfolding replace_with
prom_label value = replace_with 0x0d (codes "\\r") (
    replace_with 0x0a (codes "\\n")
      (replace_with b'"' (codes "\\\"") (replace_with b'\\' (codes "\\\\") value)))

-- A document that a session may have: not there, not readable as an object, or an object.
pub data Document (N : Type 0) : Type 0 where
  absent unreadable : Document N
  readable : Fields N → Document N

pub data MetricError : Type 0 where
  no_summary unreadable_summary unreadable_health unreadable_bridge : MetricError

pub data Exported : Type 0 where
  failed : MetricError → Exported
  exported : List Text → Exported

module _ {N F : Type 0} (fl : Floats N F) where
  open fl use {format}

  -- `name{label="value"} number`.
  pub sample : Text → Text → Text → Text → Text
  unfolding prom_label
  sample name label value number =
      name
      ++ (codes "{" ++ (label ++ (codes "=\"" ++ (prom_label value ++ (codes "\"} " ++ number)))))

  pub layer_line : Fields N → Option F → List Text
  layer_line layer none = []
  layer_line layer (some score) =
      if layer_is_collected layer
      then sample (codes "sevendtd_apm_layer_pressure") (codes "layer")
          (text_of fl (get_or (str (codes "unknown")) layer (codes "layer")))
          (format score (codes ".6f"))
        ∷ []
      else []

  pub layer_lines : List (Fields N) → List Text
  unfolding layer_line as_number
  layer_lines [] = []
  layer_lines (layer ∷ layers) =
      layer_line layer (as_number fl (get layer (codes "score"))) ++ layer_lines layers

  -- A gauge without labels, where its number is there.
  pub gauge : Text → Text → Option F → List Text
  gauge name spec none = []
  gauge name spec (some x) =
      (codes "# TYPE " ++ (name ++ codes " gauge")) ∷ (name ++ (codes " " ++ format x spec)) ∷ []

  pub subsystem_line : Json N → Option F → List Text
  subsystem_line subsystem none = []
  subsystem_line subsystem (some scaled) =
      if is_null subsystem
      then []
      else sample (codes "sevendtd_apm_subsystem_ms") (codes "subsystem") (text_of fl subsystem)
          (format scaled (codes ".3f"))
        ∷ []

  pub subsystem_rows : List (Fields N) → List Text
  unfolding subsystem_line as_number
  subsystem_rows [] = []
  subsystem_rows (entry ∷ entries) =
      subsystem_line (get entry (codes "subsystem"))
        (as_number fl (get entry (codes "scaled_total_ms")))
      ++ subsystem_rows entries

  pub subsystem_lines : List (Fields N) → List Text
  unfolding subsystem_rows
  subsystem_lines [] = []
  subsystem_lines (entry ∷ entries) =
      codes "# HELP sevendtd_apm_subsystem_ms Window-scoped managed time per subsystem."
      ∷ codes "# TYPE sevendtd_apm_subsystem_ms gauge"
      ∷ subsystem_rows (entry ∷ entries)

  pub cause_rows : List (Fields N) → List Text
  unfolding as_number
  cause_rows [] = []
  cause_rows (cause ∷ causes) =
      sample (codes "sevendtd_apm_lag_cause_severity") (codes "cause")
        (text_of fl (get_or (str (codes "unknown")) cause (codes "cause")))
        (format (or_zero fl (as_number fl (get cause (codes "severity")))) (codes ".3f"))
      ∷ cause_rows causes

  pub cause_lines : List (Fields N) → List Text
  unfolding cause_rows
  cause_lines [] = []
  cause_lines (cause ∷ causes) =
      codes "# HELP sevendtd_apm_lag_cause_severity Per-cause lag severity (0-1)."
      ∷ codes "# TYPE sevendtd_apm_lag_cause_severity gauge"
      ∷ cause_rows (cause ∷ causes)

  pub lag_lines : Fields N → List Text
  unfolding cause_lines object_list get_or
  lag_lines end = []
  lag_lines (field k v fs) =
      let lag = field k v fs in
      codes "# HELP sevendtd_apm_laggy 1 when the server missed its tick deadline."
      ∷ codes "# TYPE sevendtd_apm_laggy gauge"
      ∷ (codes "sevendtd_apm_laggy "
          ++ (if truthy fl (get lag (codes "laggy")) then codes "1" else codes "0"))
      ∷ cause_lines (object_list (get lag (codes "causes")))

  pub pause_lines : Fields N → Option F → List Text
  unfolding as_number
  pause_lines gc_layer none = []
  pause_lines gc_layer (some worst) =
      gauge (codes "sevendtd_apm_gc_stw_worst_ms") (codes ".3f") (some worst)
      ++ gauge (codes "sevendtd_apm_gc_stw_total_ms") (codes ".3f")
          (some (or_zero fl (as_number fl (get gc_layer (codes "stw_pause_total_ms")))))

  -- The health of its own document, or that of the summary where this is empty.
  pub health_of : Fields N → Fields N → Fields N
  health_of end summary = as_mapping (get summary (codes "health"))
  health_of (field k v fs) summary = field k v fs

  -- The lines, of the summary, the health document and the attribution of the bridge.
  pub lines_of : Fields N → Fields N → Fields N → List Text
  unfolding health_of
  lines_of summary health attribution =
      let metadata = as_mapping (get summary (codes "metadata")) in
      let gc = as_mapping (get metadata (codes "gc")) in
      let gc_layer = layer_signals summary (codes "runtime_gc") in
      codes "# HELP sevendtd_apm_layer_pressure Layer pressure from a collected APM layer."
      ∷ codes "# TYPE sevendtd_apm_layer_pressure gauge"
      ∷ (layer_lines (object_list (get summary (codes "layers")))
          ++ (gauge (codes "sevendtd_apm_coverage") (codes ".6f")
                (as_number fl (get (health_of health summary) (codes "coverage")))
              ++ (subsystem_lines (object_list (get attribution (codes "subsystems")))
                  ++ (lag_lines (as_mapping (get metadata (codes "lag_diagnosis")))
                      ++ (gauge (codes "sevendtd_apm_late_ticks") (codes "int") (
                            as_number fl
                              (get (as_mapping (get metadata (codes "frame"))) (codes "lateTicks")))
                          ++ (gauge (codes "sevendtd_apm_alloc_mb_per_second") (codes ".3f")
                                (as_number fl (get gc (codes "allocMBPerSecond")))
                              ++ (gauge (codes "sevendtd_apm_gross_alloc_mb_per_second")
                                    (codes ".3f")
                                    (as_number fl (get gc (codes "grossAllocMBPerSecond")))
                                  ++ (pause_lines gc_layer
                                        (as_number fl (get gc_layer (codes "stw_pause_worst_ms")))
                                      ++ gauge (codes "sevendtd_apm_udp_send_mb_per_second")
                                          (codes ".3f")
                                          (as_number fl (
                                            get (as_mapping (get metadata (codes "net")))
                                              (codes "udp_send_mb_per_second")))))))))))

  pub with_bridge : Fields N → Fields N → Document N → Exported
  unfolding lines_of
  with_bridge summary health absent = exported (lines_of summary health end)
  with_bridge summary health unreadable = failed unreadable_bridge
  with_bridge summary health (readable bridge) =
      exported (lines_of summary health (as_mapping (get bridge (codes "attribution"))))

  pub with_health : Fields N → Document N → Document N → Exported
  unfolding with_bridge
  with_health summary absent bridge = with_bridge summary end bridge
  with_health summary unreadable bridge = failed unreadable_health
  with_health summary (readable health) bridge = with_bridge summary health bridge

  pub export_metrics : Document N → Document N → Document N → Exported
  unfolding with_health
  export_metrics absent health bridge = failed no_summary
  export_metrics unreadable health bridge = failed unreadable_summary
  export_metrics (readable summary) health bridge = with_health summary health bridge
