-- ===== src/Budget.antt =====
-- `check` and `check_budget` of tools/apm_suite/analysis/budget.py. A line of the report is a constructor
-- in place of its text. The section heats, which another module ranks, are an argument without the
-- unknown ones, as `load_sections` drops them.
pub mod Verdict
pub mod Bounds
use dtd_server_apm.Common.{
  ℕ, Bool, true, false, not, ◌&&◌, List, [], ◌∷◌, ◌++◌, Option, none, some, Text, codes, nat_eq,
  list_eq, ◌=?◌, if◌then◌else◌, map, all,
}
use dtd_server_apm.Common.Dict.{lookup, contains}
use dtd_server_apm.Io.Json.{Json, Fields, null, num, str, obj, end, field, to_pairs}
use dtd_server_apm.Models.{get, get_or, as_mapping, as_number, is_null, collected_layer_scores}
use dtd_server_apm.Models.Numbers.{Floats}

pub data Label : Type 0 where
  layer section rate : Text → Label
  sum_layers : Label

pub data Line (F : Type 0) : Type 0 where
  within exceeds : Label → F → F → Line F
  unparseable_limit : Label → Line F
  no_evidence : Text → Line F
  skip_section : Text → Line F
  coverage_differs : Line F
  stable regressed : Text → F → F → Line F
  skip_rate : Text → Line F
  unparseable_rate : Text → Line F
  skip_late : Line F
  unparseable_late : Line F
  unparseable_late_limit : Line F
  late_within late_exceeds : F → F → Line F

-- The two variables of `check`.
pub record Report (F : Type 0) : Type 0 where
  pub ok : Bool
  pub lines : List (Line F)

module _ {F : Type 0} where
  abbrev pub note : Line F → Report F → Report F
  note line r = record r { lines = r.lines ++ line ∷ [] }

  abbrev pub fail_with : Line F → Report F → Report F
  fail_with line r = record { ok = false; lines = r.lines ++ line ∷ [] }

-- `DEFAULT_BUDGET`; `literal` is the number with so many hundredths.
abbrev pub limits : {N : Type 0} → (ℕ → N) → List (Text × ℕ) → Fields N
limits literal [] = end
limits literal ((name, n) ∷ rows) = field name (num (literal n)) (limits literal rows)

abbrev pub default_budget : {N : Type 0} → (ℕ → N) → Fields N
default_budget literal = field (codes "schema") (str (codes "7dtd.apm.budget.v2")) (
    field (codes "max_layer_scores")
      (obj (
        limits literal (
          (codes "sync_locks", 7000)
          ∷ (codes "runtime_gc", 6000)
          ∷ (codes "cpu", 5000)
          ∷ (codes "io", 5000)
          ∷ (codes "memory_cache", 5000)
          ∷ (codes "scheduler", 5000)
          ∷ (codes "app_sim", 6000)
          ∷ [])))
      (field (codes "max_sum_layer_score") (num (literal 25_000)) (
        field (codes "max_late_tick_share") (num (literal 5)) (
          field (codes "max_gross_alloc_mb_per_second") (num (literal 1500)) (
            field (codes "max_udp_send_mb_per_second") (num (literal 3000)) (
              field (codes "max_section_heat")
                (obj (
                  limits literal (
                    (codes "World.TickEntities", 2000)
                    ∷ (codes "EntityAlive.updateTasks", 500)
                    ∷ (codes "EAIManager.Update", 500)
                    ∷ (codes "PathNavigate.UpdateNavigation", 500)
                    ∷ (codes "DynamicMeshManager.Update", 800)
                    ∷ [])))
                (field (codes "notes")
                  (str (codes "Managed limits use p95Ms when available, otherwise avgMs."))
                  end)))))))

module _ {N F : Type 0} (fl : Floats N F) where
  open fl use {lt, plus_float, sub, div, zero_float}

  -- `gate`, given the limit as a number or none.
  unfoldable pub gate_at : Label → F → Option F → Report F → Report F
  gate_at label value none r = fail_with (unparseable_limit label) r
  gate_at label value (some bound) r =
      if lt bound value
      then fail_with (exceeds label value bound) r
      else note (within label value bound) r

  unfoldable pub gate : Label → F → Json N → Report F → Report F
  unfolding gate_at as_number
  gate label value limit r = gate_at label value (as_number fl limit) r

  -- The two loops over budgeted names, with the score of the name if it has one.
  unfoldable pub gate_layer : Text → Json N → Option F → Report F → Report F
  unfolding gate
  gate_layer name limit none r = fail_with (no_evidence name) r
  gate_layer name limit (some value) r = gate (layer name) value limit r

  unfoldable pub gate_layers : List (Text × F) → List (Text × Json N) → Report F → Report F
  unfolding gate_layer lookup
  gate_layers layers [] r = r
  gate_layers layers ((name, limit) ∷ rows) r =
      gate_layers layers rows (gate_layer name limit (lookup name layers) r)

  pub gate_section : Text → Json N → Option F → Report F → Report F
  unfolding gate
  gate_section name limit none r = note (skip_section name) r
  gate_section name limit (some value) r = gate (section name) value limit r

  unfoldable pub gate_sections : List (Text × F) → List (Text × Json N) → Report F → Report F
  unfolding gate_section lookup
  gate_sections sections [] r = r
  gate_sections sections ((name, limit) ∷ rows) r =
      gate_sections sections rows (gate_section name limit (lookup name sections) r)

  pub sum_floats : F → List (Text × F) → F
  sum_floats total [] = total
  sum_floats total ((name, x) ∷ rows) = sum_floats (plus_float total x) rows

  unfoldable pub gate_sum : List (Text × F) → Json N → Report F → Report F
  unfolding gate sum_floats
  gate_sum layers limit r =
      if is_null limit then r else gate sum_layers (sum_floats zero_float layers) limit r

  -- `layers[name]`, which is there where the sets of names are equal.
  pub compare_layer : F → Text → F → Option F → Report F → Report F
  compare_layer max_regression name base none r = r
  compare_layer max_regression name base (some value) r =
      if lt max_regression (sub value base)
      then fail_with (regressed name base value) r
      else note (stable name base value) r

  pub compare_layers : F → List (Text × F) → List (Text × F) → Report F → Report F
  unfolding compare_layer lookup
  compare_layers max_regression layers [] r = r
  compare_layers max_regression layers ((name, base) ∷ rows) r =
      compare_layers max_regression layers rows
        (compare_layer max_regression name base (lookup name layers) r)

  abbrev pub names_of : List (Text × F) → List Text
  names_of layers = map (λ e. e.0) layers

  -- `set(base_layers) == set(layers)`.
  unfoldable pub same_names : List (Text × F) → List (Text × F) → Bool
  unfolding contains
  same_names base layers =
      all (λ n. contains (names_of layers) n) (names_of base)
      && all (λ n. contains (names_of base) n) (names_of layers)

  unfoldable pub compare_baseline :
      F → List (Text × F) → Option (List (Text × F)) → Report F → Report F
  unfolding compare_layers same_names
  compare_baseline max_regression layers none r = r
  compare_baseline max_regression layers (some base) r =
      if not (same_names base layers)
      then fail_with coverage_differs r
      else compare_layers max_regression layers base r

  -- One of the two rates: the limit, the value, and the value as a number.
  pub gate_number : Text → Json N → Option F → Report F → Report F
  unfolding gate
  gate_number key limit none r = fail_with (unparseable_rate key) r
  gate_number key limit (some number) r = gate (rate key) number limit r

  unfoldable pub gate_rate : Text → Json N → Json N → Report F → Report F
  unfolding gate_number as_number
  gate_rate key limit value r =
      if is_null limit
      then r
      else if is_null value
      then note (skip_rate key) r
      else gate_number key limit (as_number fl value) r

  pub gate_share : F → F → Option F → Report F → Report F
  gate_share late window none r = fail_with unparseable_late_limit r
  gate_share late window (some bound) r =
      if lt bound (div late window)
      then fail_with (late_exceeds late window) r
      else note (late_within late window) r

  pub gate_late_numbers : Json N → Option F → Option F → Report F → Report F
  unfolding gate_share as_number
  gate_late_numbers limit (some late) (some window) r =
      if lt zero_float window
      then gate_share late window (as_number fl limit) r
      else note skip_late r
  gate_late_numbers limit none window r = fail_with unparseable_late r
  gate_late_numbers limit (some late) none r = fail_with unparseable_late r

  unfoldable pub gate_late : Json N → Fields N → Report F → Report F
  unfolding gate_late_numbers get_or as_number
  gate_late limit frame r =
      if is_null limit
      then r
      else if is_null (get frame (codes "lateTicks")) && is_null (get frame (codes "windowUpdates"))
      then note skip_late r
      else gate_late_numbers limit (as_number fl (get frame (codes "lateTicks")))
          (as_number fl (get frame (codes "windowUpdates"))) r

  unfoldable pub check :
      Fields N → List (Text × F) → Fields N → Option (List (Text × F)) → F → Report F
  check summary sections budget baseline max_regression =
      let layers = collected_layer_scores fl summary in
      let metadata = as_mapping (get summary (codes "metadata")) in
      let r1 =
        gate_layers layers (to_pairs (as_mapping (get budget (codes "max_layer_scores"))))
          (record { ok = true; lines = [] }) in
      let r2 = gate_sum layers (get budget (codes "max_sum_layer_score")) r1 in
      let r3 =
        gate_sections sections (to_pairs (as_mapping (get budget (codes "max_section_heat")))) r2 in
      let r4 = compare_baseline max_regression layers baseline r3 in
      let r5 =
        gate_rate (codes "max_gross_alloc_mb_per_second")
          (get budget (codes "max_gross_alloc_mb_per_second"))
          (get (as_mapping (get metadata (codes "gc"))) (codes "grossAllocMBPerSecond")) r4 in
      let r6 =
        gate_rate (codes "max_udp_send_mb_per_second")
          (get budget (codes "max_udp_send_mb_per_second"))
          (get (as_mapping (get metadata (codes "net"))) (codes "udp_send_mb_per_second")) r5 in
      gate_late (get budget (codes "max_late_tick_share"))
        (as_mapping (get metadata (codes "frame"))) r6

-- The budget that a run is given: none for the default, a file that is not there, and one that decodes
-- to a document or does not.
pub data BudgetFile (N : Type 0) : Type 0 where
  default_file missing_file : BudgetFile N
  loaded_file : Option (Json N) → BudgetFile N

pub data BudgetError : Type 0 where
  does_not_exist not_json not_object : BudgetError

pub data Budgeted (N : Type 0) : Type 0 where
  refuses : BudgetError → Budgeted N
  budgeted : Fields N → Budgeted N

pub choose_budget : {N : Type 0} → (ℕ → N) → BudgetFile N → Budgeted N
choose_budget literal default_file = budgeted (default_budget literal)
choose_budget literal missing_file = refuses does_not_exist
choose_budget literal (loaded_file none) = refuses not_json
choose_budget literal (loaded_file (some (obj fs))) = budgeted fs
choose_budget literal (loaded_file (some v)) = refuses not_object
