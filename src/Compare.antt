-- ===== src/Compare.antt =====
-- `compare_sessions` of tools/apm_suite/analysis/compare.py with its helpers. The documents of the two
-- sessions are given as they were read; Python's `==` of decoded values and `int` of a float are
-- parameters.
pub mod Gates
pub mod Pairs
use dtd_server_apm.Common.{
  ℕ, ◌+◌, Bool, true, false, not, ◌&&◌, ◌||◌, List, [], ◌∷◌, ◌++◌, Option, none, some, Text, codes,
  ◌=?◌, nat_eq, list_eq, if◌then◌else◌, map, all, keep, split, strip,
}
use dtd_server_apm.Common.Dict.{lookup, insert, contains}
use dtd_server_apm.Common.Order.{text_lt}
use dtd_server_apm.Common.Sort.{sorted}
use dtd_server_apm.Io.Json.{Json, Fields, to_pairs}
use dtd_server_apm.Models.{
  get, as_mapping, object_list, as_number, or_zero, first_present, truthy, text_of, layer_signals,
  effective_seconds, collected_layer_scores,
}
use dtd_server_apm.Models.Numbers.{Floats, max_float}
use dtd_server_apm.Budget.{same_names, sum_floats, names_of}
use dtd_server_apm.Bridge.Heats.{ranked_section_heats}

pub data Side : Type 0 where
  side_a side_b : Side

-- The field "better" of a row.
pub data Better : Type 0 where
  a_better b_better tie not_comparable : Better

-- What makes two sessions incomparable, in place of the message of the `ValueError`.
pub data Incompatible (F : Type 0) : Type 0 where
  layer_coverage : List Text → List Text → Incompatible F
  analyzer_versions collector_selection one_workload workloads_differ : Incompatible F
  too_short durations_differ : F → F → Incompatible F
  torn_workload : Side → Incompatible F

-- A workload manifest: no file, a file that does not parse, or what it holds.
pub data Workload (N : Type 0) : Type 0 where
  no_workload torn : Workload N
  workload : Json N → Workload N

-- The documents of a session that are read: its summary, its bridge document (empty if there is none),
-- the snapshots of the app that could be read, and the workload manifest.
pub record Evidence (N : Type 0) : Type 0 where
  pub summary : Fields N
  pub bridge : Fields N
  pub snapshots : List (Fields N)
  pub workload : Workload N

pub record Row (F : Type 0) : Type 0 where
  pub name : Text
  pub value_a : F
  pub value_b : F
  pub difference : F
  pub better : Better

pub record Comparison (Z F : Type 0) : Type 0 where
  pub late_ticks_a : Z
  pub late_ticks_b : Z
  pub late_ticks_delta : Z
  pub alloc_a : F
  pub alloc_b : F
  pub stw_worst_a : F
  pub stw_worst_b : F
  pub chunk_a : F
  pub chunk_b : F
  pub overall_better : Better
  pub sum_score_a : F
  pub sum_score_b : F
  pub layers_where_a_better : ℕ
  pub layers_where_b_better : ℕ
  pub layer_deltas : List (Row F)
  pub section_deltas : List (Row F)
  pub attribution_deltas : List (Row F)

pub data Compared (Z F : Type 0) : Type 0 where
  incompatible : Incompatible F → Compared Z F
  compared : Comparison Z F → Compared Z F

-- A set as the list of its members, each once.
unfoldable pub distinct : List Text → List Text
unfolding contains
distinct [] = []
distinct (x ∷ xs) = let rest = distinct xs in if contains rest x then rest else x ∷ rest

unfoldable pub same_set : List Text → List Text → Bool
unfolding contains
same_set xs ys = all (λ x. contains ys x) xs && all (λ y. contains xs y) ys

abbrev pub is_not_empty : Text → Bool
is_not_empty [] = false
is_not_empty (c ∷ s) = true

unfoldable pub measured {ℓ} : {F : Type ℓ} → Option F → Bool
measured none = false
measured (some x) = true

unfoldable pub value_or {ℓ} : {F : Type ℓ} → F → Option F → F
value_or default none = default
value_or default (some x) = x

-- How many rows have a side as the better one.
abbrev pub is_better : Better → Better → Bool
is_better a_better a_better = true
is_better b_better b_better = true
is_better _ _ = false

unfoldable pub count_better : {F : Type 0} → Better → List (Row F) → ℕ
count_better side [] = 0
count_better side (row ∷ rows) =
    (if is_better side row.better then 1 else 0) + count_better side rows

module _ {N F : Type 0} (fl : Floats N F) where
  open fl use {lt, plus_float, sub, div, round, zero_float, hundredths}

  unfoldable pub requested_tokens : Fields N → List Text
  unfolding keep split strip
  requested_tokens summary =
      let only = get (as_mapping (get summary (codes "meta"))) (codes "only") in
      keep is_not_empty
        (map strip (split (if truthy fl only then text_of fl only else codes "all") b','))

  unfoldable pub winner : F → Better
  winner delta =
      if lt delta (sub zero_float (hundredths 1))
      then b_better
      else if lt (hundredths 1) delta
      then a_better
      else tie

  unfoldable pub absolute : F → F
  absolute x = if lt x zero_float then sub zero_float x else x

  -- One row of `_paired_deltas`, of the values that the two sides have.
  unfoldable pub row_of : ℕ → Text → Option F → Option F → Row F
  unfolding winner measured value_or
  row_of ndigits name left right =
      let value_a : F = value_or zero_float left in
      let value_b : F = value_or zero_float right in
      let difference : F = round (sub value_b value_a) ndigits in
      record {
        name = name;
        value_a = value_a;
        value_b = value_b;
        difference = difference;
        better = if measured left && measured right then winner difference else not_comparable;
      }

  unfoldable pub rows_of : ℕ → List (Text × F) → List (Text × F) → List Text → List (Row F)
  unfolding row_of lookup
  rows_of ndigits left right [] = []
  rows_of ndigits left right (name ∷ names) =
      row_of ndigits name (lookup name left) (lookup name right) ∷ rows_of ndigits left right names

  -- `_paired_deltas`, over the union of the names; the largest difference comes first.
  unfoldable pub paired_deltas : ℕ → List (Text × F) → List (Text × F) → List (Row F)
  unfolding rows_of sorted distinct absolute
  paired_deltas ndigits left right =
      sorted (λ r s. lt (absolute s.difference) (absolute r.difference))
        (rows_of ndigits left right
          (sorted text_lt (distinct (names_of fl left ++ names_of fl right))))

  -- `load_sections`: a snapshot counts where it is above what is there, and unknown heat is 0.
  unfoldable pub known_heats : List (Text × Option F) → List (Text × F)
  unfolding value_or
  known_heats [] = []
  known_heats ((name, heat) ∷ heats) = (name, value_or zero_float heat) ∷ known_heats heats

  unfoldable pub hotter : Text → F → List (Text × F) → List (Text × F)
  unfolding value_or insert
  hotter name per_call heat =
      if lt (value_or zero_float (lookup name heat)) per_call
      then insert name per_call heat
      else heat

  unfoldable pub sections_into : List (Text × F) → List (Fields N) → List (Text × F)
  unfolding hotter first_present
  sections_into heat [] = heat
  sections_into heat (section ∷ sections) =
      let name = get section (codes "name") in
      sections_into
        (if not (truthy fl name)
          then heat
          else hotter (text_of fl name)
              (first_present fl (get section (codes "p95Ms") ∷ get section (codes "avgMs") ∷ []))
              heat)
        sections

  unfoldable pub snapshots_into : List (Text × F) → List (Fields N) → List (Text × F)
  unfolding sections_into object_list
  snapshots_into heat [] = heat
  snapshots_into heat (snapshot ∷ snapshots) =
      snapshots_into (sections_into heat (object_list (get snapshot (codes "sections")))) snapshots

  unfoldable pub load_sections : Evidence N → List (Text × F)
  unfolding known_heats snapshots_into ranked_section_heats
  load_sections e = snapshots_into (known_heats (ranked_section_heats fl e.bridge)) e.snapshots

  -- `_attribution_totals`.
  unfoldable pub total_into : Json N → Option F → List (Text × F) → List (Text × F)
  total_into name none totals = totals
  total_into name (some total) totals =
      if truthy fl name then insert (text_of fl name) total totals else totals

  unfoldable pub totals_from : List (Text × F) → List (Fields N) → List (Text × F)
  unfolding total_into as_number
  totals_from totals [] = totals
  totals_from totals (entry ∷ entries) =
      totals_from
        (total_into (get entry (codes "subsystem"))
          (as_number fl (get entry (codes "scaled_total_ms"))) totals)
        entries

  unfoldable pub attribution_totals : Fields N → List (Text × F)
  unfolding totals_from object_list
  attribution_totals bridge =
      totals_from []
        (object_list (get (as_mapping (get bridge (codes "attribution"))) (codes "subsystems")))

  module _ (same : Json N → Json N → Bool) where
    -- Equal values under each of the keys.
    unfoldable pub same_values : Fields N → Fields N → List Text → Bool
    same_values a b [] = true
    same_values a b (key ∷ keys) = same (get a key) (get b key) && same_values a b keys

    unfoldable pub workload_gate : Workload N → Workload N → Option (Incompatible F)
    unfolding same_values
    workload_gate no_workload no_workload = none
    workload_gate no_workload torn = some one_workload
    workload_gate no_workload (workload b) = some one_workload
    workload_gate torn no_workload = some one_workload
    workload_gate (workload a) no_workload = some one_workload
    workload_gate torn torn = some (torn_workload side_a)
    workload_gate torn (workload b) = some (torn_workload side_a)
    workload_gate (workload a) torn = some (torn_workload side_b)
    workload_gate (workload a) (workload b) =
        if same_values (as_mapping a) (as_mapping b)
          (codes "mode" ∷ codes "target" ∷ codes "workload" ∷ [])
        then none
        else some workloads_differ

    unfoldable pub duration_gate : F → F → Option (Incompatible F) → Option (Incompatible F)
    unfolding absolute
    duration_gate a b rest =
        if lt a (hundredths 500) || lt b (hundredths 500)
        then some (too_short a b)
        else if lt (hundredths 10) (div (absolute (sub a b)) (max_float fl a b))
        then some (durations_differ a b)
        else rest

    -- The checks of `compare_sessions` in order; none is that all pass.
    unfoldable pub gates : Evidence N → Evidence N → Option (Incompatible F)
    unfolding same_set requested_tokens workload_gate duration_gate effective_seconds
        collected_layer_scores
    gates a b =
        let layers_a = collected_layer_scores fl a.summary in
        let layers_b = collected_layer_scores fl b.summary in
        let meta_a = as_mapping (get a.summary (codes "meta")) in
        let meta_b = as_mapping (get b.summary (codes "meta")) in
        if not (same_names fl layers_a layers_b)
        then some (
            layer_coverage (sorted text_lt (names_of fl layers_a))
              (sorted text_lt (names_of fl layers_b)))
        else if not
            (same (get meta_a (codes "analyzer_version")) (get meta_b (codes "analyzer_version")))
        then some analyzer_versions
        else if not (same_set (requested_tokens a.summary) (requested_tokens b.summary))
        then some collector_selection
        else duration_gate (effective_seconds fl meta_a) (effective_seconds fl meta_b)
            (workload_gate a.workload b.workload)

    module _ {Z : Type 0} (int_of : F → Z) (minus : Z → Z → Z) where
      unfoldable pub late_ticks : Fields N → Z
      unfolding as_number
      late_ticks summary = int_of (
          or_zero fl (
            as_number fl (
              get (as_mapping (get (as_mapping (get summary (codes "metadata"))) (codes "frame")))
                (codes "lateTicks"))))

      unfoldable pub metadata_rate : Fields N → Text → Text → F
      unfolding as_number
      metadata_rate summary block name = or_zero fl (
          as_number fl
            (get (as_mapping (get (as_mapping (get summary (codes "metadata"))) block)) name))

      unfoldable pub worst_pause : Fields N → F
      unfolding as_number layer_signals
      worst_pause summary = or_zero fl (
          as_number fl
            (get (layer_signals summary (codes "runtime_gc")) (codes "stw_pause_worst_ms")))

      -- What is returned for two sessions that pass the checks.
      unfoldable pub comparison : Evidence N → Evidence N → Comparison Z F
      unfolding paired_deltas load_sections attribution_totals late_ticks metadata_rate worst_pause
          winner count_better collected_layer_scores
      comparison a b =
          let layers_a = collected_layer_scores fl a.summary in
          let layers_b = collected_layer_scores fl b.summary in
          let layer_rows = paired_deltas 3 layers_a layers_b in
          let sum_a = sum_floats fl zero_float layers_a in
          let sum_b = sum_floats fl zero_float layers_b in
          let late_a = late_ticks a.summary in
          let late_b = late_ticks b.summary in
          let churn = codes "grossAllocMBPerSecond" in
          record {
            late_ticks_a = late_a;
            late_ticks_b = late_b;
            late_ticks_delta = minus late_b late_a;
            alloc_a = round (metadata_rate a.summary (codes "gc") churn) 2;
            alloc_b = round (metadata_rate b.summary (codes "gc") churn) 2;
            stw_worst_a = round (worst_pause a.summary) 1;
            stw_worst_b = round (worst_pause b.summary) 1;
            chunk_a = round (metadata_rate a.summary (codes "transfers") (codes "mb_per_second")) 2;
            chunk_b = round (metadata_rate b.summary (codes "transfers") (codes "mb_per_second")) 2;
            overall_better = winner (sub sum_b sum_a);
            sum_score_a = round sum_a 3;
            sum_score_b = round sum_b 3;
            layers_where_a_better = count_better a_better layer_rows;
            layers_where_b_better = count_better b_better layer_rows;
            layer_deltas = layer_rows;
            section_deltas = paired_deltas 3 (load_sections a) (load_sections b);
            attribution_deltas =
                paired_deltas 1 (attribution_totals a.bridge) (attribution_totals b.bridge);
          }

      unfoldable pub outcome : Evidence N → Evidence N → Option (Incompatible F) → Compared Z F
      unfolding comparison
      outcome a b none = compared (comparison a b)
      outcome a b (some reason) = incompatible reason

      unfoldable pub compare_sessions : Evidence N → Evidence N → Compared Z F
      unfolding outcome gates
      compare_sessions a b = outcome a b (gates a b)
