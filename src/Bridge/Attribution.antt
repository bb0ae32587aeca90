-- ===== src/Bridge/Attribution.antt =====
-- `attribute_subsystems` and `attribute_document` of tools/apm_suite/analysis/bridge.py: managed time by
-- subsystem, with the sampled inner sections in a drill-down of their own.
pub mod Totals
use dtd_server_apm.Common.{
  ℕ, Bool, true, false, not, ◌&&◌, ◌||◌, List, [], ◌∷◌, ◌++◌, Option, none, some, Text, codes, ◌=?◌,
  nat_eq, list_eq, if◌then◌else◌, any, map, keep, starts_with,
}
use dtd_server_apm.Common.Dict.{lookup, insert, contains}
use dtd_server_apm.Common.Sort.{sorted}
use dtd_server_apm.Io.Json.{Json, Fields, end, field, arr, obj, to_list}
use dtd_server_apm.Models.{
  get, as_mapping, object_list, as_number, or_zero, first_present, truthy, is_null,
}
use dtd_server_apm.Models.Numbers.{Floats, max_float}
use dtd_server_apm.Session.Review.{ends_with}
use dtd_server_apm.Bridge.Heats.{name_text}
use dtd_server_apm.Bridge.Subsystems.{
  Place, deep_section_names, drilldown, drilldown_place, first_match, matches, nested, place_of,
  subsystem_place, subsystems, in_drilldown, in_subsystem, nowhere,
}
use dtd_server_apm.Bridge.Ledger.{
  Integers, SectionEntry, Ledger, has_key, default_to, add_to, append_to, is_deep, scale_of,
  scaled_ms, entry_of, is_long_running, put, attribute, attribute_all, zeros, no_entries,
  empty_ledger,
}

pub record Subsystem (Z F : Type 0) : Type 0 where
  pub subsystem : Text
  pub total_ms : F
  pub share : F
  pub sections : List (SectionEntry Z F)

pub record Level (Z F : Type 0) : Type 0 where
  pub level : Text
  pub total_ms : F
  pub sections : List (SectionEntry Z F)

pub record PathPipeline (Z : Type 0) : Type 0 where
  pub enqueued : Z
  pub drained : Z
  pub computed : Z
  pub backlog_estimate : Z

pub record Attribution (Z F : Type 0) : Type 0 where
  pub deep_sample_rate : Z
  pub measured_ms : F
  pub ms_per_tick : Option F
  pub ms_per_entity_tick : Option F
  pub window_updates : Option Z
  pub entities : Option Z
  pub frame_core_exclusive_ms : F
  pub path_pipeline : PathPipeline Z
  pub subsystems : List (Subsystem Z F)
  pub levels : List (Level Z F)
  pub long_running_excluded : List Text

module _ {N Z F : Type 0} (fl : Floats N F) (ints : Integers Z F) where
  open fl use {lt, plus_float, sub, mul, div, round, zero_float, hundredths, is_true}
  open ints use {int_of, float_of, times, minus, max_int, zero_int, one_int, is_true_int}

  unfoldable pub total_of : List (Text × F) → Text → F
  unfolding default_to lookup
  total_of totals key = default_to fl ints zero_float (lookup key totals)

  unfoldable pub add_up : F → List F → F
  add_up total [] = total
  add_up total (x ∷ xs) = add_up (plus_float total x) xs

  unfoldable pub frame_core_exclusive : List (Text × F) → F
  unfolding total_of add_up
  frame_core_exclusive totals = max_float fl zero_float (
      sub (total_of totals (codes "frame_core"))
        (add_up zero_float (map (λ key. total_of totals key) nested)))

  -- `scaled_calls`: of the first entry with the name, in the order of the tables.
  unfoldable pub calls_in : Text → List (SectionEntry Z F) → Option Z
  calls_in name [] = none
  calls_in name (e ∷ es) =
      let rest = calls_in name es in if e.name =? name then some e.calls_scaled else rest

  unfoldable pub either_calls : Option Z → Option Z → Option Z
  either_calls none rest = rest
  either_calls (some n) rest = some n

  unfoldable pub calls_among : Text → List (Text × List (SectionEntry Z F)) → Option Z
  unfolding calls_in either_calls
  calls_among name [] = none
  calls_among name ((key, es) ∷ buckets) =
      either_calls (calls_in name es) (calls_among name buckets)

  unfoldable pub scaled_calls : Ledger Z F → Text → Z
  unfolding calls_among default_to
  scaled_calls l name =
      default_to fl ints zero_int
        (either_calls (calls_among name l.details) (calls_among name l.drilldown_details))

  unfoldable pub pipeline_of : Ledger Z F → PathPipeline Z
  unfolding scaled_calls
  pipeline_of l =
      let enqueued = scaled_calls l (codes "EntityAlive.FindPath") in
      let drained = scaled_calls l (codes "ASPPathNavigate.GetPathTo") in
      record {
        enqueued = enqueued;
        drained = drained;
        computed = scaled_calls l (codes "ASPPathFinder.Calculate");
        backlog_estimate = minus enqueued drained;
      }

  -- The largest first.
  unfoldable pub by_total : List (SectionEntry Z F) → List (SectionEntry Z F)
  unfolding sorted
  by_total es = sorted (λ e f. lt f.scaled_total_ms e.scaled_total_ms) es

  unfoldable pub rank_subsystems :
      F → List (Text × List (SectionEntry Z F)) → List (Text × F) → List (Subsystem Z F)
  unfolding by_total lookup default_to
  rank_subsystems denominator details [] = []
  rank_subsystems denominator details ((key, total) ∷ rows) =
      let rest = rank_subsystems denominator details rows in
      if lt zero_float total
      then record {
        subsystem = key;
        total_ms = round total 1;
        share = (if is_true denominator then round (div total denominator) 4 else zero_float);
        sections = by_total (default_to fl ints [] (lookup key details));
      }
        ∷ rest
      else rest

  unfoldable pub levels_of :
      List (Text × List (SectionEntry Z F)) → List (Text × F) → List (Level Z F)
  unfolding by_total lookup default_to
  levels_of details [] = []
  levels_of details ((key, total) ∷ rows) =
      let rest = levels_of details rows in
      if lt zero_float total
      then record {
        level = key;
        total_ms = round total 1;
        sections = by_total (default_to fl ints [] (lookup key details));
      }
        ∷ rest
      else rest

  -- What is returned for the accumulators.
  -- The totals with the exclusive time of the frame.
  unfoldable pub exclusive_totals : List (Text × F) → List (Text × F)
  unfolding frame_core_exclusive insert
  exclusive_totals totals = insert (codes "frame_core") (frame_core_exclusive totals) totals

  unfoldable pub summarise : Z → Z → Z → Ledger Z F → Attribution Z F
  unfolding frame_core_exclusive exclusive_totals add_up pipeline_of rank_subsystems levels_of
      sorted
  summarise rate window_updates entities l =
      let exclusive : F = frame_core_exclusive l.totals in
      let totals : List (Text × F) = exclusive_totals l.totals in
      let denominator : F = add_up zero_float (map (λ e. e.1) totals) in
      let per_tick : F = div denominator (float_of window_updates) in
      record {
        deep_sample_rate = rate;
        measured_ms = round denominator 1;
        ms_per_tick = (if is_true_int window_updates then some (round per_tick 3) else none);
        ms_per_entity_tick =
            (if is_true_int window_updates && is_true_int entities
              then some (round (div per_tick (float_of entities)) 5)
              else none);
        window_updates = (if is_true_int window_updates then some window_updates else none);
        entities = (if is_true_int entities then some entities else none);
        frame_core_exclusive_ms = round exclusive 1;
        path_pipeline = pipeline_of l;
        subsystems = rank_subsystems denominator l.details (sorted (λ a b. lt b.1 a.1) totals);
        levels = levels_of l.drilldown_details l.drilldown_totals;
        long_running_excluded = l.long_running;
      }

  -- `attribute_subsystems`, of sections that are objects.
  unfoldable pub attribute_subsystems : List (Fields N) → Z → Z → Z → Attribution Z F
  unfolding attribute_all summarise
  attribute_subsystems sections rate window_updates entities =
      summarise rate window_updates entities
        (attribute_all fl ints rate sections (empty_ledger fl ints))

  -- `int(as_number(value) or default)`.
  unfoldable pub int_or : Z → Option F → Z
  int_or default none = default
  int_or default (some x) = if is_true x then int_of x else default

  -- The sections of a document: one that is no object raises, and so does a value that is no list
  -- unless it is false.
  unfoldable pub all_objects : List (Json N) → Option (List (Fields N))
  all_objects [] = some []
  all_objects (v ∷ vs) = elim (all_objects vs) [
    | none ↦ none
    | some rest ↦ elim v [ obj fs ↦ some (fs ∷ rest) | w ↦ none ]
  ]

  unfoldable pub sections_of : Json N → Option (List (Fields N))
  unfolding all_objects
  sections_of (arr vs) = all_objects (to_list vs)
  sections_of v = if truthy fl v then none else some []

  unfoldable pub attribute_sections : Fields N → Option (List (Fields N)) → Option (Attribution Z F)
  unfolding attribute_subsystems int_or as_number
  attribute_sections document none = none
  attribute_sections document (some sections) = some (
      attribute_subsystems sections
        (int_or one_int (
          as_number fl
            (get (as_mapping (get document (codes "measurement"))) (codes "deepSampleRate"))))
        (int_or zero_int
          (as_number fl (get (as_mapping (get document (codes "update"))) (codes "windowUpdates"))))
        (int_or zero_int
          (as_number fl (get (as_mapping (get document (codes "world"))) (codes "entities")))))

  -- `attribute_document`; none is what `attribute_snapshot` turns an exception into.
  unfoldable pub attribute_document : Fields N → Option (Attribution Z F)
  unfolding attribute_sections sections_of
  attribute_document document =
      attribute_sections document (sections_of (get document (codes "sections")))
