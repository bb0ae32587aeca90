-- ===== src/Bridge/Sections.antt =====
-- `section_rank`, `layer_state` and `_section_scores` of tools/apm_suite/analysis/bridge.py.
use dtd_server_apm.Common.{
  Bool, true, List, [], ◌∷◌, ◌++◌, Option, none, some, Text, codes, ◌=?◌, nat_eq, list_eq,
  if◌then◌else◌, map, split,
}
use dtd_server_apm.Common.Dict.{lookup, insert, contains}
use dtd_server_apm.Common.Sort.{sorted}
use dtd_server_apm.Io.Json.{Fields}
use dtd_server_apm.Models.{
  get, as_mapping, object_list, as_number, or_zero, first_present, layer_is_collected, text_of,
  finite,
}
use dtd_server_apm.Models.Numbers.{Floats, max_float}
use dtd_server_apm.Session.Review.{base_name}
use dtd_server_apm.Bridge.Heats.{name_text}
use dtd_server_apm.Bridge.Ledger.{Integers}

pub record Section (Z F : Type 0) : Type 0 where
  pub name : Text
  pub avg_ms : F
  pub calls : Z
  pub total_ms : F
  pub p95 : F
  pub score : F

-- `name.rsplit(".", 1)[-1]`.
unfoldable pub bare_name : Text → Text
unfolding split base_name
bare_name name = base_name (split name b'.')

module _ {N Z F : Type 0} (fl : Floats N F) (ints : Integers Z F) where
  open fl use {lt, mul, zero_float}
  open ints use {int_of, float_of}

  -- `first_present(value, number)`, where the second is a float.
  unfoldable pub present_or : Option F → F → F
  present_or none x = or_zero fl (finite fl (some x))
  present_or (some y) x = or_zero fl (some y)

  unfoldable pub scored : Fields N → Section Z F
  unfolding name_text first_present present_or as_number
  scored section =
      let avg = first_present fl (get section (codes "avgMs") ∷ []) in
      let calls = int_of (first_present fl (get section (codes "calls") ∷ [])) in
      let p95 = first_present fl (get section (codes "p95Ms") ∷ get section (codes "p95") ∷ []) in
      record {
        name = name_text fl (get section (codes "name"));
        avg_ms = avg;
        calls = calls;
        total_ms =
            present_or (as_number fl (get section (codes "totalMs"))) (mul avg (float_of calls));
        p95 = p95;
        score = (if lt zero_float p95 then p95 else avg);
      }

  -- `name not in best or section["score"] > best[name]["score"]`.
  unfoldable pub beats : Section Z F → Option (Section Z F) → Bool
  beats section none = true
  beats section (some best) = lt best.score section.score

  unfoldable pub keep_best :
      List (Text × Section Z F) → List (Section Z F) → List (Text × Section Z F)
  unfolding beats lookup insert
  keep_best best [] = best
  keep_best best (section ∷ sections) =
      keep_best
        (if beats section (lookup section.name best)
          then insert section.name section best
          else best)
        sections

  unfoldable pub section_rank : List (Fields N) → List (Section Z F)
  unfolding keep_best scored sorted
  section_rank sections =
      sorted (λ a b. lt b.score a.score)
        (map (λ e. e.1) (keep_best [] (map (λ s. scored s) sections)))

  -- `_section_scores`: the best score under the full name and under the bare one.
  unfoldable pub score_or_zero : Option F → F
  score_or_zero none = zero_float
  score_or_zero (some x) = x

  unfoldable pub raise_score : Text → F → List (Text × F) → List (Text × F)
  unfolding insert lookup score_or_zero
  raise_score key score index =
      insert key (max_float fl (score_or_zero (lookup key index)) score) index

  unfoldable pub index_section : Section Z F → List (Text × F) → List (Text × F)
  unfolding raise_score bare_name
  index_section section index =
      let whole : List (Text × F) = raise_score section.name section.score index in
      if bare_name section.name =? section.name
      then whole
      else raise_score (bare_name section.name) section.score whole

  unfoldable pub index_sections : List (Text × F) → List (Section Z F) → List (Text × F)
  unfolding index_section
  index_sections index [] = index
  index_sections index (section ∷ sections) = index_sections (index_section section index) sections

  unfoldable pub section_scores : List (Section Z F) → List (Text × F)
  unfolding index_sections
  section_scores sections = index_sections [] sections

  -- The inner `score_of` of `match_rules`.
  unfoldable pub score_of : List (Text × F) → Text → F
  unfolding lookup score_or_zero bare_name
  score_of index token = elim (lookup token index) [
    | some direct ↦ direct
    | none ↦ score_or_zero (lookup (bare_name token) index)
  ]

  -- `layer_state`: the collected layers, and the signals of each.
  unfoldable pub layers_from :
      List Text × List (Text × Fields N) → List (Fields N) → List Text × List (Text × Fields N)
  unfolding contains insert
  layers_from state [] = state
  layers_from state (layer ∷ layers) =
      let name : Text = text_of fl (get layer (codes "layer")) in
      layers_from
        (if layer_is_collected layer
          then (
            (if contains state.0 name then state.0 else state.0 ++ name ∷ []),
            insert name (as_mapping (get layer (codes "signals"))) state.1,
          )
          else state)
        layers

  unfoldable pub layer_state : Fields N → List Text × List (Text × Fields N)
  unfolding layers_from object_list
  layer_state summary = layers_from ([], []) (object_list (get summary (codes "layers")))
