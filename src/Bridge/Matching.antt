-- ===== src/Bridge/Matching.antt =====
-- `_native_scanner`, `_native_evidence_by_rule`, `_signal_evidence` and `match_rules` of
-- tools/apm_suite/analysis/bridge.py. The table of rules is an argument; the one that is used is in
-- Bridge/Catalog.
pub mod Supported
use dtd_server_apm.Common.{
  ℕ, zero, suc, ◌*◌, Bool, true, false, not, ◌&&◌, ◌||◌, List, [], ◌∷◌, ◌++◌, Option, none, some,
  Text, codes, ◌=?◌, nat_eq, list_eq, if◌then◌else◌, map, any, keep, length, ltb, join,
}
use dtd_server_apm.Common.Dict.{lookup, insert, contains}
use dtd_server_apm.Common.Sort.{sorted}
use dtd_server_apm.Io.Json.{Json, bool, num, Fields}
use dtd_server_apm.Models.{get}
use dtd_server_apm.Models.Numbers.{Floats, min_float}
use dtd_server_apm.Bundle.Scrub.{occurs}
use dtd_server_apm.Bridge.Rule.{Rule}
use dtd_server_apm.Bridge.Catalog.{Surface, section_to_csharp}
use dtd_server_apm.Bridge.Ledger.{Integers}
use dtd_server_apm.Bridge.Sections.{Section, section_scores, score_of, bare_name}

-- `SIGNAL_GATES`: of some rules the layer, and signals with their least value in hundredths.
pub record Gate : Type 0 where
  pub layer : Text
  pub minimums : List (Text × ℕ)

abbrev pub signal_gates : List (Text × Gate)
signal_gates =
    (
      codes "gc_mono",
      record {
        layer = codes "runtime_gc";
        minimums = (codes "slow_gc_lines", 100) ∷ (codes "collect_a_little_hits", 5000) ∷ [];
      },
    )
    ∷ (
      codes "futex_lock",
      record { layer = codes "sync_locks"; minimums = (codes "slow_futex_lines", 100) ∷ [] },
    )
    ∷ (
      codes "blocking_io",
      record { layer = codes "io"; minimums = (codes "slow_block_lines", 100) ∷ [] },
    )
    ∷ []

abbrev pub native_frames_max : ℕ
native_frames_max = 10

-- `REQUIRED_LAYER.get(rule id)`.
unfoldable pub layer_of_gate : Option Gate → Option Text
layer_of_gate none = none
layer_of_gate (some gate) = some gate.layer

unfoldable pub required_layer : Text → Option Text
unfolding layer_of_gate lookup
required_layer id = layer_of_gate (lookup id signal_gates)

-- `_native_scanner`: every pattern with the rules that it feeds.
unfoldable pub add_index : Text → ℕ → List (Text × List ℕ) → List (Text × List ℕ)
unfolding lookup insert contains
add_index pattern index table = elim (lookup pattern table) [
  | none ↦ insert pattern (index ∷ []) table
  | some indexes ↦
      if contains indexes index then table else insert pattern (indexes ++ index ∷ []) table
]

unfoldable pub add_patterns : List Text → ℕ → List (Text × List ℕ) → List (Text × List ℕ)
unfolding add_index
add_patterns [] index table = table
add_patterns (pattern ∷ patterns) index table =
    add_patterns patterns index (add_index pattern index table)

unfoldable pub pattern_rules : List Rule → ℕ → List (Text × List ℕ) → List (Text × List ℕ)
unfolding add_patterns
pattern_rules [] index table = table
pattern_rules (rule ∷ rules) index table =
    pattern_rules rules (suc index) (add_patterns rule.native_any index table)

-- The frames of a rule, and their weight.
pub record Native (Z : Type 0) : Type 0 where
  pub frames : List (Text × Z)
  pub weight : Z

pub record Hit (F Z : Type 0) : Type 0 where
  pub id : Text
  pub title : Text
  pub native_frames : List (Text × Z)
  pub signals : List (Text × F)
  pub sections : List (Text × F)
  pub native_weight_share : F
  pub section_heat_ms : F
  pub confidence : F
  pub priority : F
  pub needed_layer : Option Text
  pub csharp : List Text
  pub harmony_targets : List Text
  pub mod_apis : List Text

abbrev pub is_some {ℓ} : {A : Type ℓ} → Option A → Bool
is_some none = false
is_some (some x) = true

abbrev pub has_any {ℓ} : {A : Type ℓ} → List A → Bool
has_any [] = false
has_any (x ∷ xs) = true

-- `", ".join(texts)`.
unfoldable pub comma_joined : List Text → Text
comma_joined [] = []
comma_joined (t ∷ []) = t
comma_joined (t ∷ u ∷ ts) = t ++ (codes ", " ++ comma_joined (u ∷ ts))

unfoldable pub surface_of : Text → Option Surface
unfolding lookup bare_name
surface_of section = elim (lookup section section_to_csharp) [
  | some surface ↦ some surface
  | none ↦ lookup (bare_name section) section_to_csharp
]

unfoldable pub surface_line : Text → Option Surface → List Text
unfolding comma_joined join
surface_line section none = []
surface_line section (some surface) =
    (section ++ (codes " → " ++ (comma_joined surface.types ++ b'.' ∷ join b'/' surface.methods)))
    ∷ []

unfoldable pub csharp_extra : List Text → List Text
unfolding surface_line surface_of
csharp_extra [] = []
csharp_extra (section ∷ sections) =
    surface_line section (surface_of section) ++ csharp_extra sections

module _ {N Z F : Type 0} (fl : Floats N F) (ints : Integers Z F) where
  open fl use {of_num, lt, le, plus_float, mul, div, round, zero_float, hundredths}
  open ints use {float_of, plus, zero_int, is_true_int}

  -- One frame that one pattern of a rule matches.
  unfoldable pub add_frame : Text → Z → Option (Native Z) → Native Z
  add_frame name weight none = record {
    frames = (name, weight) ∷ [];
    weight = plus zero_int weight;
  }
  add_frame name weight (some n) = record {
    frames =
        (if ltb (length n.frames) native_frames_max
          then n.frames ++ (name, weight) ∷ []
          else n.frames);
    weight = plus n.weight weight;
  }

  unfoldable pub feed_rules : Text → Z → List ℕ → List (ℕ × Native Z) → List (ℕ × Native Z)
  unfolding add_frame lookup insert
  feed_rules name weight [] found = found
  feed_rules name weight (index ∷ indexes) found =
      feed_rules name weight indexes
        (insert index (add_frame name weight (lookup index found)) found)

  unfoldable pub scan_frame :
      Text → Z → List (Text × List ℕ) → List (ℕ × Native Z) → List (ℕ × Native Z)
  unfolding feed_rules occurs
  scan_frame name weight [] found = found
  scan_frame name weight ((pattern, indexes) ∷ patterns) found =
      scan_frame name weight patterns
        (if occurs pattern name then feed_rules name weight indexes found else found)

  unfoldable pub scan_frames :
      List (Text × List ℕ) → List (Text × Z) → List (ℕ × Native Z) → List (ℕ × Native Z)
  unfolding scan_frame
  scan_frames patterns [] found = found
  scan_frames patterns ((name, weight) ∷ frames) found = scan_frames patterns frames (
      if any (λ row. occurs row.0 name) patterns
      then scan_frame name weight patterns found
      else found)

  unfoldable pub native_evidence : List Rule → List (Text × Z) → Z → List (ℕ × Native Z)
  unfolding scan_frames pattern_rules
  native_evidence rules frames total =
      if is_true_int total then scan_frames (pattern_rules rules zero []) frames [] else []

  unfoldable pub weight_sum : Z → List (Text × Z) → Z
  weight_sum total [] = total
  weight_sum total ((name, weight) ∷ frames) = weight_sum (plus total weight) frames

  -- `isinstance(value, (int, float))`, which a Boolean is too, and its float.
  unfoldable pub raw_number : Json N → Option F
  raw_number (num n) = of_num n
  raw_number (bool true) = some (hundredths 100)
  raw_number (bool false) = some zero_float
  raw_number v = none

  unfoldable pub signal_hit : Text → ℕ → Option F → List (Text × F) → List (Text × F)
  signal_hit name minimum none rest = rest
  signal_hit name minimum (some value) rest =
      if le (hundredths minimum) value then (name, value) ∷ rest else rest

  unfoldable pub signal_hits : Fields N → List (Text × ℕ) → List (Text × F)
  unfolding signal_hit raw_number
  signal_hits signals [] = []
  signal_hits signals ((name, minimum) ∷ minimums) =
      signal_hit name minimum (raw_number (get signals name)) (signal_hits signals minimums)

  -- `_signal_evidence`, of the rule's gate.
  unfoldable pub signal_evidence : Option Gate → List (Text × Fields N) → List (Text × F)
  unfolding signal_hits lookup
  signal_evidence none signals = []
  signal_evidence (some gate) signals = elim (lookup gate.layer signals) [
    | none ↦ []
    | some fs ↦ signal_hits fs gate.minimums
  ]

  -- The sections of a rule that are hot, each with its score.
  unfoldable pub section_hits : List (Text × F) → List Text → List (Text × F)
  unfolding score_of
  section_hits index [] = []
  section_hits index (section ∷ sections) =
      let rest = section_hits index sections in
      if le (hundredths 100) (score_of fl ints index section)
      then (section, score_of fl ints index section) ∷ rest
      else rest

  unfoldable pub share_of : Z → Option (Native Z) → F
  share_of total none = zero_float
  share_of total (some n) = div (float_of n.weight) (float_of total)

  unfoldable pub native_frames_of : Option (Native Z) → List (Text × Z)
  native_frames_of none = []
  native_frames_of (some n) = n.frames

  unfoldable pub heat_sum : F → List (Text × F) → F
  heat_sum total [] = total
  heat_sum total ((name, score) ∷ hits) = heat_sum (plus_float total score) hits

  unfoldable pub confidence_of : Bool → F → Bool → Bool → F
  confidence_of native_ok share signals sections =
      let native =
        if native_ok
        then plus_float zero_float
            (plus_float (hundredths 45) (min_float fl (hundredths 20) (mul share (hundredths 200))))
        else zero_float in
      let with_signals = if signals then plus_float native (hundredths 30) else native in
      let whole = if sections then plus_float with_signals (hundredths 35) else with_signals in
      min_float fl (hundredths 100) whole

  -- The evidence of one rule as a hit. `share_min` is `NATIVE_SHARE_MIN`, 0.005.
  unfoldable pub hit_of :
      F → Rule → Option Text → Option (Native Z) → F → List (Text × F) → List (Text × F) → Hit F Z
  unfolding confidence_of heat_sum csharp_extra native_frames_of
  hit_of share_min rule needed_layer native share signals sections =
      let native_ok = le share_min share in
      let confidence = confidence_of native_ok share (has_any signals) (has_any sections) in
      let section_heat = heat_sum zero_float sections in
      let heat =
        plus_float (plus_float section_heat (mul share (hundredths 10000)))
          (if has_any signals then hundredths 1500 else zero_float) in
      record {
        id = rule.id;
        title = rule.title;
        native_frames = (if native_ok then native_frames_of native else []);
        signals = signals;
        sections = sections;
        native_weight_share = round share 4;
        section_heat_ms = round section_heat 2;
        confidence = round confidence 2;
        priority = round (mul heat confidence) 2;
        needed_layer = needed_layer;
        csharp = rule.csharp ++ csharp_extra (map (λ s. s.0) sections);
        harmony_targets = rule.harmony_targets;
        mod_apis = rule.mod_apis;
      }

  unfoldable pub is_missing : Option Text → List Text → Bool
  unfolding contains
  is_missing none collected = false
  is_missing (some layer) collected = not (contains collected layer)

  -- One round of the loop over the rules.
  unfoldable pub match_rule :
      F
      → Rule
      → Option Text
      → List Text
      → Option (Native Z)
      → F
      → List (Text × F)
      → List (Text × F)
      → List (Hit F Z)
      → List (Hit F Z)
  unfolding hit_of is_missing
  match_rule share_min rule needed_layer collected native share signals sections rest =
      if is_missing needed_layer collected
      then rest
      else if not (le share_min share || has_any signals || has_any sections)
      then rest
      else hit_of share_min rule needed_layer native share signals sections ∷ rest

  unfoldable pub match_from :
      F
      → ℕ
      → List Rule
      → List (ℕ × Native Z)
      → Z
      → List (Text × F)
      → List Text
      → List (Text × Fields N)
      → List (Hit F Z)
  unfolding match_rule required_layer share_of signal_evidence section_hits lookup
  match_from share_min index [] native total scores collected signals = []
  match_from share_min index (rule ∷ rules) native total scores collected signals =
      match_rule share_min rule (required_layer rule.id) collected (lookup index native)
        (share_of total (lookup index native))
        (signal_evidence (lookup rule.id signal_gates) signals)
        (section_hits scores rule.prof_sections)
        (match_from share_min (suc index) rules native total scores collected signals)

  -- `match_rules`; the rule with the highest priority comes first.
  unfoldable pub match_rules :
      F
      → List Rule
      → List (Text × Z)
      → List (Section Z F)
      → List Text
      → List (Text × Fields N)
      → List (Hit F Z)
  unfolding match_from weight_sum native_evidence section_scores sorted
  match_rules share_min rules frames top_sections collected signals =
      let total : Z = weight_sum zero_int frames in
      sorted (λ a b. lt b.priority a.priority)
        (match_from share_min zero rules (native_evidence rules frames total) total
          (section_scores fl ints top_sections) collected signals)
