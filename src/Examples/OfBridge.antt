-- ===== src/Examples/OfBridge.antt =====
-- The theorems on the bridge analysis at concrete inputs, with hundredths for floats and natural numbers
-- for integers.
use dtd_server_apm.Examples.OfAnalysis.{hundredths, ordered}
use dtd_server_apm.Common.{
  leb, ℕ, ◌≡◌, ◌+◌, ◌-◌, ◌*◌, ◌/◌, refl, not, List, [], ◌∷◌, Text, codes, ◌==◌, nat_eq, list_eq,
  All, max, map,
}
use dtd_server_apm.Common.Dict.{lookup, contains}
use dtd_server_apm.Io.Json.{Json, Fields, num, end, field}
use dtd_server_apm.Common.Sort.{sorted, insert_sorted}
use dtd_server_apm.Common.{starts_with, split}
use dtd_server_apm.Common.Dict.{insert}
use dtd_server_apm.Session.Review.{base_name}
use dtd_server_apm.Bundle.Scrub.{occurs}
use dtd_server_apm.Bridge.Ledger.{Integers}
use dtd_server_apm.Bridge.Catalog.{rules}
use dtd_server_apm.Bridge.Catalog.Simulation.{rule_gc_mono}
use dtd_server_apm.Bridge.Sections.{
  section_scores, index_sections, score_of, score_or_zero, bare_name,
}
use dtd_server_apm.Bridge.Matching.{
  match_rules, match_from, match_rule, hit_of, is_missing, required_layer, share_of,
  signal_evidence, signal_hits, section_hits, native_evidence, scan_frames, scan_frame, feed_rules,
  add_frame, pattern_rules, add_patterns, add_index, layer_of_gate, weight_sum, confidence_of,
  heat_sum, native_frames_of, csharp_extra,
}
use dtd_server_apm.Bridge.Matching.Supported.{IsSupported, match_rules-IsSupported}

abbrev pub naturals : Integers ℕ ℕ
naturals = record {
  int_of = λ x. x / 100;
  float_of = λ n. n * 100;
  plus = λ m n. m + n;
  times = λ m n. m * n;
  minus = λ m n. m - n;
  max_int = λ m n. max m n;
  at_least = λ n literal. leb literal n;
  zero_int = 0;
  one_int = 1;
  is_true_int = λ n. not (n == 0);
}

abbrev tick_section : Fields ℕ
tick_section =
    field (codes "name") (Json.str (codes "World.TickEntities"))
      (field (codes "totalMs") (num 30) end)

abbrev little_gc : List (Text × ℕ)
little_gc = (codes "mono_gc_collect_a_little", 10) ∷ []

match_rules-IsSupported_example :
    All
      (IsSupported hundredths naturals ordered 1
        (codes "runtime_gc" ∷ [])
        rules
        (native_evidence hundredths naturals rules little_gc
          (weight_sum hundredths naturals 0 little_gc))
        (weight_sum hundredths naturals 0 little_gc)
        (section_scores hundredths naturals [])
        [])
      (match_rules hundredths naturals 1 rules little_gc [] (codes "runtime_gc" ∷ []) [])
match_rules-IsSupported_example =
    match_rules-IsSupported hundredths naturals ordered 1 (codes "runtime_gc" ∷ []) rules little_gc
      [] []

-- A frame that two patterns of a rule match is counted for both, so the share of all samples is 2.
counted_twice :
    map
      (λ h. h.native_weight_share)
      (match_rules hundredths naturals 1
        (rule_gc_mono ∷ [])
        little_gc
        []
        (codes "runtime_gc" ∷ [])
        [])
    ≡ 200 ∷ []
unfolding match_rules match_from match_rule hit_of is_missing required_layer layer_of_gate share_of
    signal_evidence signal_hits section_hits score_of score_or_zero native_evidence scan_frames
    scan_frame feed_rules add_frame pattern_rules add_patterns add_index weight_sum section_scores
    index_sections occurs starts_with lookup insert contains sorted insert_sorted confidence_of
    heat_sum native_frames_of csharp_extra bare_name split base_name
counted_twice = refl
