-- ===== src/Examples/OfAnalysis.antt =====
-- The theorems on the health, the budget, the metrics and the comparison at
-- concrete inputs, with hundredths for floats.
use dtd_server_apm.Common.{◌≤◌}
use dtd_server_apm.Common.{
  ℕ, ◌≡◌, ◌+◌, ◌-◌, ◌*◌, ◌/◌, refl, Bool, true, false, not, List, [], ◌∷◌, none, some, Text, codes,
  ltb, leb, ◌==◌, arith, nat_eq, list_eq, All, all, map, ◌++◌,
}
use dtd_server_apm.Common.Dict.{lookup, contains}
use dtd_server_apm.Common.Decimal.{str, str-no_newline}
use dtd_server_apm.Io.Json.{Json, Fields, null, num, obj, arr, nil, cons, end, field, to_pairs}
use dtd_server_apm.Models.{get, as_mapping, collected_layer_scores}
use dtd_server_apm.Models.Numbers.{Floats, IsOrdered}
use dtd_server_apm.Common.Dict.{insert}
use dtd_server_apm.Models.{
  get_or, as_number, scores_from, score_into, object_list, objects, layer_is_collected,
}
use dtd_server_apm.Budget.{
  check, gate_layers, gate_layer, gate, gate_at, gate_sum, gate_sections, compare_baseline,
  gate_rate, gate_late, names_of,
}
use dtd_server_apm.Budget.Verdict.{is_passed, check-verdict}
use dtd_server_apm.Budget.Bounds.{IsWithin, check-passed}
use dtd_server_apm.Prometheus.{prom_label, export_metrics, readable, absent}
use dtd_server_apm.Prometheus.Labels.{read_label, read_label-prom_label}
use dtd_server_apm.Prometheus.Exposition.{IsLine, HasLines, export_metrics-HasLines}
use dtd_server_apm.Compare.{Evidence, no_workload, compare_sessions, paired_deltas}
use dtd_server_apm.Compare.Gates.{IsDecided, compare_sessions-IsDecided}
use dtd_server_apm.Compare.Pairs.{IsPaired, paired_deltas-IsPaired}
use dtd_server_apm.Health.{grade_for, compute_health}
use dtd_server_apm.Health.Grades.{rank, grade_for_monotone, IsJudged, compute_health-IsJudged}

abbrev pub hundredths : Floats ℕ ℕ
hundredths = record {
  of_num = λ n. some (n * 100);
  parse = λ s. none;
  is_finite = λ x. true;
  is_true = λ x. not (x == 0);
  is_true_num = λ n. not (n == 0);
  show = λ v. codes "None";
  lt = ltb;
  le = leb;
  plus_float = λ x y. x + y;
  sub = λ x y. x - y;
  mul = λ x y. x * y / 100;
  div = λ x y. x * 100 / y;
  zero_float = 0;
  hundredths = λ n. n;
  round = λ x digits. x;
  format = λ x spec. str x;
}

pub ordered : IsOrdered hundredths
ordered = record {
  lt-le = λ x y h. ground (arith, h);
  le-trans = λ x y z h k. ground (arith, h, k);
  zero-literal = refl;
  literals = λ m n h. h;
  round-le = λ x y digits h. h;
}

grade_for_monotone_example : rank (grade_for hundredths 7100) ≤ rank (grade_for hundredths 8600)
grade_for_monotone_example = grade_for_monotone hundredths ordered 7100 8600 refl

abbrev scores : List (Text × ℕ)
scores = (codes "cpu", 4000) ∷ (codes "io", 1000) ∷ []

compute_health-IsJudged_example : IsJudged hundredths ordered (compute_health hundredths scores)
compute_health-IsJudged_example = compute_health-IsJudged hundredths ordered scores

abbrev cpu_layer : Fields ℕ
cpu_layer = field (codes "layer") (Json.str (codes "cpu")) (field (codes "score") (num 40) end)

abbrev summary : Fields ℕ
summary = field (codes "layers") (arr (cons (obj cpu_layer) nil)) end

abbrev budget : Fields ℕ
budget = field (codes "max_layer_scores") (obj (field (codes "cpu") (num 50) end)) end

check-verdict_example :
    (check hundredths summary [] budget none 0).ok
    ≡ all is_passed (check hundredths summary [] budget none 0).lines
check-verdict_example = check-verdict hundredths summary [] budget none 0

within_budget : (check hundredths summary [] budget none 0).ok ≡ true
unfolding check gate_layers gate_layer gate gate_at gate_sum gate_sections compare_baseline
    gate_rate gate_late get_or as_number collected_layer_scores scores_from score_into object_list
    objects layer_is_collected lookup insert
within_budget = refl

check-passed_example :
    All
      (IsWithin hundredths (collected_layer_scores hundredths summary))
      (to_pairs (as_mapping (get budget (codes "max_layer_scores"))))
check-passed_example = check-passed hundredths summary [] budget none 0 within_budget

read_label-prom_label_example :
    read_label (prom_label (codes "a\"\nb\\") ++ b'"' ∷ codes "} 1")
    ≡ some (codes "a\"\nb\\", codes "} 1")
read_label-prom_label_example = read_label-prom_label (codes "a\"\nb\\") (codes "} 1")

plain : (x : ℕ) (spec : Text) → IsLine (str x)
plain x spec = record { lacks = str-no_newline x }

export_metrics-HasLines_example :
    HasLines hundredths plain
      (export_metrics hundredths (readable summary) absent (readable budget))
export_metrics-HasLines_example =
    export_metrics-HasLines hundredths plain (readable summary) absent (readable budget)

abbrev slower : Evidence ℕ
slower = record {
  summary =
      field (codes "meta") (obj (field (codes "seconds") (num 60) end))
        (field (codes "layers") (arr (cons (obj cpu_layer) nil)) end);
  bridge = end;
  snapshots = [];
  workload = no_workload;
}

abbrev same_json : Json ℕ → Json ℕ → Bool
same_json null null = true
same_json _ _ = false

compare_sessions-IsDecided_example :
    IsDecided hundredths same_json
      (λ x. x)
      (λ x y. x - y)
      slower
      slower
      (compare_sessions hundredths same_json (λ x. x) (λ x y. x - y) slower slower)
compare_sessions-IsDecided_example =
    compare_sessions-IsDecided hundredths same_json (λ x. x) (λ x y. x - y) slower slower

paired_deltas-IsPaired_example :
    All
      (IsPaired hundredths scores ((codes "cpu", 3900) ∷ []))
      (paired_deltas hundredths 3 scores ((codes "cpu", 3900) ∷ []))
    × All
        (λ n.
          contains
            (map (λ r. r.name) (paired_deltas hundredths 3 scores ((codes "cpu", 3900) ∷ [])))
            n
          ≡ true)
        (names_of hundredths scores ++ names_of hundredths ((codes "cpu", 3900) ∷ []))
paired_deltas-IsPaired_example =
    paired_deltas-IsPaired hundredths scores ((codes "cpu", 3900) ∷ []) 3
