-- ===== src/Budget/Verdict.antt =====
-- The verdict and the report agree.
use dtd_server_apm.Common.{
  ◌≡◌, refl, Bool, true, false, ◌&&◌, List, [], ◌∷◌, ◌++◌, Option, none, some, Text, codes, all,
  arith, if◌then◌else◌, if_cases, not, nat_eq, list_eq,
}
use dtd_server_apm.Common.Dict.{lookup}
use dtd_server_apm.Io.Json.{Json, Fields, to_pairs}
use dtd_server_apm.Models.{get, as_mapping, as_number, is_null, collected_layer_scores}
use dtd_server_apm.Models.Numbers.{Floats}
use dtd_server_apm.Budget.{
  Label, Line, within, exceeds, unparseable_limit, no_evidence, skip_section, coverage_differs,
  stable, regressed, skip_rate, unparseable_rate, skip_late, unparseable_late,
  unparseable_late_limit, late_within, late_exceeds, Report, note, fail_with, gate_at, gate,
  gate_layer, gate_layers, gate_section, gate_sections, gate_sum, compare_layer, compare_layers,
  compare_baseline, same_names, gate_number, gate_rate, gate_share, gate_late_numbers, gate_late,
  check,
}

-- Neither FAIL nor UNKNOWN.
abbrev pub is_passed : {F : Type 0} → Line F → Bool
is_passed (within l x y) = true
is_passed (skip_section n) = true
is_passed (stable n x y) = true
is_passed (skip_rate k) = true
is_passed skip_late = true
is_passed (late_within x y) = true
is_passed _ = false

pub record IsHonest {F : Type 0} (r : Report F) : Type 0 where
  pub agrees : r.ok ≡ all is_passed r.lines

all-append :
    {F : Type 0} (xs ys : List (Line F))
    → all is_passed (xs ++ ys) ≡ all is_passed xs && all is_passed ys
all-append [] ys = refl
all-append (x ∷ xs) ys = ground (arith, all-append xs ys)

-- From one report to a later one: the verdict keeps to the lines, and never comes back.
pub record IsStep {F : Type 0} (r r' : Report F) : Type 0 where
  pub honest : IsHonest r → IsHonest r'
  pub latched : r'.ok ≡ true → r.ok ≡ true

module _ {F : Type 0} where
  pub stay : (r : Report F) → IsStep r r
  stay r = record { honest = λ h. h; latched = λ h. h }

  pub followed : {r s t : Report F} → IsStep r s → IsStep s t → IsStep r t
  followed h k = record {
    honest = λ x. k.honest (h.honest x);
    latched = λ x. h.latched (k.latched x);
  }

  pub note-IsStep : (line : Line F) (r : Report F) → is_passed line ≡ true → IsStep r (note line r)
  note-IsStep line r p = record {
    honest = λ h. record { agrees = ground (arith, h.agrees, all-append r.lines (line ∷ [])) };
    latched = λ h. h;
  }

  pub fail_with-IsStep :
      (line : Line F) (r : Report F) → is_passed line ≡ false → IsStep r (fail_with line r)
  fail_with-IsStep line r p = record {
    honest = λ h. record { agrees = ground (arith, all-append r.lines (line ∷ [])) };
    latched = λ h. cc h;
  }

  -- One of two lines, a pass or a failure.
  pub either-IsStep :
      (b : Bool) (bad good : Line F) (r : Report F)
      → is_passed bad ≡ false
      → is_passed good ≡ true
      → IsStep r (if b then fail_with bad r else note good r)
  either-IsStep b bad good r p q =
      if_cases (IsStep r) b (fail_with bad r) (note good r) (λ _. fail_with-IsStep bad r p)
        (λ _. note-IsStep good r q)

module _ {N F : Type 0} (fl : Floats N F) where
  gate_at-IsStep :
      (label : Label) (value : F) (bound : Option F) (r : Report F)
      → IsStep r (gate_at fl label value bound r)
  unfolding gate_at
  gate_at-IsStep label value none r = fail_with-IsStep (unparseable_limit label) r refl
  gate_at-IsStep label value (some bound) r =
      either-IsStep (fl.lt bound value) (exceeds label value bound) (within label value bound) r
        refl refl

  pub gate-IsStep :
      (label : Label) (value : F) (limit : Json N) (r : Report F)
      → IsStep r (gate fl label value limit r)
  unfolding gate
  gate-IsStep label value limit r = gate_at-IsStep label value (as_number fl limit) r

  gate_layer-IsStep :
      (name : Text) (limit : Json N) (score : Option F) (r : Report F)
      → IsStep r (gate_layer fl name limit score r)
  unfolding gate_layer
  gate_layer-IsStep name limit none r = fail_with-IsStep (no_evidence name) r refl
  gate_layer-IsStep name limit (some value) r = gate-IsStep _ value limit r

  pub gate_layers-IsStep :
      (layers : List (Text × F)) (rows : List (Text × Json N)) (r : Report F)
      → IsStep r (gate_layers fl layers rows r)
  unfolding gate_layers
  gate_layers-IsStep layers [] r = stay r
  gate_layers-IsStep layers ((name, limit) ∷ rows) r =
      followed (gate_layer-IsStep name limit (lookup name layers) r)
        (gate_layers-IsStep layers rows (gate_layer fl name limit (lookup name layers) r))

  gate_section-IsStep :
      (name : Text) (limit : Json N) (heat : Option F) (r : Report F)
      → IsStep r (gate_section fl name limit heat r)
  unfolding gate_section
  gate_section-IsStep name limit none r = note-IsStep (skip_section name) r refl
  gate_section-IsStep name limit (some value) r = gate-IsStep _ value limit r

  gate_sections-IsStep :
      (sections : List (Text × F)) (rows : List (Text × Json N)) (r : Report F)
      → IsStep r (gate_sections fl sections rows r)
  unfolding gate_sections
  gate_sections-IsStep sections [] r = stay r
  gate_sections-IsStep sections ((name, limit) ∷ rows) r =
      followed (gate_section-IsStep name limit (lookup name sections) r)
        (gate_sections-IsStep sections rows (gate_section fl name limit (lookup name sections) r))

  gate_sum-IsStep :
      (layers : List (Text × F)) (limit : Json N) (r : Report F)
      → IsStep r (gate_sum fl layers limit r)
  unfolding gate_sum
  gate_sum-IsStep layers limit r =
      if_cases (IsStep r) (is_null limit) r _ (λ _. stay r) (λ _. gate-IsStep _ _ limit r)

  compare_layer-IsStep :
      (max_regression : F) (name : Text) (base : F) (score : Option F) (r : Report F)
      → IsStep r (compare_layer fl max_regression name base score r)
  unfolding compare_layer
  compare_layer-IsStep max_regression name base none r = stay r
  compare_layer-IsStep max_regression name base (some value) r =
      either-IsStep (fl.lt max_regression (fl.sub value base)) (regressed name base value)
        (stable name base value) r refl refl

  compare_layers-IsStep :
      (max_regression : F) (layers rows : List (Text × F)) (r : Report F)
      → IsStep r (compare_layers fl max_regression layers rows r)
  unfolding compare_layers
  compare_layers-IsStep max_regression layers [] r = stay r
  compare_layers-IsStep max_regression layers ((name, base) ∷ rows) r =
      followed (compare_layer-IsStep max_regression name base (lookup name layers) r) (
        compare_layers-IsStep max_regression layers rows
          (compare_layer fl max_regression name base (lookup name layers) r))

  compare_baseline-IsStep :
      (max_regression : F) (layers : List (Text × F)) (baseline : Option (List (Text × F)))
      (r : Report F)
      → IsStep r (compare_baseline fl max_regression layers baseline r)
  unfolding compare_baseline
  compare_baseline-IsStep max_regression layers none r = stay r
  compare_baseline-IsStep max_regression layers (some base) r =
      if_cases (IsStep r) (not (same_names fl base layers)) _ _
        (λ _. fail_with-IsStep coverage_differs r refl)
        (λ _. compare_layers-IsStep max_regression layers base r)

  gate_number-IsStep :
      (key : Text) (limit : Json N) (number : Option F) (r : Report F)
      → IsStep r (gate_number fl key limit number r)
  unfolding gate_number
  gate_number-IsStep key limit none r = fail_with-IsStep (unparseable_rate key) r refl
  gate_number-IsStep key limit (some number) r = gate-IsStep _ number limit r

  gate_rate-IsStep :
      (key : Text) (limit value : Json N) (r : Report F) → IsStep r (gate_rate fl key limit value r)
  unfolding gate_rate
  gate_rate-IsStep key limit value r =
      if_cases (IsStep r) (is_null limit) r _ (λ _. stay r)
        (λ _.
          if_cases (IsStep r) (is_null value) _ _ (λ _. note-IsStep (skip_rate key) r refl)
            (λ _. gate_number-IsStep key limit (as_number fl value) r))

  gate_share-IsStep :
      (late window : F) (bound : Option F) (r : Report F)
      → IsStep r (gate_share fl late window bound r)
  unfolding gate_share
  gate_share-IsStep late window none r = fail_with-IsStep unparseable_late_limit r refl
  gate_share-IsStep late window (some bound) r =
      either-IsStep (fl.lt bound (fl.div late window)) (late_exceeds late window)
        (late_within late window) r refl refl

  gate_late_numbers-IsStep :
      (limit : Json N) (late window : Option F) (r : Report F)
      → IsStep r (gate_late_numbers fl limit late window r)
  unfolding gate_late_numbers
  gate_late_numbers-IsStep limit (some late) (some window) r =
      if_cases (IsStep r) (fl.lt fl.zero_float window) _ _
        (λ _. gate_share-IsStep late window (as_number fl limit) r)
        (λ _. note-IsStep skip_late r refl)
  gate_late_numbers-IsStep limit none window r = fail_with-IsStep unparseable_late r refl
  gate_late_numbers-IsStep limit (some late) none r = fail_with-IsStep unparseable_late r refl

  gate_late-IsStep :
      (limit : Json N) (frame : Fields N) (r : Report F) → IsStep r (gate_late fl limit frame r)
  unfolding gate_late
  gate_late-IsStep limit frame r =
      if_cases (IsStep r) (is_null limit) r _ (λ _. stay r)
        (λ _.
          if_cases (IsStep r)
            (is_null (get frame (codes "lateTicks")) && is_null (get frame (codes "windowUpdates")))
            _ _ (λ _. note-IsStep skip_late r refl) (λ _. gate_late_numbers-IsStep limit _ _ r))

  -- The report with which `check` begins, and that of the layers' loop.
  abbrev pub empty_report : Report F
  empty_report = record { ok = true; lines = [] }

  abbrev pub layer_report : Fields N → Fields N → Report F
  layer_report summary budget =
      gate_layers fl (collected_layer_scores fl summary)
        (to_pairs (as_mapping (get budget (codes "max_layer_scores")))) empty_report

  pub check-IsStep :
      (summary : Fields N) (sections : List (Text × F)) (budget : Fields N)
      (baseline : Option (List (Text × F))) (max_regression : F)
      → IsStep
          (layer_report summary budget)
          (check fl summary sections budget baseline max_regression)
  unfolding check
  check-IsStep summary sections budget baseline max_regression = followed (gate_sum-IsStep _ _ _) (
      followed (gate_sections-IsStep _ _ _) (
        followed (compare_baseline-IsStep _ _ _ _) (
          followed (gate_rate-IsStep _ _ _ _)
            (followed (gate_rate-IsStep _ _ _ _) (gate_late-IsStep _ _ _)))))

  -- The verdict of a check is a pass exactly if no line of its report is a FAIL or an UNKNOWN.
  pub check-verdict :
      (summary : Fields N) (sections : List (Text × F)) (budget : Fields N)
      (baseline : Option (List (Text × F))) (max_regression : F)
      → (check fl summary sections budget baseline max_regression).ok
        ≡ all is_passed (check fl summary sections budget baseline max_regression).lines
  check-verdict summary sections budget baseline max_regression =
      ((check-IsStep summary sections budget baseline max_regression).honest
        ((gate_layers-IsStep _ _ empty_report).honest (record { agrees = refl }))).agrees
