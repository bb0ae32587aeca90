-- ===== src/Health.antt =====
-- `grade_for` and `compute_health` of tools/apm_suite/analysis/health.py. The session's name, and the
-- file that `build_health` writes, are left out.
pub mod Grades
use dtd_server_apm.Common.{
  ℕ, ◌+◌, Bool, true, false, List, [], ◌∷◌, ◌++◌, Option, none, some, Text, codes, nat_eq, list_eq,
  if◌then◌else◌,
}
use dtd_server_apm.Common.Dict.{lookup}
use dtd_server_apm.Models.Numbers.{Floats, max_float, min_float}

pub data Grade : Type 0 where
  grade_a grade_b grade_c grade_d grade_f : Grade

pub data Confidence : Type 0 where
  insufficient medium : Confidence

pub data Reason : Type 0 where
  no_reason no_layers little_coverage : Reason

-- `WEIGHTS`, in hundredths.
abbrev pub layer_weights : List (Text × ℕ)
layer_weights =
    (codes "sync_locks", 18)
    ∷ (codes "runtime_gc", 15)
    ∷ (codes "cpu", 15)
    ∷ (codes "app_sim", 15)
    ∷ (codes "io", 12)
    ∷ (codes "memory_cache", 12)
    ∷ (codes "scheduler", 13)
    ∷ []

abbrev pub default_weight : ℕ
default_weight = 8

-- `GRADE_BANDS`, in hundredths, best first.
abbrev pub grade_bands : List (ℕ × Grade)
grade_bands = (8500, grade_a) ∷ (7000, grade_b) ∷ (5500, grade_c) ∷ (4000, grade_d) ∷ []

-- `HealthV2`, less the session.
pub record Health (F : Type 0) : Type 0 where
  pub health : Option F
  pub pressure : Option F
  pub grade : Option Grade
  pub coverage : Option F
  pub confidence : Confidence
  pub reason : Reason
  pub detail : List (Text × F × F)

pub record Weighing (F : Type 0) : Type 0 where
  pub weighted : F
  pub weight_sum : F
  pub detail : List (Text × F × F)

abbrev pub weight_of : Option ℕ → ℕ
weight_of none = default_weight
weight_of (some w) = w

module _ {N F : Type 0} (fl : Floats N F) where
  open fl use {lt, le, plus_float, sub, mul, div, zero_float, hundredths, round, is_true}

  pub grade_in : List (ℕ × Grade) → F → Grade
  grade_in [] health = grade_f
  grade_in ((minimum, grade) ∷ bands) health =
      let rest = grade_in bands health in if le (hundredths minimum) health then grade else rest

  pub grade_for : F → Grade
  unfolding grade_in
  grade_for health = grade_in grade_bands health

  -- `max(0.0, min(100.0, x))`.
  abbrev pub clamp : F → F
  clamp x = max_float fl zero_float (min_float fl (hundredths 10_000) x)

  -- One round of the loop over the layers.
  pub weigh : Weighing F → Text → F → Weighing F
  unfolding lookup
  weigh w name score =
      let weight = hundredths (weight_of (lookup name layer_weights)) in
      let pressure = clamp score in
      record {
        weighted = plus_float w.weighted (mul weight pressure);
        weight_sum = plus_float w.weight_sum weight;
        detail = w.detail ++ (name, pressure, weight) ∷ [];
      }

  pub weigh_all : Weighing F → List (Text × F) → Weighing F
  unfolding weigh
  weigh_all w [] = w
  weigh_all w ((name, score) ∷ layers) = weigh_all (weigh w name score) layers

  -- `sum(WEIGHTS.values())`, which begins with 0.
  pub sum_weights : F → List (Text × ℕ) → F
  sum_weights total [] = total
  sum_weights total ((name, w) ∷ rows) = sum_weights (plus_float total (hundredths w)) rows

  -- The result for layers that are weighed.
  pub judge : Weighing F → Health F
  unfolding grade_for sum_weights
  judge w =
      let coverage = round (div w.weight_sum (sum_weights zero_float layer_weights)) 3 in
      let pressure = if is_true w.weight_sum then div w.weighted w.weight_sum else zero_float in
      let rounded = round (clamp (sub (hundredths 10_000) pressure)) 2 in
      if lt coverage (hundredths 80)
      then record {
        health = none;
        pressure = none;
        grade = none;
        coverage = some (min_float fl coverage (hundredths 100));
        confidence = insufficient;
        reason = little_coverage;
        detail = w.detail;
      }
      else record {
        health = some rounded;
        pressure = some (round pressure 2);
        grade = some (grade_for rounded);
        coverage = some (min_float fl coverage (hundredths 100));
        confidence = medium;
        reason = no_reason;
        detail = w.detail;
      }

  pub compute_health : List (Text × F) → Health F
  unfolding judge weigh_all
  compute_health [] = record {
    health = none;
    pressure = none;
    grade = none;
    coverage = none;
    confidence = insufficient;
    reason = no_layers;
    detail = [];
  }
  compute_health (layer ∷ layers) = judge (
      weigh_all (record { weighted = zero_float; weight_sum = zero_float; detail = [] })
        (layer ∷ layers))
