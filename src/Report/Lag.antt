-- ===== src/Report/Lag.antt =====
-- `diagnose_lag` of tools/apm_suite/analysis/report.py.
pub mod Named
pub mod Symptoms
use dtd_server_apm.Common.{
  ℕ, Bool, true, false, not, ◌&&◌, ◌||◌, List, [], ◌∷◌, ◌++◌, Option, none, some, Text, codes, ◌=?◌,
  nat_eq, list_eq, if◌then◌else◌, map, keep,
}
use dtd_server_apm.Common.Dict.{lookup, insert}
use dtd_server_apm.Common.Sort.{sorted}
use dtd_server_apm.Io.Json.{Json, Fields, end}
use dtd_server_apm.Models.{get, as_mapping, as_number, or_zero, text_of, is_null}
use dtd_server_apm.Models.Numbers.{Floats, max_float, min_float}
use dtd_server_apm.Bridge.Ledger.{Integers}
use dtd_server_apm.Report.Causes.{
  Cause, Fired, LayerScore, num0, int0, is_saturated, causes_of, collected_signals,
}

pub data LagProfile : Type 0 where
  spike_driven compute_bound : LagProfile

pub data Judgement : Type 0 where
  deadline_met unexplained : Judgement
  overloaded laggy_by : List Cause → Judgement

pub record Diagnosis (F : Type 0) : Type 0 where
  pub laggy : Bool
  pub judgement : Judgement
  pub causes : List (Fired F)
  pub tps : Option F
  pub profile : Option (LagProfile × F)

module _ {N Z F : Type 0} (fl : Floats N F) (ints : Integers Z F) where
  open fl use {lt, sub, mul, div, zero_float, hundredths, round, is_true}
  open ints use {at_least}

  -- The headroom of the tick and the regime, where the server is laggy and the compute was measured.
  unfoldable pub profile_of : Bool → F → Option (LagProfile × F)
  profile_of laggy gm_avg =
      if is_true gm_avg && laggy
      then some (
        (if lt gm_avg (mul (hundredths 5000) (hundredths 60)) then spike_driven else compute_bound),
        round
            (mul (max_float fl zero_float (div (sub (hundredths 5000) gm_avg) (hundredths 5000)))
              (hundredths 10000))
            1,
      )
      else none

  unfoldable pub judgement_of : Bool → Bool → List (Fired F) → Judgement
  judgement_of false saturated causes = deadline_met
  judgement_of true true causes = overloaded (map (λ c. c.cause) causes)
  judgement_of true false [] = unexplained
  judgement_of true false (c ∷ causes) = laggy_by (map (λ d. d.cause) (c ∷ causes))

  unfoldable pub tps_of : F → F
  tps_of tick_interval =
      if lt zero_float tick_interval then div (hundredths 100000) tick_interval else zero_float

  unfoldable pub diagnose_lag :
      List (LayerScore N F) → Fields N → Fields N → List (Fields N) → Diagnosis F
  unfolding causes_of collected_signals profile_of judgement_of is_saturated tps_of sorted
  diagnose_lag layers metadata threads subsystems =
      let frame = as_mapping (get metadata (codes "frame")) in
      let laggy = at_least (int0 fl ints (get frame (codes "lateTicks"))) 1 in
      let saturated = is_saturated fl ints frame in
      let causes : List (Fired F) =
        sorted (λ c d. lt d.severity c.severity)
          (causes_of fl ints (collected_signals fl ints [] layers) metadata threads subsystems) in
      record {
        laggy = laggy;
        judgement = judgement_of laggy saturated causes;
        causes = causes;
        tps =
            (if saturated
              then some (round (tps_of (num0 fl ints (get frame (codes "tickIntervalAvgMs")))) 2)
              else none);
        profile = profile_of laggy (num0 fl ints (get frame (codes "gmUpdateAvgMs")));
      }
