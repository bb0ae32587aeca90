-- ===== src/Report/Pressure.antt =====
-- The adjustments of the layer scores in `build_summary`, tools/apm_suite/analysis/report.py. Python's
-- `float` and `int` on a JSON value, and the JSON of a number, are parameters; a conversion that raises
-- leaves the layers as they are. The two values of the main thread and the trend of the memory, which the
-- tools measure themselves, are given as they were measured.
pub mod Raised
use dtd_server_apm.Common.{
  Bool, true, false, ◌&&◌, ◌||◌, List, Option, none, some, Text, codes, ◌=?◌, nat_eq, list_eq,
  if◌then◌else◌, map,
}
use dtd_server_apm.Io.Json.{Json, Fields, null, end, field}
use dtd_server_apm.Models.{get, is_null, or_zero, truthy}
use dtd_server_apm.Models.Numbers.{Floats, max_float}
use dtd_server_apm.Bridge.Ledger.{Integers}
use dtd_server_apm.Report.Causes.{LayerScore, int0, share_of_ticks, grew}

pub record Conversions (N Z F : Type 0) : Type 0 where
  pub float : Json N → Option F
  pub int : Json N → Option Z
  pub of_float : F → Json N
  pub of_int : Z → Json N

unfoldable pub set_signal : {N : Type 0} → Text → Json N → Fields N → Fields N
set_signal name v end = field name v end
set_signal name v (field other w fs) =
    let rest = set_signal name v fs in if name =? other then field name v fs else field other w rest

-- The layers with `change` made to the collected layer of that name.
unfoldable pub on_layer :
    {N F : Type 0}
    → Text
    → (LayerScore N F → LayerScore N F)
    → List (LayerScore N F)
    → List (LayerScore N F)
on_layer name change layers =
    map (λ l. if (l.layer =? name) && l.collected then change l else l) layers

module _ {N F : Type 0} (fl : Floats N F) where
  -- `max(layer.score or 0, limit)` where the first test holds, with the second limit where only the
  -- second test does.
  unfoldable pub raised : Bool → F → Bool → F → Option F → Option F
  raised hard high soft low score =
      if hard
      then some (max_float fl (or_zero fl score) high)
      else if soft
      then some (max_float fl (or_zero fl score) low)
      else score

module _ {N Z F : Type 0} (fl : Floats N F) (ints : Integers Z F) (conv : Conversions N Z F) where
  open fl use {le, hundredths, round, zero_float}
  open ints use {at_least, zero_int, is_true_int}
  open conv use {float, int, of_float, of_int}

  unfoldable pub json_or_null : Option F → Json N
  json_or_null none = null
  json_or_null (some x) = of_float x

  unfoldable pub with_main_thread : F → Option F → LayerScore N F → LayerScore N F
  with_main_thread share cpu l = record {
    layer = l.layer;
    collected = l.collected;
    score =
        raised fl (le (hundredths 50) share && le (hundredths 8000) (or_zero fl cpu))
          (hundredths 8500) (le (hundredths 50) share) (hundredths 5500) l.score;
    signals =
        set_signal (codes "main_thread_share_of_process") (of_float share)
          (set_signal (codes "main_thread_cpu_pct") (json_or_null cpu) l.signals);
  }

  unfoldable pub apply_main_thread_pressure :
      List (LayerScore N F) → Option F → Option F → List (LayerScore N F)
  apply_main_thread_pressure layers none cpu = layers
  apply_main_thread_pressure layers (some share) cpu =
      on_layer (codes "cpu") (with_main_thread share cpu) layers

  unfoldable pub float_or_zero : Json N → Option F
  float_or_zero v = if truthy fl v then float v else some zero_float

  unfoldable pub int_or_zero : Json N → Option Z
  int_or_zero v = if truthy fl v then int v else some zero_int

  unfoldable pub with_gc : F → F → Z → LayerScore N F → LayerScore N F
  with_gc alloc churn collections l = record {
    layer = l.layer;
    collected = l.collected;
    score =
        raised fl (le (hundredths 1000) churn || at_least collections 3) (hundredths 8000)
          (le (hundredths 400) churn || at_least collections 1) (hundredths 5000) l.score;
    signals =
        set_signal (codes "full_gc_collections") (of_int collections)
          (set_signal (codes "alloc_mb_per_second") (of_float (round alloc 2)) l.signals);
  }

  unfoldable pub gc_pressure_of :
      List (LayerScore N F) → Option F → Option F → Option Z → List (LayerScore N F)
  gc_pressure_of layers (some alloc) (some churn) (some collections) =
      on_layer (codes "runtime_gc") (with_gc alloc churn collections) layers
  gc_pressure_of layers (some alloc) (some churn) none = layers
  gc_pressure_of layers (some alloc) none collections = layers
  gc_pressure_of layers none churn collections = layers

  unfoldable pub apply_gc_pressure : List (LayerScore N F) → Fields N → List (LayerScore N F)
  unfolding gc_pressure_of float_or_zero int_or_zero
  apply_gc_pressure layers gc_meta =
      let alloc = float_or_zero (get gc_meta (codes "allocMBPerSecond")) in
      let gross = get gc_meta (codes "grossAllocMBPerSecond") in
      gc_pressure_of layers alloc (if is_null gross then alloc else float gross)
        (int_or_zero (get gc_meta (codes "fullCollections")))

  unfoldable pub with_late_ticks : Z → F → Json N → LayerScore N F → LayerScore N F
  with_late_ticks late late_share stall l = record {
    layer = l.layer;
    collected = l.collected;
    score =
        raised fl (le (hundredths 25) late_share) (hundredths 9000) (le (hundredths 5) late_share)
          (hundredths 6000) l.score;
    signals = set_signal (codes "tick_stall_ms") stall (
        set_signal (codes "late_tick_share") (of_float (round late_share 4))
          (set_signal (codes "late_ticks") (of_int late) l.signals));
  }

  unfoldable pub apply_late_tick_pressure : List (LayerScore N F) → Fields N → List (LayerScore N F)
  apply_late_tick_pressure layers update =
      let late = int0 fl ints (get update (codes "lateTicks")) in
      let window = int0 fl ints (get update (codes "windowUpdates")) in
      if is_true_int window
      then on_layer (codes "app_sim")
          (with_late_ticks late (share_of_ticks fl ints late window)
            (get update (codes "tickStallMsTotal")))
          layers
      else layers

  unfoldable pub growth_signal : Option Z → Fields N → Fields N
  unfolding set_signal
  growth_signal none signals = signals
  growth_signal (some n) signals = set_signal (codes "fd_growth") (of_int n) signals

  unfoldable pub with_memory : F → Option Z → LayerScore N F → LayerScore N F
  with_memory slope fd_growth l = record {
    layer = l.layer;
    collected = l.collected;
    score =
        raised fl (le (hundredths 500) slope || grew fl ints fd_growth) (hundredths 7000) false
          zero_float l.score;
    signals =
        growth_signal fd_growth
          (set_signal (codes "rss_growth_mb_per_s") (of_float slope) l.signals);
  }

  unfoldable pub apply_memory_trend :
      List (LayerScore N F) → Option F → Option Z → List (LayerScore N F)
  apply_memory_trend layers slope fd_growth =
      on_layer (codes "memory_cache") (with_memory (or_zero fl slope) fd_growth) layers
