-- ===== src/Report/Causes.antt =====
-- The causes of lag in `diagnose_lag` of tools/apm_suite/analysis/report.py: which fired and how badly.
-- The detail and the fix of a cause, which are texts for the reader, are left out.
use dtd_server_apm.Common.{
  Bool, false, not, ◌&&◌, ◌||◌, List, [], ◌∷◌, ◌++◌, Option, none, some, Text, codes, ◌=?◌, nat_eq,
  list_eq, if◌then◌else◌, keep,
}
use dtd_server_apm.Common.Dict.{lookup, insert}
use dtd_server_apm.Io.Json.{Json, Fields, end}
use dtd_server_apm.Models.{get, as_mapping, as_number, or_zero, text_of, is_null}
use dtd_server_apm.Models.Numbers.{Floats, max_float, min_float}
use dtd_server_apm.Bridge.Ledger.{Integers}

pub data Cause : Type 0 where
  server_saturated gc_pauses main_thread_bound disk_io_stall memory_growth cpu_starvation : Cause
  lock_contention chunk_bandwidth : Cause
  subsystem_bound : Text → Cause

pub record Fired (F : Type 0) : Type 0 where
  pub cause : Cause
  pub severity : F

-- `LayerScore`, as far as it is read and changed here.
pub record LayerScore (N F : Type 0) : Type 0 where
  pub layer : Text
  pub collected : Bool
  pub score : Option F
  pub signals : Fields N

module _ {N Z F : Type 0} (fl : Floats N F) (ints : Integers Z F) where
  open fl use {lt, le, sub, plus_float, mul, div, zero_float, hundredths, round, is_true}
  open ints use {int_of, float_of, minus, zero_int, is_true_int, at_least}

  -- `_num0` and `_int0`.
  unfoldable pub num0 : Json N → F
  unfolding as_number
  num0 value = or_zero fl (as_number fl value)

  unfoldable pub int0 : Json N → Z
  unfolding num0
  int0 value = int_of (num0 value)

  -- The signals of the collected layers.
  unfoldable pub collected_signals :
      List (Text × Fields N) → List (LayerScore N F) → List (Text × Fields N)
  unfolding insert
  collected_signals signals [] = signals
  collected_signals signals (l ∷ layers) =
      collected_signals (if l.collected then insert l.layer l.signals signals else signals) layers

  unfoldable pub signals_of : List (Text × Fields N) → Text → Fields N
  unfolding lookup
  signals_of signals name = elim (lookup name signals) [ none ↦ end | some fs ↦ fs ]

  -- `round(min(1.0, x), 2)`.
  unfoldable pub severity_of : F → F
  severity_of x = round (min_float fl (hundredths 100) x) 2

  unfoldable pub fired_if : Bool → Cause → F → List (Fired F)
  unfolding severity_of
  fired_if test cause x =
      if test then record { cause = cause; severity = severity_of x } ∷ [] else []

  -- A quotient by a count that is 0 where the count is.
  unfoldable pub share_of_ticks : Z → Z → F
  share_of_ticks late window =
      if is_true_int window then div (float_of late) (float_of window) else zero_float

  unfoldable pub is_saturated : Fields N → Bool
  unfolding num0 int0 share_of_ticks
  is_saturated frame =
      le (hundredths 15000) (num0 (get frame (codes "tickIntervalAvgMs")))
      && le (hundredths 90) (
          share_of_ticks (int0 (get frame (codes "lateTicks")))
            (int0 (get frame (codes "windowUpdates"))))

  unfoldable pub saturation_cause : Fields N → List (Fired F)
  unfolding is_saturated
  saturation_cause frame =
      if is_saturated frame
      then record { cause = server_saturated; severity = hundredths 100 } ∷ []
      else []

  unfoldable pub gc_cause : Fields N → Fields N → List (Fired F)
  unfolding num0 int0 fired_if
  gc_cause gc gc_signals =
      let gross = num0 (get gc (codes "grossAllocMBPerSecond")) in
      let full_gc = int0 (get gc (codes "fullCollections")) in
      let worst_stw = num0 (get gc_signals (codes "stw_pause_worst_ms")) in
      fired_if (le (hundredths 150) gross || at_least full_gc 1 || le (hundredths 5000) worst_stw)
        gc_pauses
        (plus_float
          (plus_float (div gross (hundredths 800)) (div (float_of full_gc) (hundredths 600)))
          (div worst_stw (hundredths 20000)))

  unfoldable pub main_thread_cause : Fields N → List (Fired F)
  unfolding num0 fired_if
  main_thread_cause threads =
      let main_share = num0 (get threads (codes "main_thread_share_of_process_avg")) in
      fired_if (le (hundredths 50) main_share) main_thread_bound main_share

  unfoldable pub disk_cause : Fields N → List (Fired F)
  unfolding num0 fired_if
  disk_cause scheduler =
      let disk_ms = num0 (get scheduler (codes "disk_block_ms")) in
      fired_if (le (hundredths 5000) disk_ms) disk_io_stall (div disk_ms (hundredths 500000))

  -- The growth of open files, where both ends were measured.
  unfoldable pub fd_growth : Fields N → Option Z
  unfolding int0
  fd_growth mem =
      if is_null (get mem (codes "fd_start")) || is_null (get mem (codes "fd_end"))
      then none
      else some (minus (int0 (get mem (codes "fd_end"))) (int0 (get mem (codes "fd_start"))))

  unfoldable pub grew : Option Z → Bool
  grew none = false
  grew (some n) = at_least n 100

  unfoldable pub growth_or_zero : Option Z → Z
  growth_or_zero none = zero_int
  growth_or_zero (some n) = n

  unfoldable pub memory_cause : Fields N → List (Fired F)
  unfolding num0 fired_if fd_growth grew growth_or_zero
  memory_cause mem =
      let rss_slope = num0 (get mem (codes "rss_growth_mb_per_s")) in
      fired_if (le (hundredths 500) rss_slope || grew (fd_growth mem)) memory_growth (
        plus_float (div rss_slope (hundredths 2000))
          (div (float_of (growth_or_zero (fd_growth mem))) (hundredths 50000)))

  unfoldable pub starvation_cause : Fields N → List (Fired F)
  unfolding num0 fired_if
  starvation_cause scheduler =
      let runq_stall = num0 (get scheduler (codes "main_runq_stall_ms")) in
      fired_if (le (hundredths 5000) runq_stall) cpu_starvation (div runq_stall (hundredths 200000))

  unfoldable pub lock_cause : Fields N → List (Fired F)
  unfolding num0 int0 fired_if
  lock_cause sync_signals =
      let slow_futex = int0 (get sync_signals (codes "slow_futex_lines")) in
      let wait_share = num0 (get sync_signals (codes "main_thread_futex_wait_share")) in
      fired_if (at_least slow_futex 5 || le (hundredths 5) wait_share) lock_contention
        (max_float fl (div (float_of slow_futex) (hundredths 10000)) wait_share)

  unfoldable pub bandwidth_cause : Fields N → Fields N → List (Fired F)
  unfolding num0 fired_if
  bandwidth_cause transfers net =
      let bridge_mb_s = num0 (get transfers (codes "mb_per_second")) in
      let kernel_send = num0 (get net (codes "udp_send_mb_per_second")) in
      let current_mb_s = if lt zero_float kernel_send then kernel_send else bridge_mb_s in
      fired_if (le (hundredths 2000) current_mb_s || le (hundredths 2000) bridge_mb_s)
        chunk_bandwidth (div current_mb_s (hundredths 10000))

  -- `max(disjoint, key=share)`: the first of the largest, the frame itself left aside.
  unfoldable pub is_disjoint : Fields N → Bool
  is_disjoint s = not (text_of fl (get s (codes "subsystem")) =? codes "frame_core")

  unfoldable pub top_from : Fields N → List (Fields N) → Fields N
  unfolding num0
  top_from best [] = best
  top_from best (s ∷ subsystems) =
      top_from
        (if lt (num0 (get best (codes "share"))) (num0 (get s (codes "share"))) then s else best)
        subsystems

  unfoldable pub top_of : List (Fields N) → Option (Fields N)
  unfolding top_from
  top_of [] = none
  top_of (s ∷ subsystems) = some (top_from s subsystems)

  unfoldable pub bound_by : Option (Fields N) → List (Fired F)
  unfolding num0 fired_if
  bound_by none = []
  bound_by (some top) =
      let share = num0 (get top (codes "share")) in
      fired_if (le (hundredths 45) share)
        (subsystem_bound (text_of fl (get top (codes "subsystem")))) share

  unfoldable pub subsystem_cause : List (Fields N) → List (Fired F)
  unfolding bound_by top_of is_disjoint keep
  subsystem_cause subsystems = bound_by (top_of (keep is_disjoint subsystems))

  -- The causes in the order of the checks.
  unfoldable pub causes_of :
      List (Text × Fields N) → Fields N → Fields N → List (Fields N) → List (Fired F)
  unfolding saturation_cause gc_cause main_thread_cause disk_cause memory_cause starvation_cause
      lock_cause bandwidth_cause subsystem_cause signals_of
  causes_of signals metadata threads subsystems =
      saturation_cause (as_mapping (get metadata (codes "frame")))
      ++ (gc_cause (as_mapping (get metadata (codes "gc")))
            (signals_of signals (codes "runtime_gc"))
          ++ (main_thread_cause threads
              ++ (disk_cause (signals_of signals (codes "scheduler"))
                  ++ (memory_cause (as_mapping (get metadata (codes "memory")))
                      ++ (starvation_cause (signals_of signals (codes "scheduler"))
                          ++ (lock_cause (signals_of signals (codes "sync_locks"))
                              ++ (bandwidth_cause (as_mapping (get metadata (codes "transfers")))
                                    (as_mapping (get metadata (codes "net")))
                                  ++ subsystem_cause subsystems)))))))
