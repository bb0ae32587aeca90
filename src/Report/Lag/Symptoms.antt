-- ===== src/Report/Lag/Symptoms.antt =====
-- Which causes fire: the symptom of each, and that a list of causes names those with one.
use dtd_server_apm.Common.{
  ℕ, ◌≡◌, refl, sym, ap, ◌∙◌, Bool, true, false, ◌&&◌, ◌||◌, List, [], ◌∷◌, ◌++◌, Option, none,
  some, Text, codes, keep, any, if_cases, if◌then◌else◌, ◌==◌, nat_eq, list_eq, Bool-cases, inl,
  inr, arith,
}
use dtd_server_apm.Common.Sort.{sorted, insert_sorted}
use dtd_server_apm.Io.Json.{Fields}
use dtd_server_apm.Models.{get, as_mapping}
use dtd_server_apm.Models.Numbers.{Floats}
use dtd_server_apm.Bridge.Ledger.{Integers}
use dtd_server_apm.Report.Causes.{
  Cause, server_saturated, gc_pauses, main_thread_bound, disk_io_stall, memory_growth,
  cpu_starvation, lock_contention, chunk_bandwidth, subsystem_bound, Fired, num0, int0, fired_if,
  is_saturated, saturation_cause, gc_cause, main_thread_cause, disk_cause, fd_growth, grew,
  memory_cause, starvation_cause, lock_cause, bandwidth_cause, is_disjoint, top_of, bound_by,
  subsystem_cause, signals_of, causes_of,
}

-- The kinds of causes, numbered.
abbrev pub kind : Cause → ℕ
kind server_saturated = 0
kind gc_pauses = 1
kind main_thread_bound = 2
kind disk_io_stall = 3
kind memory_growth = 4
kind cpu_starvation = 5
kind lock_contention = 6
kind chunk_bandwidth = 7
kind (subsystem_bound name) = 8

or_assoc : (a b c : Bool) → ((a || b) || c) ≡ (a || (b || c))
or_assoc true b c = refl
or_assoc false b c = refl

or_swap : (a b c : Bool) → (a || (b || c)) ≡ (b || (a || c))
or_swap true true c = refl
or_swap true false c = refl
or_swap false b c = refl

or_false : (b : Bool) → (b || false) ≡ b
or_false true = refl
or_false false = refl

and_or_false : (a b : Bool) → ((a && b) || false) ≡ (a && b)
and_or_false true b = or_false b
and_or_false false b = refl

any-append {ℓ} :
    {A : Type ℓ} (p : A → Bool) (xs ys : List A) → any p (xs ++ ys) ≡ any p xs || any p ys
any-append p [] ys = refl
any-append p (x ∷ xs) ys =
    ap (λ b. p x || b) (any-append p xs ys) ∙ sym (or_assoc (p x) (any p xs) (any p ys))

any-insert_sorted {ℓ} :
    {A : Type ℓ} (p : A → Bool) (before : A → A → Bool) (x : A) (ys : List A)
    → any p (insert_sorted before x ys) ≡ p x || any p ys
unfolding insert_sorted
any-insert_sorted p before x [] = refl
any-insert_sorted p before x (y ∷ ys) =
    if_cases (λ l. any p l ≡ p x || (p y || any p ys)) (before y x) (y ∷ insert_sorted before x ys)
      (x ∷ y ∷ ys)
      (λ _. ap (λ b. p y || b) (any-insert_sorted p before x ys) ∙ or_swap (p y) (p x) (any p ys))
      (λ _. refl)

pub any-sorted {ℓ} :
    {A : Type ℓ} (p : A → Bool) (before : A → A → Bool) (xs : List A)
    → any p (sorted before xs) ≡ any p xs
unfolding sorted
any-sorted p before [] = refl
any-sorted p before (x ∷ xs) =
    any-insert_sorted p before x (sorted before xs) ∙ ap (λ b. p x || b) (any-sorted p before xs)

module _ {N Z F : Type 0} (fl : Floats N F) (ints : Integers Z F) where
  open fl use {lt, le, zero_float, hundredths}
  open ints use {at_least}

  -- Whether a list has a cause of a kind.
  abbrev pub names_kind : ℕ → List (Fired F) → Bool
  names_kind n causes = any (λ c. kind c.cause == n) causes

  -- The thresholds: of the frame, the collections, the main thread, the disk, the memory, the scheduler,
  -- the locks, the transfers and the subsystem with the largest share.
  pub symptom : List (Text × Fields N) → Fields N → Fields N → List (Fields N) → Cause → Bool
  symptom signals metadata threads subsystems server_saturated =
      is_saturated fl ints (as_mapping (get metadata (codes "frame")))
  symptom signals metadata threads subsystems gc_pauses =
      let gc = as_mapping (get metadata (codes "gc")) in
      le (hundredths 150) (num0 fl ints (get gc (codes "grossAllocMBPerSecond")))
      || at_least (int0 fl ints (get gc (codes "fullCollections"))) 1
      || le (hundredths 5000) (
          num0 fl ints
            (get (signals_of fl ints signals (codes "runtime_gc")) (codes "stw_pause_worst_ms")))
  symptom signals metadata threads subsystems main_thread_bound =
      le (hundredths 50) (num0 fl ints (get threads (codes "main_thread_share_of_process_avg")))
  symptom signals metadata threads subsystems disk_io_stall =
      le (hundredths 5000) (
        num0 fl ints (get (signals_of fl ints signals (codes "scheduler")) (codes "disk_block_ms")))
  symptom signals metadata threads subsystems memory_growth =
      let mem = as_mapping (get metadata (codes "memory")) in
      le (hundredths 500) (num0 fl ints (get mem (codes "rss_growth_mb_per_s")))
      || grew fl ints (fd_growth fl ints mem)
  symptom signals metadata threads subsystems cpu_starvation = le (hundredths 5000) (
      num0 fl ints
        (get (signals_of fl ints signals (codes "scheduler")) (codes "main_runq_stall_ms")))
  symptom signals metadata threads subsystems lock_contention =
      let locks = signals_of fl ints signals (codes "sync_locks") in
      at_least (int0 fl ints (get locks (codes "slow_futex_lines"))) 5
      || le (hundredths 5) (num0 fl ints (get locks (codes "main_thread_futex_wait_share")))
  symptom signals metadata threads subsystems chunk_bandwidth =
      let bridge =
        num0 fl ints
          (get (as_mapping (get metadata (codes "transfers"))) (codes "mb_per_second")) in
      let kernel =
        num0 fl ints
          (get (as_mapping (get metadata (codes "net"))) (codes "udp_send_mb_per_second")) in
      le (hundredths 2000) (if lt zero_float kernel then kernel else bridge)
      || le (hundredths 2000) bridge
  symptom signals metadata threads subsystems (subsystem_bound name) =
      elim (top_of fl ints (keep (λ s. is_disjoint fl ints s) subsystems)) [
        | none ↦ false
        | some top ↦ le (hundredths 45) (num0 fl ints (get top (codes "share")))
      ]

  fired_if-kind :
      (n : ℕ) (test : Bool) (cause : Cause) (x : F)
      → names_kind n (fired_if fl ints test cause x) ≡ (kind cause == n) && test
  unfolding fired_if
  fired_if-kind n true cause x = or_false (kind cause == n) ∙ sym (and_true (kind cause == n))
    where
      and_true : (b : Bool) → (b && true) ≡ b
      and_true true = refl
      and_true false = refl
  fired_if-kind n false cause x = sym (and_false (kind cause == n))
    where
      and_false : (b : Bool) → (b && false) ≡ false
      and_false true = refl
      and_false false = refl

  saturation_cause-kind :
      (n : ℕ) (frame : Fields N)
      → names_kind n (saturation_cause fl ints frame) ≡ (0 == n) && is_saturated fl ints frame
  unfolding saturation_cause
  saturation_cause-kind n frame = elim (Bool-cases (is_saturated fl ints frame)) [
    | inl e ↦ rw e (ground arith)
    | inr e ↦ rw e (ground arith)
  ]

  bound_by-kind :
      (n : ℕ) (top : Option (Fields N))
      → names_kind n (bound_by fl ints top)
        ≡ (8 == n) && elim top [
          | none ↦ false
          | some t ↦ le (hundredths 45) (num0 fl ints (get t (codes "share")))
        ]
  unfolding bound_by
  bound_by-kind n none = ground arith
  bound_by-kind n (some top) = fired_if-kind n _ (subsystem_bound _) _

  -- Whether a list has a cause of the kind `n`.
  record HasKind (n : ℕ) (causes : List (Fired F)) (b : Bool) : Type 0 where
    is_named : names_kind n causes ≡ b

  either :
      {n : ℕ} {xs ys : List (Fired F)} {a b : Bool}
      → HasKind n xs a
      → HasKind n ys b
      → HasKind n (xs ++ ys) (a || b)
  either {n = n} {xs = xs} {ys = ys} h k = record {
    is_named = any-append (λ c. kind c.cause == n) xs ys ∙ cc (h.is_named, k.is_named);
  }

  gc_cause-kind :
      (n : ℕ) (signals : List (Text × Fields N)) (metadata threads : Fields N)
      (subsystems : List (Fields N))
      → HasKind n
          (gc_cause fl ints
            (as_mapping (get metadata (codes "gc")))
            (signals_of fl ints signals (codes "runtime_gc")))
          ((1 == n) && symptom signals metadata threads subsystems gc_pauses)
  unfolding gc_cause symptom
  gc_cause-kind n signals metadata threads subsystems = record {
    is_named = fired_if-kind n _ gc_pauses _;
  }

  main_thread_cause-kind :
      (n : ℕ) (signals : List (Text × Fields N)) (metadata threads : Fields N)
      (subsystems : List (Fields N))
      → HasKind n
          (main_thread_cause fl ints threads)
          ((2 == n) && symptom signals metadata threads subsystems main_thread_bound)
  unfolding main_thread_cause symptom
  main_thread_cause-kind n signals metadata threads subsystems = record {
    is_named = fired_if-kind n _ main_thread_bound _;
  }

  disk_cause-kind :
      (n : ℕ) (signals : List (Text × Fields N)) (metadata threads : Fields N)
      (subsystems : List (Fields N))
      → HasKind n
          (disk_cause fl ints (signals_of fl ints signals (codes "scheduler")))
          ((3 == n) && symptom signals metadata threads subsystems disk_io_stall)
  unfolding disk_cause symptom
  disk_cause-kind n signals metadata threads subsystems = record {
    is_named = fired_if-kind n _ disk_io_stall _;
  }

  memory_cause-kind :
      (n : ℕ) (signals : List (Text × Fields N)) (metadata threads : Fields N)
      (subsystems : List (Fields N))
      → HasKind n
          (memory_cause fl ints (as_mapping (get metadata (codes "memory"))))
          ((4 == n) && symptom signals metadata threads subsystems memory_growth)
  unfolding memory_cause symptom
  memory_cause-kind n signals metadata threads subsystems = record {
    is_named = fired_if-kind n _ memory_growth _;
  }

  starvation_cause-kind :
      (n : ℕ) (signals : List (Text × Fields N)) (metadata threads : Fields N)
      (subsystems : List (Fields N))
      → HasKind n
          (starvation_cause fl ints (signals_of fl ints signals (codes "scheduler")))
          ((5 == n) && symptom signals metadata threads subsystems cpu_starvation)
  unfolding starvation_cause symptom
  starvation_cause-kind n signals metadata threads subsystems = record {
    is_named = fired_if-kind n _ cpu_starvation _;
  }

  lock_cause-kind :
      (n : ℕ) (signals : List (Text × Fields N)) (metadata threads : Fields N)
      (subsystems : List (Fields N))
      → HasKind n
          (lock_cause fl ints (signals_of fl ints signals (codes "sync_locks")))
          ((6 == n) && symptom signals metadata threads subsystems lock_contention)
  unfolding lock_cause symptom
  lock_cause-kind n signals metadata threads subsystems = record {
    is_named = fired_if-kind n _ lock_contention _;
  }

  bandwidth_cause-kind :
      (n : ℕ) (signals : List (Text × Fields N)) (metadata threads : Fields N)
      (subsystems : List (Fields N))
      → HasKind n
          (bandwidth_cause fl ints
            (as_mapping (get metadata (codes "transfers")))
            (as_mapping (get metadata (codes "net"))))
          ((7 == n) && symptom signals metadata threads subsystems chunk_bandwidth)
  unfolding bandwidth_cause symptom
  bandwidth_cause-kind n signals metadata threads subsystems = record {
    is_named = fired_if-kind n _ chunk_bandwidth _;
  }

  saturated-kind :
      (n : ℕ) (signals : List (Text × Fields N)) (metadata threads : Fields N)
      (subsystems : List (Fields N))
      → HasKind n
          (saturation_cause fl ints (as_mapping (get metadata (codes "frame"))))
          ((0 == n) && symptom signals metadata threads subsystems server_saturated)
  unfolding symptom
  saturated-kind n signals metadata threads subsystems = record {
    is_named = saturation_cause-kind n _;
  }

  subsystem_cause-kind :
      (n : ℕ) (signals : List (Text × Fields N)) (metadata threads : Fields N)
      (subsystems : List (Fields N))
      → HasKind n
          (subsystem_cause fl ints subsystems)
          ((8 == n) && symptom signals metadata threads subsystems (subsystem_bound []))
  unfolding subsystem_cause symptom
  subsystem_cause-kind n signals metadata threads subsystems = record {
    is_named = bound_by-kind n _;
  }

  -- The symptoms of the kinds in the order of the checks; only that of kind `n` counts.
  abbrev chosen : List (Text × Fields N) → Fields N → Fields N → List (Fields N) → ℕ → Bool
  chosen signals metadata threads subsystems n =
      ((0 == n) && symptom signals metadata threads subsystems server_saturated)
      || (((1 == n) && symptom signals metadata threads subsystems gc_pauses)
          || (((2 == n) && symptom signals metadata threads subsystems main_thread_bound)
              || (((3 == n) && symptom signals metadata threads subsystems disk_io_stall)
                  || (((4 == n) && symptom signals metadata threads subsystems memory_growth)
                      || (((5 == n) && symptom signals metadata threads subsystems cpu_starvation)
                          || (((6 == n)
                                && symptom signals metadata threads subsystems lock_contention)
                              || (((7 == n)
                                    && symptom signals metadata threads subsystems chunk_bandwidth)
                                  || ((8 == n)
                                      && symptom signals metadata threads subsystems
                                          (subsystem_bound [])))))))))

  causes_of-chosen :
      (signals : List (Text × Fields N)) (metadata threads : Fields N)
      (subsystems : List (Fields N)) (n : ℕ)
      → HasKind n
          (causes_of fl ints signals metadata threads subsystems)
          (chosen signals metadata threads subsystems n)
  unfolding causes_of
  causes_of-chosen s m t u n = either (saturated-kind n s m t u) (
      either (gc_cause-kind n s m t u) (
        either (main_thread_cause-kind n s m t u) (
          either (disk_cause-kind n s m t u) (
            either (memory_cause-kind n s m t u) (
              either (starvation_cause-kind n s m t u) (
                either (lock_cause-kind n s m t u)
                  (either (bandwidth_cause-kind n s m t u) (subsystem_cause-kind n s m t u))))))))

  -- A kind of causes is found exactly where its symptom is.
  pub causes_of-symptom :
      (signals : List (Text × Fields N)) (metadata threads : Fields N)
      (subsystems : List (Fields N)) (c : Cause)
      → names_kind (kind c) (causes_of fl ints signals metadata threads subsystems)
        ≡ symptom signals metadata threads subsystems c
  causes_of-symptom s m t u server_saturated =
      (causes_of-chosen s m t u 0).is_named ∙ or_false (symptom s m t u server_saturated)
  causes_of-symptom s m t u gc_pauses =
      (causes_of-chosen s m t u 1).is_named ∙ or_false (symptom s m t u gc_pauses)
  causes_of-symptom s m t u main_thread_bound =
      (causes_of-chosen s m t u 2).is_named ∙ or_false (symptom s m t u main_thread_bound)
  causes_of-symptom s m t u disk_io_stall =
      (causes_of-chosen s m t u 3).is_named ∙ or_false (symptom s m t u disk_io_stall)
  causes_of-symptom s m t u memory_growth =
      (causes_of-chosen s m t u 4).is_named ∙ or_false (symptom s m t u memory_growth)
  causes_of-symptom s m t u cpu_starvation =
      (causes_of-chosen s m t u 5).is_named ∙ or_false (symptom s m t u cpu_starvation)
  causes_of-symptom s m t u lock_contention =
      (causes_of-chosen s m t u 6).is_named ∙ or_false (symptom s m t u lock_contention)
  causes_of-symptom s m t u chunk_bandwidth =
      (causes_of-chosen s m t u 7).is_named ∙ or_false (symptom s m t u chunk_bandwidth)
  causes_of-symptom s m t u (subsystem_bound name) =
      (causes_of-chosen s m t u 8).is_named ∙ (unfold symptom in refl)
