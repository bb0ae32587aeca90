-- ===== src/Report/Lag/Named.antt =====
-- What a diagnosis names.
use dtd_server_apm.Common.{
  ◌==◌, ◌∙◌, ◌≡◌, ◌≢◌, ◌↔◌, ◌⊎◌, refl, inl, inr, Bool, true, false, List, [], ◌∷◌, ◌++◌, Option,
  none, some, Text, codes, map, keep, All, All-append, if_cases, nat_eq, list_eq, text_eq, arith,
}
use dtd_server_apm.Common.Sort.{sorted, All-sorted}
use dtd_server_apm.Io.Json.{Fields}
use dtd_server_apm.Models.{get, text_of}
use dtd_server_apm.Models.Numbers.{Floats, IsOrdered, min_float}
use dtd_server_apm.Bridge.Ledger.{Integers}
use dtd_server_apm.Models.{as_mapping}
use dtd_server_apm.Report.Lag.Symptoms.{kind, names_kind, symptom, any-sorted, causes_of-symptom}
use dtd_server_apm.Report.Causes.{
  int0, Cause, server_saturated, subsystem_bound, Fired, LayerScore, num0, severity_of, fired_if,
  is_saturated, saturation_cause, gc_cause, main_thread_cause, disk_cause, memory_cause, lock_cause,
  bandwidth_cause, is_disjoint, top_from, top_of, bound_by, subsystem_cause, causes_of,
  collected_signals, starvation_cause,
}
use dtd_server_apm.Report.Lag.{
  Judgement, deadline_met, unexplained, overloaded, laggy_by, Diagnosis, judgement_of, diagnose_lag,
}

module _ {N Z F : Type 0} (fl : Floats N F) (ints : Integers Z F) (laws : IsOrdered fl) where
  open fl use {le, hundredths, round}

  -- A cause with a severity of 1, or of at most 1 rounded to two digits, and never the frame itself, which contains the others.
  pub record IsFired (c : Fired F) : Type 0 where
    pub bounded : (c.severity ≡ hundredths 100) ⊎ (le c.severity (round (hundredths 100) 2) ≡ true)
    pub not_frame : c.cause ≢ subsystem_bound (codes "frame_core")

  severity_of-bound : (x : F) → le (severity_of fl ints x) (round (hundredths 100) 2) ≡ true
  unfolding severity_of
  severity_of-bound x = laws.round-le (min_float fl (hundredths 100) x) (hundredths 100) 2 (
      if_cases (λ y. le y (hundredths 100) ≡ true) (fl.lt x (hundredths 100)) x (hundredths 100)
        (λ e. laws.lt-le x (hundredths 100) e) (λ _. laws.literals 100 100 refl))

  fired_if-IsFired :
      (test : Bool) (cause : Cause) (x : F)
      → cause ≢ subsystem_bound (codes "frame_core")
      → All IsFired (fired_if fl ints test cause x)
  unfolding fired_if
  fired_if-IsFired false cause x h = tt
  fired_if-IsFired true cause x h =
      (record { bounded = inr (severity_of-bound x); not_frame = h }, tt)

  saturation-IsFired : (frame : Fields N) → All IsFired (saturation_cause fl ints frame)
  unfolding saturation_cause
  saturation-IsFired frame =
      if_cases (All IsFired) (is_saturated fl ints frame)
        (record { cause = server_saturated; severity = hundredths 100 } ∷ []) []
        (λ _. (record { bounded = inl refl; not_frame = λ e. cc e }, tt)) (λ _. tt)

  disjoint :
      (xs : List (Fields N))
      → All (λ s. is_disjoint fl ints s ≡ true) (keep (λ s. is_disjoint fl ints s) xs)
  unfolding keep
  disjoint [] = tt
  disjoint (x ∷ xs) =
      if_cases (All (λ s. is_disjoint fl ints s ≡ true)) (is_disjoint fl ints x)
        (x ∷ keep (λ s. is_disjoint fl ints s) xs) (keep (λ s. is_disjoint fl ints s) xs)
        (λ e. (e, disjoint xs)) (λ _. disjoint xs)

  top_from-disjoint :
      (xs : List (Fields N)) (best : Fields N)
      → is_disjoint fl ints best ≡ true
      → All (λ s. is_disjoint fl ints s ≡ true) xs
      → is_disjoint fl ints (top_from fl ints best xs) ≡ true
  unfolding top_from
  top_from-disjoint [] best h k = h
  top_from-disjoint (x ∷ xs) best h k =
      top_from-disjoint xs _
        (if_cases (λ s. is_disjoint fl ints s ≡ true)
          (fl.lt (num0 fl ints (get best (codes "share"))) (num0 fl ints (get x (codes "share")))) x
          best (λ _. k.0) (λ _. h))
        k.1

  disjoint-text :
      (s : Fields N)
      → is_disjoint fl ints s ≡ true
      → text_of fl (get s (codes "subsystem")) ≢ codes "frame_core"
  unfolding is_disjoint
  disjoint-text s h e =
      ground
        (arith, h, e, text_eq.beq_iff (text_of fl (get s (codes "subsystem"))) (codes "frame_core"))

  bound_by-IsFired :
      (xs : List (Fields N))
      → All (λ s. is_disjoint fl ints s ≡ true) xs
      → All IsFired (bound_by fl ints (top_of fl ints xs))
  unfolding bound_by top_of
  bound_by-IsFired [] h = tt
  bound_by-IsFired (x ∷ xs) h =
      fired_if-IsFired _ _ _ (other (top_from fl ints x xs) (top_from-disjoint xs x h.0 h.1))
    where
      other :
          (s : Fields N)
          → is_disjoint fl ints s ≡ true
          → subsystem_bound (text_of fl (get s (codes "subsystem")))
            ≢ subsystem_bound (codes "frame_core")
      other s k e =
          let same : text_of fl (get s (codes "subsystem")) ≡ codes "frame_core" = cc e in
          disjoint-text s k same

  pub record AreFired (causes : List (Fired F)) : Type 0 where
    pub each : All IsFired causes

  both : {xs ys : List (Fired F)} → AreFired xs → AreFired ys → AreFired (xs ++ ys)
  both {xs = xs} {ys = ys} h k = record { each = All-append IsFired xs ys h.each k.each }

  fired_if-AreFired :
      (test : Bool) (cause : Cause) (x : F)
      → cause ≢ subsystem_bound (codes "frame_core")
      → AreFired (fired_if fl ints test cause x)
  fired_if-AreFired test cause x h = record { each = fired_if-IsFired test cause x h }

  gc_cause-AreFired : (gc gc_signals : Fields N) → AreFired (gc_cause fl ints gc gc_signals)
  unfolding gc_cause
  gc_cause-AreFired gc gc_signals = fired_if-AreFired _ _ _ (λ e. cc e)

  main_thread_cause-AreFired : (threads : Fields N) → AreFired (main_thread_cause fl ints threads)
  unfolding main_thread_cause
  main_thread_cause-AreFired threads = fired_if-AreFired _ _ _ (λ e. cc e)

  disk_cause-AreFired : (scheduler : Fields N) → AreFired (disk_cause fl ints scheduler)
  unfolding disk_cause
  disk_cause-AreFired scheduler = fired_if-AreFired _ _ _ (λ e. cc e)

  memory_cause-AreFired : (mem : Fields N) → AreFired (memory_cause fl ints mem)
  unfolding memory_cause
  memory_cause-AreFired mem = fired_if-AreFired _ _ _ (λ e. cc e)

  starvation_cause-AreFired : (scheduler : Fields N) → AreFired (starvation_cause fl ints scheduler)
  unfolding starvation_cause
  starvation_cause-AreFired scheduler = fired_if-AreFired _ _ _ (λ e. cc e)

  lock_cause-AreFired : (sync_signals : Fields N) → AreFired (lock_cause fl ints sync_signals)
  unfolding lock_cause
  lock_cause-AreFired sync_signals = fired_if-AreFired _ _ _ (λ e. cc e)

  bandwidth_cause-AreFired :
      (transfers net : Fields N) → AreFired (bandwidth_cause fl ints transfers net)
  unfolding bandwidth_cause
  bandwidth_cause-AreFired transfers net = fired_if-AreFired _ _ _ (λ e. cc e)

  subsystem_cause-AreFired :
      (subsystems : List (Fields N)) → AreFired (subsystem_cause fl ints subsystems)
  unfolding subsystem_cause
  subsystem_cause-AreFired subsystems = record { each = bound_by-IsFired _ (disjoint subsystems) }

  causes_of-AreFired :
      (signals : List (Text × Fields N)) (metadata threads : Fields N)
      (subsystems : List (Fields N))
      → AreFired (causes_of fl ints signals metadata threads subsystems)
  unfolding causes_of
  causes_of-AreFired signals metadata threads subsystems =
      both (record { each = saturation-IsFired _ })
        (both (gc_cause-AreFired _ _) (
          both (main_thread_cause-AreFired threads) (
            both (disk_cause-AreFired _) (
              both (memory_cause-AreFired _) (
                both (starvation_cause-AreFired _) (
                  both (lock_cause-AreFired _) (
                    both (bandwidth_cause-AreFired _ _) (subsystem_cause-AreFired subsystems))))))))

  -- The causes that a judgement names.
  abbrev pub named : Judgement → Option (List Cause)
  named deadline_met = none
  named unexplained = none
  named (overloaded causes) = some causes
  named (laggy_by causes) = some causes

  -- The diagnosis of the collected signals and of the other documents: a cause of a kind is named where
  -- its symptom is there; the deadline is met where no late tick was counted; and the judgement names all
  -- the causes or, where the deadline was met or none fired, nothing.
  pub record IsDiagnosis (signals : List (Text × Fields N)) (metadata threads : Fields N)
      (subsystems : List (Fields N)) (d : Diagnosis F) : Type 0 where
    pub fired : All IsFired d.causes
    pub symptoms :
        (c : Cause)
        → names_kind fl ints (kind c) d.causes
          ≡ symptom fl ints signals metadata threads subsystems c
    pub met : (d.judgement ≡ deadline_met) ↔ (
        ints.at_least
          (int0 fl ints (get (as_mapping (get metadata (codes "frame"))) (codes "lateTicks")))
          1
        ≡ false)
    pub all_named :
        (causes : List Cause)
        → named d.judgement ≡ some causes
        → causes ≡ map (λ c. c.cause) d.causes
    pub unexplained_none : d.judgement ≡ unexplained → d.causes ≡ []

  judged :
      (laggy saturated : Bool) (causes : List (Fired F))
      → ((judgement_of fl ints laggy saturated causes ≡ deadline_met) ↔ (laggy ≡ false))
        × ((cs : List Cause)
            → named (judgement_of fl ints laggy saturated causes) ≡ some cs
            → cs ≡ map (λ c. c.cause) causes)
        × (judgement_of fl ints laggy saturated causes ≡ unexplained → causes ≡ [])
  unfolding judgement_of
  judged false saturated causes =
      ((λ h. refl, λ h. refl), (λ cs e. absurd (cc e)), λ e. absurd (cc e))
  judged true true causes =
      ((λ h. absurd (cc h), λ h. absurd (cc h)), (λ cs e. cc e), λ e. absurd (cc e))
  judged true false [] =
      ((λ h. absurd (cc h), λ h. absurd (cc h)), (λ cs e. absurd (cc e)), λ e. refl)
  judged true false (c ∷ causes) =
      ((λ h. absurd (cc h), λ h. absurd (cc h)), (λ cs e. cc e), λ e. absurd (cc e))

  -- Whatever the layers and the metadata are, the deadline is judged met exactly when fewer than one late
  -- tick was counted; the causes of each kind are found exactly where the symptom of the kind is; the
  -- verdict otherwise names all these causes, or none because there is none; and every cause has a
  -- severity of 1, or of at most 1 rounded, and is not the frame, which contains the other subsystems.
  pub diagnose_lag-IsDiagnosis :
      (layers : List (LayerScore N F)) (metadata threads : Fields N) (subsystems : List (Fields N))
      → IsDiagnosis
          (collected_signals fl ints [] layers)
          metadata
          threads
          subsystems
          (diagnose_lag fl ints layers metadata threads subsystems)
  unfolding diagnose_lag
  diagnose_lag-IsDiagnosis layers metadata threads subsystems =
      let found =
        causes_of fl ints (collected_signals fl ints [] layers) metadata threads subsystems in
      let causes = sorted (λ c d. fl.lt d.severity c.severity) found in
      let j = judged _ _ causes in
      record {
        fired =
            All-sorted IsFired _ found
              (causes_of-AreFired (collected_signals fl ints [] layers) metadata threads
                subsystems).each;
        symptoms = λ c.
            any-sorted (λ d. kind d.cause == kind c) (λ c d. fl.lt d.severity c.severity) found
            ∙ causes_of-symptom fl ints (collected_signals fl ints [] layers) metadata threads
                subsystems c;
        met = j.0;
        all_named = j.1;
        unexplained_none = j.2;
      }
