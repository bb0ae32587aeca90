-- ===== src/Report/Pressure/Raised.antt =====
-- What the adjustments of the scores keep.
use dtd_server_apm.Common.{
  ◌≡◌, ◌⊎◌, refl, inl, inr, Bool, true, false, ◌&&◌, List, [], ◌∷◌, Option, none, some, Text, codes,
  ◌=?◌, nat_eq, list_eq, if_cases,
}
use dtd_server_apm.Io.Json.{Fields}
use dtd_server_apm.Models.{get, or_zero}
use dtd_server_apm.Models.Numbers.{Floats, IsOrdered, max_float}
use dtd_server_apm.Bridge.Ledger.{Integers}
use dtd_server_apm.Report.Causes.{LayerScore, int0, share_of_ticks}
use dtd_server_apm.Report.Pressure.{
  Conversions, on_layer, raised, with_main_thread, apply_main_thread_pressure, with_gc,
  gc_pressure_of, apply_gc_pressure, with_late_ticks, apply_late_tick_pressure, with_memory,
  apply_memory_trend,
}

module _ {N F : Type 0} (fl : Floats N F) (laws : IsOrdered fl) where
  open fl use {le, lt}

  -- A score that was kept, or raised; where it was missing, from 0.
  pub data Raised : Option F → Option F → Type 0 where
    kept : {score : Option F} → Raised score score
    level : {score : Option F} → Raised score (some (or_zero fl score))
    higher : {score : Option F} {x : F} → le (or_zero fl score) x ≡ true → Raised score (some x)

  -- The layers in their order, where only a collected layer of that name has changed.
  pub record IsRaised (name : Text) (old new : LayerScore N F) : Type 0 where
    pub same_layer : new.layer ≡ old.layer
    pub same_state : new.collected ≡ old.collected
    pub score_raised : Raised old.score new.score
    pub changed : (((old.layer =? name) && old.collected) ≡ true) ⊎ (new ≡ old)

  pub data AreRaised (name : Text) : List (LayerScore N F) → List (LayerScore N F) → Type 0 where
    done : AreRaised name [] []
    next :
        {old new : LayerScore N F} {olds news : List (LayerScore N F)}
        → IsRaised name old new
        → AreRaised name olds news
        → AreRaised name (old ∷ olds) (new ∷ news)

  max-Raised : (score : Option F) (x : F) → Raised score (some (max_float fl (or_zero fl score) x))
  max-Raised score x =
      if_cases (λ y. Raised score (some y)) (lt (or_zero fl score) x) x (or_zero fl score)
        (λ e. higher (laws.lt-le (or_zero fl score) x e)) (λ _. level)

  raised-Raised :
      (hard : Bool) (high : F) (soft : Bool) (low : F) (score : Option F)
      → Raised score (raised fl hard high soft low score)
  unfolding raised
  raised-Raised true high soft low score = max-Raised score high
  raised-Raised false high true low score = max-Raised score low
  raised-Raised false high false low score = kept

  unchanged : (name : Text) (layers : List (LayerScore N F)) → AreRaised name layers layers
  unchanged name [] = done
  unchanged name (l ∷ layers) =
      next
        (record { same_layer = refl; same_state = refl; score_raised = kept; changed = inr refl })
        (unchanged name layers)

  on_layer-AreRaised :
      (name : Text) (change : LayerScore N F → LayerScore N F)
      → ((l : LayerScore N F) → (change l).layer ≡ l.layer)
      → ((l : LayerScore N F) → (change l).collected ≡ l.collected)
      → ((l : LayerScore N F) → Raised l.score (change l).score)
      → (layers : List (LayerScore N F)) → AreRaised name layers (on_layer name change layers)
  unfolding on_layer
  on_layer-AreRaised name change h j k [] = done
  on_layer-AreRaised name change h j k (l ∷ layers) =
      next
        (if_cases (λ new. IsRaised name l new) ((l.layer =? name) && l.collected) (change l) l
          (λ e. record { same_layer = h l; same_state = j l; score_raised = k l; changed = inl e })
          (λ _. record {
            same_layer = refl;
            same_state = refl;
            score_raised = kept;
            changed = inr refl;
          }))
        (on_layer-AreRaised name change h j k layers)

module _ {N Z F : Type 0} (fl : Floats N F) (ints : Integers Z F) (conv : Conversions N Z F)
    (laws : IsOrdered fl) where
  main_thread-AreRaised :
      (layers : List (LayerScore N F)) (share cpu : Option F)
      → AreRaised fl laws
          (codes "cpu")
          layers
          (apply_main_thread_pressure fl ints conv layers share cpu)
  unfolding apply_main_thread_pressure with_main_thread
  main_thread-AreRaised layers none cpu = unchanged fl laws (codes "cpu") layers
  main_thread-AreRaised layers (some share) cpu =
      on_layer-AreRaised fl laws (codes "cpu") (with_main_thread fl ints conv share cpu) (λ l. refl)
        (λ l. refl) (λ l. raised-Raised fl laws _ _ _ _ l.score) layers

  gc-AreRaised :
      (layers : List (LayerScore N F)) (alloc churn : Option F) (collections : Option Z)
      → AreRaised fl laws
          (codes "runtime_gc")
          layers
          (gc_pressure_of fl ints conv layers alloc churn collections)
  unfolding gc_pressure_of with_gc
  gc-AreRaised layers (some alloc) (some churn) (some collections) =
      on_layer-AreRaised fl laws (codes "runtime_gc") (with_gc fl ints conv alloc churn collections)
        (λ l. refl) (λ l. refl) (λ l. raised-Raised fl laws _ _ _ _ l.score) layers
  gc-AreRaised layers (some alloc) (some churn) none = unchanged fl laws (codes "runtime_gc") layers
  gc-AreRaised layers (some alloc) none collections = unchanged fl laws (codes "runtime_gc") layers
  gc-AreRaised layers none churn collections = unchanged fl laws (codes "runtime_gc") layers

  late_tick-AreRaised :
      (layers : List (LayerScore N F)) (update : Fields N)
      → AreRaised fl laws
          (codes "app_sim")
          layers
          (apply_late_tick_pressure fl ints conv layers update)
  unfolding apply_late_tick_pressure with_late_ticks
  late_tick-AreRaised layers update =
      let late = int0 fl ints (get update (codes "lateTicks")) in
      let window = int0 fl ints (get update (codes "windowUpdates")) in
      let change =
        with_late_ticks fl ints conv late (share_of_ticks fl ints late window)
          (get update (codes "tickStallMsTotal")) in
      if_cases (AreRaised fl laws (codes "app_sim") layers) (ints.is_true_int window)
        (on_layer (codes "app_sim") change layers) layers
        (λ _.
          on_layer-AreRaised fl laws (codes "app_sim") change (λ l. refl) (λ l. refl)
            (λ l. raised-Raised fl laws _ _ _ _ l.score) layers)
        (λ _. unchanged fl laws (codes "app_sim") layers)

  memory-AreRaised :
      (layers : List (LayerScore N F)) (slope : Option F) (fd_growth : Option Z)
      → AreRaised fl laws
          (codes "memory_cache")
          layers
          (apply_memory_trend fl ints conv layers slope fd_growth)
  unfolding apply_memory_trend with_memory
  memory-AreRaised layers slope fd_growth =
      on_layer-AreRaised fl laws (codes "memory_cache")
        (with_memory fl ints conv (or_zero fl slope) fd_growth) (λ l. refl) (λ l. refl)
        (λ l. raised-Raised fl laws _ _ _ _ l.score) layers

  -- Each of the four adjustments keeps the layers in their order, changes only a collected layer of its
  -- own name, and keeps or raises the score of that layer, a missing or false score being read as 0; a
  -- conversion that raises changes none; for ordered floats.
  pub pressure-AreRaised :
      (layers : List (LayerScore N F)) (share cpu slope : Option F) (gc_meta update : Fields N)
      (fd_growth : Option Z)
      → AreRaised fl laws
          (codes "cpu")
          layers
          (apply_main_thread_pressure fl ints conv layers share cpu)
        × AreRaised fl laws
            (codes "runtime_gc")
            layers
            (apply_gc_pressure fl ints conv layers gc_meta)
        × AreRaised fl laws
            (codes "app_sim")
            layers
            (apply_late_tick_pressure fl ints conv layers update)
        × AreRaised fl laws
            (codes "memory_cache")
            layers
            (apply_memory_trend fl ints conv layers slope fd_growth)
  unfolding apply_gc_pressure
  pressure-AreRaised layers share cpu slope gc_meta update fd_growth = (
    main_thread-AreRaised layers share cpu,
    gc-AreRaised layers _ _ _,
    late_tick-AreRaised layers update,
    memory-AreRaised layers slope fd_growth,
  )
