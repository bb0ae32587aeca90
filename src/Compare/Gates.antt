-- ===== src/Compare/Gates.antt =====
-- Which sessions are compared.
use dtd_server_apm.Common.{
  ◌≡◌, ◌↔◌, refl, Bool, true, false, List, [], ◌∷◌, Option, none, some, Text, codes, All, all,
  arith, nat_eq, list_eq, and-true,
}
use dtd_server_apm.Common.Dict.{contains}
use dtd_server_apm.Io.Json.{Json}
use dtd_server_apm.Models.{get, as_mapping, effective_seconds, collected_layer_scores}
use dtd_server_apm.Models.Numbers.{Floats, max_float}
use dtd_server_apm.Budget.{same_names, names_of}
use dtd_server_apm.Compare.{
  Incompatible, Workload, no_workload, torn, workload, Evidence, Compared, compared, incompatible,
  same_set, requested_tokens, absolute, same_values, workload_gate, duration_gate, gates,
  comparison, outcome, compare_sessions,
}

-- Two lists with the same members.
pub record AreSame (xs ys : List Text) : Type 0 where
  pub left : All (λ x. contains ys x ≡ true) xs
  pub right : All (λ y. contains xs y ≡ true) ys

all-All :
    (xs ys : List Text) → all (λ x. contains ys x) xs ≡ true → All (λ x. contains ys x ≡ true) xs
all-All [] ys h = tt
all-All (x ∷ xs) ys h =
    let (p, q) = and-true (contains ys x) (all (λ x. contains ys x) xs) h in (p, all-All xs ys q)

All-all :
    (xs ys : List Text) → All (λ x. contains ys x ≡ true) xs → all (λ x. contains ys x) xs ≡ true
All-all [] ys h = refl
All-all (x ∷ xs) ys h = rw h.0 (All-all xs ys h.1)

same_set_iff : (xs ys : List Text) → (same_set xs ys ≡ true) ↔ AreSame xs ys
unfolding same_set
same_set_iff xs ys = (
  λ h.
      let (p, q) = and-true (all (λ x. contains ys x) xs) (all (λ y. contains xs y) ys) h in
      record { left = all-All xs ys p; right = all-All ys xs q },
  λ h. rw (All-all xs ys h.left) (All-all ys xs h.right),
)

module _ {N F : Type 0} (fl : Floats N F) (same : Json N → Json N → Bool) where
  open fl use {lt, sub, div, hundredths}

  same_names_iff :
      (xs ys : List (Text × F))
      → (same_names fl xs ys ≡ true) ↔ AreSame (names_of fl xs) (names_of fl ys)
  unfolding same_names
  same_names_iff xs ys = unfold same_set in same_set_iff (names_of fl xs) (names_of fl ys)

  -- No workload manifest on either side, or two with one mode, target and workload.
  abbrev pub HaveSameWorkload : Workload N → Workload N → Type 0
  HaveSameWorkload no_workload no_workload = Unit
  HaveSameWorkload (workload a) (workload b) =
      (same (get (as_mapping a) (codes "mode")) (get (as_mapping b) (codes "mode")) ≡ true)
      × (same (get (as_mapping a) (codes "target")) (get (as_mapping b) (codes "target")) ≡ true)
      × (same (get (as_mapping a) (codes "workload")) (get (as_mapping b) (codes "workload"))
          ≡ true)
  HaveSameWorkload _ _ = false ≡ true

  -- Two sessions that can be compared: the same collected layers, analyzer version, collector tokens and
  -- workload, and windows of at least 5 seconds that differ by at most a tenth of the longer one.
  pub record AreComparable (a b : Evidence N) : Type 0 where
    pub layers :
        AreSame
          (names_of fl (collected_layer_scores fl a.summary))
          (names_of fl (collected_layer_scores fl b.summary))
    pub version :
        same
          (get (as_mapping (get a.summary (codes "meta"))) (codes "analyzer_version"))
          (get (as_mapping (get b.summary (codes "meta"))) (codes "analyzer_version"))
        ≡ true
    pub tokens : AreSame (requested_tokens fl a.summary) (requested_tokens fl b.summary)
    pub long_a :
        lt (effective_seconds fl (as_mapping (get a.summary (codes "meta")))) (hundredths 500)
        ≡ false
    pub long_b :
        lt (effective_seconds fl (as_mapping (get b.summary (codes "meta")))) (hundredths 500)
        ≡ false
    pub close :
        lt (hundredths 10) (
          div
            (absolute fl (
              sub
                (effective_seconds fl (as_mapping (get a.summary (codes "meta"))))
                (effective_seconds fl (as_mapping (get b.summary (codes "meta"))))))
            (max_float fl
              (effective_seconds fl (as_mapping (get a.summary (codes "meta"))))
              (effective_seconds fl (as_mapping (get b.summary (codes "meta"))))))
        ≡ false
    pub workloads : HaveSameWorkload a.workload b.workload

  workload_gate_iff : (a b : Workload N) → (workload_gate fl same a b ≡ none) ↔ HaveSameWorkload a b
  unfolding workload_gate same_values
  workload_gate_iff no_workload no_workload = (λ h. tt, λ h. refl)
  workload_gate_iff no_workload torn = (λ h. cc h, λ h. cc h)
  workload_gate_iff no_workload (workload b) = (λ h. cc h, λ h. cc h)
  workload_gate_iff torn no_workload = (λ h. cc h, λ h. cc h)
  workload_gate_iff (workload a) no_workload = (λ h. cc h, λ h. cc h)
  workload_gate_iff torn torn = (λ h. cc h, λ h. cc h)
  workload_gate_iff torn (workload b) = (λ h. cc h, λ h. cc h)
  workload_gate_iff (workload a) torn = (λ h. cc h, λ h. cc h)
  workload_gate_iff (workload a) (workload b) = (λ h. ground (arith, h), λ h. ground (arith, h))

  gates-AreComparable : (a b : Evidence N) → gates fl same a b ≡ none → AreComparable a b
  unfolding gates duration_gate
  gates-AreComparable a b h = record {
    layers = (same_names_iff _ _).0 (ground (arith, h));
    version = ground (arith, h);
    tokens = (same_set_iff _ _).0 (ground (arith, h));
    long_a = ground (arith, h);
    long_b = ground (arith, h);
    close = ground (arith, h);
    workloads = (workload_gate_iff a.workload b.workload).0 (ground (arith, h));
  }

  AreComparable-gates : (a b : Evidence N) → AreComparable a b → gates fl same a b ≡ none
  unfolding gates duration_gate
  AreComparable-gates a b h =
      rw
        (
          (same_names_iff _ _).1 h.layers,
          h.version,
          (same_set_iff _ _).1 h.tokens,
          h.long_a,
          h.long_b,
          h.close,
        )
        ((workload_gate_iff a.workload b.workload).1 h.workloads)

  module _ {Z : Type 0} (int_of : F → Z) (minus : Z → Z → Z) where
    -- A comparison of sessions that can be compared, or a refusal of sessions that cannot.
    abbrev pub IsDecided : Evidence N → Evidence N → Compared Z F → Type 0
    IsDecided a b (incompatible reason) = ¬ AreComparable a b
    IsDecided a b (compared c) = AreComparable a b × (c ≡ comparison fl same int_of minus a b)

    outcome-IsDecided :
        (a b : Evidence N) (o : Option (Incompatible F))
        → gates fl same a b ≡ o
        → IsDecided a b (outcome fl same int_of minus a b o)
    unfolding outcome
    outcome-IsDecided a b none e = (gates-AreComparable a b e, refl)
    outcome-IsDecided a b (some reason) e = λ h. cc (AreComparable-gates a b h, e)

    -- Two sessions are compared exactly where they have the same collected layers, analyzer version,
    -- collector tokens and workload, and windows of at least 5 seconds that differ by at most a tenth of
    -- the longer one; every other pair is refused.
    pub compare_sessions-IsDecided :
        (a b : Evidence N) → IsDecided a b (compare_sessions fl same int_of minus a b)
    unfolding compare_sessions
    compare_sessions-IsDecided a b = outcome-IsDecided a b (gates fl same a b) refl
