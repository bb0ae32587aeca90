-- ===== src/Bridge/Matching/Supported.antt =====
-- What stands behind a hit.
use dtd_server_apm.Common.{
  ℕ, ◌+◌, ◌≡◌, zero, suc, refl, Bool, true, false, not, ◌||◌, List, [], ◌∷◌, Option, none, some,
  Text, All, arith, if_cases, nat_eq, list_eq,
}
use dtd_server_apm.Common.Dict.{contains, lookup}
use dtd_server_apm.Common.Sort.{All-sorted}
use mathlib.Core.Path.{subst}
use dtd_server_apm.Models.{get}
use dtd_server_apm.Io.Json.{Fields}
use dtd_server_apm.Models.Numbers.{Floats, IsOrdered, min_float}
use dtd_server_apm.Bridge.Rule.{Rule}
use dtd_server_apm.Bridge.Ledger.{Integers}
use dtd_server_apm.Bridge.Sections.{Section, score_of, section_scores}
use dtd_server_apm.Bridge.Matching.{
  Native, Hit, signal_gates, required_layer, has_any, confidence_of, Gate, layer_of_gate,
  raw_number, signal_hit, signal_hits, native_evidence, weight_sum, hit_of, is_missing, match_rule,
  match_from, match_rules, section_hits, signal_evidence, share_of,
}

-- The rule at a place of a table, and an entry of a list.
pub data IsAt (rule : Rule) : ℕ → List Rule → Type 0 where
  at_head : {rules : List Rule} → IsAt rule zero (rule ∷ rules)
  behind :
      {index : ℕ} {other : Rule} {rules : List Rule}
      → IsAt rule index rules
      → IsAt rule (suc index) (other ∷ rules)

pub data IsListed (name : Text) (minimum : ℕ) : List (Text × ℕ) → Type 0 where
  listed_here : {entries : List (Text × ℕ)} → IsListed name minimum ((name, minimum) ∷ entries)
  listed_behind :
      {e : Text × ℕ} {entries : List (Text × ℕ)}
      → IsListed name minimum entries
      → IsListed name minimum (e ∷ entries)

module _ {N Z F : Type 0} (fl : Floats N F) (ints : Integers Z F) (laws : IsOrdered fl)
    (share_min : F) (collected : List Text) (whole : List Rule) (native : List (ℕ × Native Z))
    (total : Z) (scores : List (Text × F)) (all_signals : List (Text × Fields N)) where
  open fl use {le, round, hundredths}

  -- A signal of the layer's document that a rule's gate names, with a value at its minimum.
  pub record IsSignal (id : Text) (s : Text × F) : Type 0 where
    pub gate : Gate
    pub of_rule : lookup id signal_gates ≡ some gate
    pub document : Fields N
    pub of_layer : lookup gate.layer all_signals ≡ some document
    pub measured : raw_number fl ints (get document s.0) ≡ some s.1
    pub minimum : ℕ
    pub listed : IsListed s.0 minimum gate.minimums
    pub enough : le (hundredths minimum) s.1 ≡ true

  abbrev pub IsHot : Text × F → Type 0
  IsHot s = (s.1 ≡ score_of fl ints scores s.0) × (le (hundredths 100) s.1 ≡ true)

  -- A hit is of a rule of the table, whose gate's layer was collected; its share is that of the rule's
  -- native frames; some evidence is at its threshold; each listed signal and section is at its own; and
  -- the confidence is at most 1.
  pub record IsSupported (hit : Hit F Z) : Type 0 where
    pub index : ℕ
    pub rule : Rule
    pub place : IsAt rule index whole
    pub of_rule : hit.id ≡ rule.id
    pub layer :
        (gate : Gate)
        → lookup rule.id signal_gates ≡ some gate
        → contains collected gate.layer ≡ true
    pub is_share : hit.native_weight_share ≡ round (share_of fl ints total (lookup index native)) 4
    pub evidence :
        (le share_min (share_of fl ints total (lookup index native))
          || has_any hit.signals
          || has_any hit.sections)
        ≡ true
    pub signalled : All (IsSignal rule.id) hit.signals
    pub hot : All IsHot hit.sections
    pub at_most_one : le hit.confidence (round (hundredths 100) 2) ≡ true

  signal_hit-IsSignal :
      (id : Text) (gate : Gate) (document : Fields N) (name : Text) (minimum : ℕ) (o : Option F)
      (rest : List (Text × F))
      → lookup id signal_gates ≡ some gate
      → lookup gate.layer all_signals ≡ some document
      → IsListed name minimum gate.minimums
      → raw_number fl ints (get document name) ≡ o
      → All (IsSignal id) rest
      → All (IsSignal id) (signal_hit fl ints name minimum o rest)
  unfolding signal_hit
  signal_hit-IsSignal id gate document name minimum none rest g d l v h = h
  signal_hit-IsSignal id gate document name minimum (some value) rest g d l v h =
      if_cases (All (IsSignal id)) (le (hundredths minimum) value) ((name, value) ∷ rest) rest
        (λ e. (
          record {
            gate = gate;
            of_rule = g;
            document = document;
            of_layer = d;
            measured = v;
            minimum = minimum;
            listed = l;
            enough = e;
          },
          h,
        ))
        (λ _. h)

  signal_hits-IsSignal :
      (id : Text) (gate : Gate) (document : Fields N) (minimums : List (Text × ℕ))
      → lookup id signal_gates ≡ some gate
      → lookup gate.layer all_signals ≡ some document
      → ((name : Text) (minimum : ℕ)
          → IsListed name minimum minimums
          → IsListed name minimum gate.minimums)
      → All (IsSignal id) (signal_hits fl ints document minimums)
  unfolding signal_hits
  signal_hits-IsSignal id gate document [] g d l = tt
  signal_hits-IsSignal id gate document ((name, minimum) ∷ minimums) g d l =
      signal_hit-IsSignal id gate document name minimum (raw_number fl ints (get document name))
        (signal_hits fl ints document minimums) g d (l name minimum listed_here) refl
        (signal_hits-IsSignal id gate document minimums g d (λ n m k. l n m (listed_behind k)))

  signal_evidence-IsSignal :
      (id : Text) (o : Option Gate)
      → lookup id signal_gates ≡ o
      → All (IsSignal id) (signal_evidence fl ints o all_signals)
  unfolding signal_evidence
  signal_evidence-IsSignal id none g = tt
  signal_evidence-IsSignal id (some gate) g = go (lookup gate.layer all_signals) refl
    where
      go :
          (o : Option (Fields N))
          → lookup gate.layer all_signals ≡ o
          → All
              (IsSignal id)
              (elim o [ none ↦ [] | some fs ↦ signal_hits fl ints fs gate.minimums ])
      go none d = tt
      go (some fs) d = signal_hits-IsSignal id gate fs gate.minimums g d (λ n m k. k)

  section_hits-IsHot : (sections : List Text) → All IsHot (section_hits fl ints scores sections)
  unfolding section_hits
  section_hits-IsHot [] = tt
  section_hits-IsHot (section ∷ sections) =
      if_cases (All IsHot) (le (hundredths 100) (score_of fl ints scores section))
        ((section, score_of fl ints scores section) ∷ section_hits fl ints scores sections)
        (section_hits fl ints scores sections) (λ e. ((refl, e), section_hits-IsHot sections))
        (λ _. section_hits-IsHot sections)

  min_float-le : (a b : F) → le a a ≡ true → le (min_float fl a b) a ≡ true
  min_float-le a b h =
      if_cases (λ x. le x a ≡ true) (fl.lt b a) b a (λ e. laws.lt-le b a e) (λ _. h)

  confidence_of-bound :
      (native_ok : Bool) (share : F) (signals sections : Bool)
      → le (confidence_of fl ints native_ok share signals sections) (hundredths 100) ≡ true
  unfolding confidence_of
  confidence_of-bound native_ok share signals sections =
      min_float-le (hundredths 100) _ (laws.literals 100 100 refl)

  layer_of :
      (id : Text)
      → is_missing fl ints (required_layer id) collected ≡ false
      → (gate : Gate) → lookup id signal_gates ≡ some gate
      → contains collected gate.layer ≡ true
  layer_of id h gate e =
      collected_layer gate.layer (unfold required_layer in unfold layer_of_gate in rw e at h)
    where
      collected_layer :
          (layer : Text)
          → is_missing fl ints (some layer) collected ≡ false
          → contains collected layer ≡ true
      collected_layer layer k = unfold is_missing in ground (arith, k)

  match_rule-IsSupported :
      (index : ℕ) (rule : Rule) (rest : List (Hit F Z))
      → IsAt rule index whole
      → All IsSupported rest
      → All IsSupported (
          match_rule fl ints share_min rule
            (required_layer rule.id)
            collected
            (lookup index native)
            (share_of fl ints total (lookup index native))
            (signal_evidence fl ints (lookup rule.id signal_gates) all_signals)
            (section_hits fl ints scores rule.prof_sections)
            rest)
  unfolding match_rule hit_of
  match_rule-IsSupported index rule rest place k =
      let share = share_of fl ints total (lookup index native) in
      let signals = signal_evidence fl ints (lookup rule.id signal_gates) all_signals in
      let sections = section_hits fl ints scores rule.prof_sections in
      if_cases (All IsSupported) (is_missing fl ints (required_layer rule.id) collected) rest _
        (λ _. k)
        (λ m.
          if_cases (All IsSupported)
            (not (le share_min share || has_any signals || has_any sections)) rest
            (hit_of fl ints share_min rule (required_layer rule.id) (lookup index native) share
                signals sections
              ∷ rest)
            (λ _. k)
            (λ e. (
              record {
                index = index;
                rule = rule;
                place = place;
                of_rule = refl;
                layer = layer_of rule.id m;
                is_share = refl;
                evidence = not_not (le share_min share || has_any signals || has_any sections) e;
                signalled = signal_evidence-IsSignal rule.id (lookup rule.id signal_gates) refl;
                hot = section_hits-IsHot rule.prof_sections;
                at_most_one = laws.round-le _ (hundredths 100) 2 (
                    confidence_of-bound (le share_min share) share (has_any signals)
                      (has_any sections));
              },
              k,
            )))
    where
      not_not : (b : Bool) → not b ≡ false → b ≡ true
      not_not true h = refl
      not_not false h = absurd (cc h)

  match_from-IsSupported :
      (index : ℕ) (rules : List Rule)
      → ((k : ℕ) (rule : Rule) → IsAt rule k rules → IsAt rule (k + index) whole)
      → All IsSupported
          (match_from fl ints share_min index rules native total scores collected all_signals)
  unfolding match_from
  match_from-IsSupported index [] place = tt
  match_from-IsSupported index (rule ∷ rules) place =
      match_rule-IsSupported index rule _
        (subst (λ n. IsAt rule n whole) (omega arith) (place zero rule at_head))
        (match_from-IsSupported (suc index) rules (λ k r a.
          let next : IsAt r (suc k + index) whole = place (suc k) r (behind a) in
          let same : suc k + index ≡ k + suc index = omega arith in
          subst (λ n. IsAt r n whole) same next))

module _ {N Z F : Type 0} (fl : Floats N F) (ints : Integers Z F) (laws : IsOrdered fl)
    (share_min : F) (collected : List Text) where
  -- No rule fires on noise: a hit is of a rule of the table, the layer of whose gate was collected; its
  -- native share is that of the rule's frames, and at the threshold unless a signal or a section is
  -- listed; each signal that it lists was measured in that layer and is at its minimum; each section has
  -- its own score, at 1 ms a call or above; and the confidence is at most 1, rounded. Any table of rules
  -- may be used; the floats are ordered.
  pub match_rules-IsSupported :
      (rules : List Rule) (frames : List (Text × Z)) (top_sections : List (Section Z F))
      (signals : List (Text × Fields N))
      → All
          (IsSupported fl ints laws share_min collected rules
            (native_evidence fl ints rules frames (weight_sum fl ints ints.zero_int frames))
            (weight_sum fl ints ints.zero_int frames)
            (section_scores fl ints top_sections)
            signals)
          (match_rules fl ints share_min rules frames top_sections collected signals)
  unfolding match_rules
  match_rules-IsSupported rules frames top_sections signals = All-sorted _ _ _ (
      match_from-IsSupported fl ints laws share_min collected rules _ _ _ signals zero rules
        (λ k r a. subst (λ n. IsAt r n rules) (omega arith) a))
