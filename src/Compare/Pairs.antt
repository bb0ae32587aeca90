-- ===== src/Compare/Pairs.antt =====
-- The rows of a comparison.
use dtd_server_apm.Common.{
  ℕ, ◌≡◌, ◌≢◌, ◌↔◌, refl, sym, ap, ◌∙◌, Bool, true, false, ◌&&◌, ◌||◌, List, [], ◌∷◌, ◌++◌, some,
  Text, All, All-imp, map, arith, if◌then◌else◌, if_cases, nat_eq, list_eq, text_eq, ◌=?◌,
  Bool-cases, inl, inr,
}
use dtd_server_apm.Common.Dict.{contains, lookup}
use dtd_server_apm.Common.Order.{text_lt}
use dtd_server_apm.Common.Sort.{insert_sorted, sorted, All-sorted}
use dtd_server_apm.Models.Numbers.{Floats}
use dtd_server_apm.Budget.{names_of}
use dtd_server_apm.Compare.{
  Row, not_comparable, distinct, measured, winner, row_of, rows_of, paired_deltas,
}

module _ {ℓ} {A : Type ℓ} (key : A → Text) (before : A → A → Bool) where
  contains-insert_sorted :
      (x : A) (xs : List A) (k : Text)
      → contains (map key (insert_sorted before x xs)) k ≡ (key x =? k || contains (map key xs) k)
  unfolding insert_sorted contains
  contains-insert_sorted x [] k = refl
  contains-insert_sorted x (y ∷ ys) k =
      if_cases (λ l. contains (map key l) k ≡ (key x =? k || contains (map key (y ∷ ys)) k))
        (before y x) (y ∷ insert_sorted before x ys) (x ∷ y ∷ ys)
        (λ _. ground (arith, contains-insert_sorted x ys k)) (λ _. refl)

  pub contains-sorted :
      (xs : List A) (k : Text) → contains (map key (sorted before xs)) k ≡ contains (map key xs) k
  unfolding sorted contains
  contains-sorted [] k = refl
  contains-sorted (x ∷ xs) k =
      contains-insert_sorted x (sorted before xs) k ∙ rw (contains-sorted xs k) refl

map-id : (xs : List Text) → map (λ x. x) xs ≡ xs
map-id [] = refl
map-id (x ∷ xs) = rw (map-id xs) refl

contains-sorted_names : (xs : List Text) (k : Text) → contains (sorted text_lt xs) k ≡ contains xs k
contains-sorted_names xs k =
    ap (λ l. contains l k) (sym (map-id (sorted text_lt xs)))
    ∙ contains-sorted (λ x. x) text_lt xs k
    ∙ ap (λ l. contains l k) (map-id xs)

absorb : (a b : Bool) → (a ≡ true → b ≡ true) → b ≡ (a || b)
absorb true b h = h refl
absorb false b h = refl

contains-distinct : (xs : List Text) (k : Text) → contains (distinct xs) k ≡ contains xs k
unfolding distinct contains
contains-distinct [] k = refl
contains-distinct (x ∷ xs) k = elim (Bool-cases (contains (distinct xs) x)) [
  | inl e ↦
      rw (e, contains-distinct xs k)
        (absorb (x =? k) (contains xs k) (λ h.
          let same : x ≡ k = (text_eq.beq_iff x k).0 h in
          sym (contains-distinct xs k) ∙ ap (contains (distinct xs)) (sym same) ∙ e))
  | inr e ↦ rw (e, contains-distinct xs k) refl
]

contains-append :
    (xs ys : List Text) (k : Text) → contains (xs ++ ys) k ≡ (contains xs k || contains ys k)
unfolding contains
contains-append [] ys k = refl
contains-append (x ∷ xs) ys k = ground (arith, contains-append xs ys k)

contains_each : (xs : List Text) → All (λ x. contains xs x ≡ true) xs
unfolding contains
contains_each [] = tt
contains_each (x ∷ xs) = (
  rw ((text_eq.beq_iff x x).1 refl) refl,
  All-imp (λ y h. ground (arith, h)) xs (contains_each xs),
)

All-distinct {ℓ} : (P : Text → Type ℓ) (xs : List Text) → All P xs → All P (distinct xs)
unfolding distinct
All-distinct P [] h = tt
All-distinct P (x ∷ xs) h =
    if_cases (All P) (contains (distinct xs) x) (distinct xs) (x ∷ distinct xs)
      (λ _. All-distinct P xs h.1) (λ _. (h.0, All-distinct P xs h.1))

module _ {N F : Type 0} (fl : Floats N F) (left right : List (Text × F)) where
  -- A row of a name that some side measured; it has a verdict exactly where both did.
  pub record IsPaired (row : Row F) : Type 0 where
    pub measured_somewhere :
        (measured (lookup row.name left) || measured (lookup row.name right)) ≡ true
    pub one_sided :
        (row.better ≡ not_comparable)
        ↔ ((measured (lookup row.name left) && measured (lookup row.name right)) ≡ false)

  winner_verdict : (x : F) → winner fl x ≢ not_comparable
  unfolding winner
  winner_verdict x h = ground (arith, h)

  verdict_iff :
      (b : Bool) (x : F)
      → ((if b then winner fl x else not_comparable) ≡ not_comparable) ↔ (b ≡ false)
  verdict_iff true x = (λ h. absurd (winner_verdict x h), λ h. cc h)
  verdict_iff false x = (λ h. refl, λ h. refl)

  row_of-IsPaired :
      (ndigits : ℕ) (name : Text)
      → (measured (lookup name left) || measured (lookup name right)) ≡ true
      → IsPaired (row_of fl ndigits name (lookup name left) (lookup name right))
  unfolding row_of
  row_of-IsPaired ndigits name h = record {
    measured_somewhere = h;
    one_sided = verdict_iff (measured (lookup name left) && measured (lookup name right)) _;
  }

  rows_of-IsPaired :
      (ndigits : ℕ) (names : List Text)
      → All (λ n. (measured (lookup n left) || measured (lookup n right)) ≡ true) names
      → All IsPaired (rows_of fl ndigits left right names)
  unfolding rows_of
  rows_of-IsPaired ndigits [] h = tt
  rows_of-IsPaired ndigits (name ∷ names) h =
      (row_of-IsPaired ndigits name h.0, rows_of-IsPaired ndigits names h.1)

  names-rows_of :
      (ndigits : ℕ) (names : List Text)
      → map (λ r. r.name) (rows_of fl ndigits left right names) ≡ names
  unfolding rows_of row_of
  names-rows_of ndigits [] = refl
  names-rows_of ndigits (name ∷ names) = rw (names-rows_of ndigits names) refl

  measured-lookup :
      (values : List (Text × F)) (name : Text)
      → measured (lookup name values) ≡ contains (names_of fl values) name
  unfolding lookup contains measured
  measured-lookup [] name = refl
  measured-lookup ((k, x) ∷ values) name =
      if_cases (λ o. measured o ≡ (k =? name || contains (names_of fl values) name)) (k =? name)
        (some x) (lookup name values) (λ e. rw e refl) (λ e. rw e (measured-lookup values name))

  every_name : List Text
  every_name = names_of fl left ++ names_of fl right

  measured_name :
      (n : Text)
      → contains every_name n ≡ true
      → (measured (lookup n left) || measured (lookup n right)) ≡ true
  unfolding every_name
  measured_name n h =
      rw (measured-lookup left n, measured-lookup right n)
        (sym (contains-append (names_of fl left) (names_of fl right) n) ∙ h)

  measured_each :
      All
        (λ n. (measured (lookup n left) || measured (lookup n right)) ≡ true)
        (sorted text_lt (distinct every_name))
  unfolding every_name
  measured_each =
      All-sorted (λ n. (measured (lookup n left) || measured (lookup n right)) ≡ true) text_lt
        (distinct every_name)
        (All-distinct (λ n. (measured (lookup n left) || measured (lookup n right)) ≡ true)
          every_name (All-imp (λ n h. measured_name n h) every_name (contains_each every_name)))

  -- Every name that either session measured has a row, every row is of such a name, and a row is called
  -- not comparable exactly where one of the sessions did not measure it: what one side lacks is never
  -- ranked as an improvement or a regression.
  pub paired_deltas-IsPaired :
      (ndigits : ℕ)
      → All IsPaired (paired_deltas fl ndigits left right)
        × All
            (λ n. contains (map (λ r. r.name) (paired_deltas fl ndigits left right)) n ≡ true)
            (names_of fl left ++ names_of fl right)
  unfolding paired_deltas every_name
  paired_deltas-IsPaired ndigits = (
    All-sorted IsPaired _ _ (rows_of-IsPaired ndigits _ measured_each),
    All-imp
        (λ n h.
          contains-sorted (λ r. r.name) _
            (rows_of fl ndigits left right (sorted text_lt (distinct every_name))) n
          ∙ ap (λ l. contains l n) (names-rows_of ndigits (sorted text_lt (distinct every_name)))
          ∙ contains-sorted_names (distinct every_name) n
          ∙ contains-distinct every_name n
          ∙ h)
        every_name (contains_each every_name),
  )
