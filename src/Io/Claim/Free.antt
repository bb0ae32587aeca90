-- ===== src/Io/Claim/Free.antt =====
-- A claim that runs alone returns, and what it returns was free.

use dtd_server_apm.Common.{
  ℕ, zero, suc, ◌≤◌, ◌<◌, ◌≡◌, ◌≢◌, ◌⊎◌, refl, ap, ◌∙◌, true, false, not, List, [], ◌∷◌, ◌++◌, Text,
  length, keep, length-append, arith, ◌=?◌, nat_eq, list_eq, text_eq, Bool-cases, inl, inr,
}
use dtd_server_apm.Common.Decimal.{str, str-injective}
use dtd_server_apm.Common.Dict.{contains}
use dtd_server_apm.Io.Claim.{suffixed, claim_loop, claim}

append-cancel : (s t u : Text) → s ++ t ≡ s ++ u → t ≡ u
append-cancel [] t u h = h
append-cancel (x ∷ s) t u h = append-cancel s t u (cc h)

pub suffixed-injective : (base : Text) (j k : ℕ) → j < k → suffixed base j ≢ suffixed base k
unfolding suffixed
suffixed-injective base zero zero h e = absurd (omega arith)
suffixed-injective base zero (suc k) h e =
    let n = length-append base (b'_' ∷ str (suc k)) in let l = ap length e in absurd (omega arith)
suffixed-injective base (suc j) zero h e = absurd (omega arith)
suffixed-injective base (suc j) (suc k) h e =
    let p = append-cancel base (b'_' ∷ str (suc j)) (b'_' ∷ str (suc k)) e in
    let q = str-injective (suc j) (suc k) (cc p) in absurd (omega arith)

others : Text → List Text → List Text
unfolding keep
others name names = keep (λ n. not (n =? name)) names

length-others : (name : Text) (names : List Text) → length (others name names) ≤ length names
unfolding others keep
length-others name [] = omega arith
length-others name (n ∷ names) = ground (arith, length-others name names)

length-others_present :
    (name : Text) (names : List Text)
    → contains names name ≡ true
    → length (others name names) < length names
unfolding others keep contains
length-others_present name [] h = absurd (cc h)
length-others_present name (n ∷ names) h =
    ground (arith, length-others name names, length-others_present name names)

contains-others :
    (name x : Text) (names : List Text)
    → name ≢ x
    → contains (others name names) x ≡ contains names x
unfolding others keep contains
contains-others name x [] h = refl
contains-others name x (n ∷ names) h =
    ground (arith, contains-others name x names h, text_eq.beq_iff n name, text_eq.beq_iff n x)

-- The walk from `k` on sees no more names than `small` has.
pub claim_loop-free :
    (fuel : ℕ) (base : Text) (k : ℕ) (names small : List Text)
    → ((j : ℕ) → k ≤ j → contains small (suffixed base j) ≡ contains names (suffixed base j))
    → length small < fuel
    → (j : ℕ) × (k ≤ j)
      × (claim_loop fuel base k names ≡ (suffixed base j, suffixed base j ∷ names))
      × (contains names (suffixed base j) ≡ false)
      × ((i : ℕ) → k ≤ i → i < j → contains names (suffixed base i) ≡ true)
unfolding claim_loop
claim_loop-free zero base k names small same h = absurd (omega arith)
claim_loop-free (suc fuel) base k names small same h =
    elim (Bool-cases (contains names (suffixed base k))) [
      | inr e ↦ (k, omega arith, rw e refl, e, λ i p q. absurd (omega arith))
      | inl e ↦
          let here = same k (omega arith) ∙ e in
          let fewer = length-others_present (suffixed base k) small here in
          let (j, p, q, r, s) =
            claim_loop-free fuel base (suc k) names (others (suffixed base k) small)
              (λ j le.
                contains-others (suffixed base k) (suffixed base j) small
                  (suffixed-injective base k j (omega arith))
                ∙ same j (omega arith))
              (omega arith) in
          (
            j,
            omega arith,
            rw e q,
            r,
            λ i le lt. elim (Nat-cases k i le) [ inl eq ↦ rw (← eq) e | inr more ↦ s i more lt ],
          )
    ]
  where
    Nat-cases : (k i : ℕ) → k ≤ i → (k ≡ i) ⊎ (k < i)
    Nat-cases k i le = ground arith

-- A claim that runs alone takes the first name of the walk that does not exist, and adds it: it never
-- runs out of the rounds that it is given.
pub claim-least :
    (base : Text) (names : List Text)
    → (j : ℕ) × (claim base names ≡ (suffixed base j, suffixed base j ∷ names))
      × (contains names (suffixed base j) ≡ false)
      × ((i : ℕ) → i < j → contains names (suffixed base i) ≡ true)
unfolding claim
claim-least base names =
    let (j, p, q, r, s) =
      claim_loop-free (suc (length names)) base 0 names names (λ j le. refl) (omega arith) in
    (j, q, r, λ i lt. s i (omega arith) lt)
