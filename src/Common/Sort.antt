-- ===== src/Common/Sort.antt =====
-- Python's `sorted`, which is stable: insertion sort by a Boolean order on keys.
use mathlib.Core.Bool.{Bool}
use mathlib.Core.List.{List, [], ◌∷◌}
use dtd_server_apm.Common.Tests.{if◌then◌else◌, if_cases}
use dtd_server_apm.Common.Lists.{All}

module _ {ℓ} {A : Type ℓ} (before : A → A → Bool) where
  -- `x` stands in front of what must not come before it.
  unfoldable pub insert_sorted : A → List A → List A
  insert_sorted x [] = x ∷ []
  insert_sorted x (y ∷ ys) = if before y x then y ∷ insert_sorted x ys else x ∷ y ∷ ys

  unfoldable pub sorted : List A → List A
  unfolding insert_sorted
  sorted [] = []
  sorted (x ∷ xs) = insert_sorted x (sorted xs)

pub All-insert_sorted {ℓ κ} :
    {A : Type ℓ} (P : A → Type κ) (before : A → A → Bool) (x : A) (xs : List A)
    → P x
    → All P xs
    → All P (insert_sorted before x xs)
unfolding insert_sorted
All-insert_sorted P before x [] h k = (h, tt)
All-insert_sorted P before x (y ∷ ys) h k =
    if_cases (All P) (before y x) (y ∷ insert_sorted before x ys) (x ∷ y ∷ ys)
      (λ _. (k.0, All-insert_sorted P before x ys h k.1)) (λ _. (h, k))

pub All-sorted {ℓ κ} :
    {A : Type ℓ} (P : A → Type κ) (before : A → A → Bool) (xs : List A)
    → All P xs
    → All P (sorted before xs)
unfolding sorted
All-sorted P before [] h = tt
All-sorted P before (x ∷ xs) h =
    All-insert_sorted P before x (sorted before xs) h.0 (All-sorted P before xs h.1)
