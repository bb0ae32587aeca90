-- ===== src/Profiler/Collapse/Sums.antt =====
-- The counts of folded stacks as they grow: their sum, and the keys that they may have.
use dtd_server_apm.Common.{
  ℕ, ◌+◌, ◌≤◌, ◌<◌, ◌≡◌, ◌≢◌, refl, ap, sym, ◌∙◌, List, [], ◌∷◌, Text, length, All, Lacks, arith,
  text_eq, nat_eq, list_eq, ◌=?◌, Bool-cases, inl, inr, join, length-append, All-append,
}
use dtd_server_apm.Common.Dict.{lookup, insert}
use mathlib.Core.Path.{subst}
use mathlib.Core.List.{reverse, reverse-append}
use dtd_server_apm.Profiler.Collapse.{semicolon, max_stack_depth, bump, flush_counts}

-- The samples counted so far.
unfoldable pub total : List (Text × ℕ) → ℕ
total [] = 0
total ((k, n) ∷ m) = n + total m

pub total-bump : (key : Text) (m : List (Text × ℕ)) → total (bump key m) ≡ total m + 1
unfolding bump total insert lookup
total-bump key [] = refl
total-bump key ((k, n) ∷ m) = ground (arith, total-bump key m, text_eq.beq_iff k key)

-- A stack that may be flushed: bounded, and made of frames that can be joined and split.
abbrev pub IsStack : List Text → Type 0
IsStack fs = (length fs ≤ max_stack_depth) × All (λ f. (f ≢ []) × Lacks semicolon f) fs

abbrev pub IsKey : Text → Type 0
IsKey key = (fs : List Text) × (fs ≢ []) × IsStack fs × (key ≡ join semicolon fs)

abbrev pub HasKeys : List (Text × ℕ) → Type 0
HasKeys = All (λ entry. IsKey entry.0 × (0 < entry.1))

pub HasKeys-insert :
    (key : Text) (n : ℕ) (m : List (Text × ℕ))
    → IsKey key
    → 0 < n
    → HasKeys m
    → HasKeys (insert key n m)
unfolding insert
HasKeys-insert key n [] k p h = ((k, p), tt)
HasKeys-insert key n ((j, w) ∷ m) k p h = elim (Bool-cases (j =? key)) [
  | inl e ↦ rw e ((h.0.0, p), h.1)
  | inr e ↦ rw e (h.0, HasKeys-insert key n m k p h.1)
]

pub All-reverse {ℓ κ} : {A : Type ℓ} (P : A → Type κ) (xs : List A) → All P xs → All P (reverse xs)
All-reverse P [] h = tt
All-reverse P (x ∷ xs) h =
    subst (All P) (sym (reverse-append (x ∷ []) xs))
      (All-append P (reverse xs) (x ∷ []) (All-reverse P xs h.1) (h.0, tt))

pub length-reverse {ℓ} : {A : Type ℓ} (xs : List A) → length (reverse xs) ≡ length xs
length-reverse [] = refl
length-reverse (x ∷ xs) =
    ap length (reverse-append (x ∷ []) xs)
    ∙ omega (arith, length-append (reverse xs) (x ∷ []), length-reverse xs)

pub reverse-ne-nil : (f : Text) (fs : List Text) → reverse (f ∷ fs) ≢ []
reverse-ne-nil f fs e = absurd (omega (arith, ap length e, length-reverse (f ∷ fs)))

pub HasKeys-bump : (key : Text) (m : List (Text × ℕ)) → IsKey key → HasKeys m → HasKeys (bump key m)
unfolding bump
HasKeys-bump key m k h = HasKeys-insert key _ m k (omega arith) h

pub HasKeys-flush :
    (fs : List Text) (m : List (Text × ℕ)) → IsStack fs → HasKeys m → HasKeys (flush_counts fs m)
unfolding flush_counts
HasKeys-flush [] m k h = h
HasKeys-flush (f ∷ fs) m k h =
    HasKeys-bump _ m
      (
        reverse (f ∷ fs),
        reverse-ne-nil f fs,
        (omega (arith, k.0, length-reverse (f ∷ fs)), All-reverse _ (f ∷ fs) k.1),
        refl,
      )
      h

-- 1 if a stack is waiting to be counted.
pub pending : List Text → ℕ
pending [] = 0
pending (f ∷ fs) = 1

pub total-flush :
    (fs : List Text) (m : List (Text × ℕ)) → total (flush_counts fs m) ≡ total m + pending fs
unfolding flush_counts pending
total-flush [] m = omega arith
total-flush (f ∷ fs) m = total-bump _ m

pub pending-le : (fs : List Text) → pending fs ≤ 1
unfolding pending
pending-le [] = omega arith
pending-le (f ∷ fs) = omega arith
