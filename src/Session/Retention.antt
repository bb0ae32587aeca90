-- ===== src/Session/Retention.antt =====
-- `list_sessions` and `sessions_beyond_budget` of tools/apm_suite/session.py. A session is its name,
-- its modification time and the bytes below it, as one walk of the store reads them. The byte budget
-- is a float of the caller, so it enters as the test `total <= max_bytes`.
use mathlib.Core.List.{reverse, reverse-append, reverse-reverse}
use mathlib.Core.Path.{subst}
use dtd_server_apm.Common.{
  ℕ, ◌+◌, ◌-◌, ◌≡◌, ◌⊎◌, inl, inr, refl, ap, sym, ◌∙◌, Bool, true, false, ◌&&◌, ◌||◌, List, [], ◌∷◌,
  ◌++◌, Option, none, some, Text, take, drop, map, sum, arith, ltb, if◌then◌else◌, nat_eq, list_eq,
  ◌=?◌, keep, if_cases,
}
use dtd_server_apm.Common.Sort.{sorted}
use dtd_server_apm.Common.Order.{text_lt}

pub record Stored : Type 0 where
  pub name : Text
  pub mtime : ℕ
  pub bytes : ℕ
  pub is_dir : Bool

-- `key=(mtime, name)` with `reverse=True`: the newest first, the later name on a tie.
pub newer : Stored → Stored → Bool
newer a b = ltb b.mtime a.mtime || (a.mtime =? b.mtime && text_lt b.name a.name)

pub list_sessions : List Stored → List Stored
unfolding newer keep sorted
list_sessions found = sorted newer (keep (λ s. s.is_dir) found)

-- `for session in reversed(sessions[:keep])`: what is doomed beside the sessions past `keep`.
pub evict : (ℕ → Bool) → ℕ → List Stored → List Stored
evict fits total [] = []
evict fits total (s ∷ rest) =
    let more = s ∷ evict fits (total - s.bytes) rest in if fits total then [] else more

abbrev pub total_bytes : List Stored → ℕ
total_bytes sessions = sum (map (λ s. s.bytes) sessions)

pub sessions_beyond_budget : List Stored → ℕ → Option (ℕ → Bool) → List Stored
unfolding evict
sessions_beyond_budget sessions keep none = drop keep sessions
sessions_beyond_budget sessions keep (some fits) =
    drop keep sessions
    ++ evict fits (total_bytes (take keep sessions)) (reverse (take keep sessions))

total-append : (xs ys : List Stored) → total_bytes (xs ++ ys) ≡ total_bytes xs + total_bytes ys
total-append [] ys = omega arith
total-append (x ∷ xs) ys = omega (arith, total-append xs ys)

total-reverse : (xs : List Stored) → total_bytes (reverse xs) ≡ total_bytes xs
total-reverse [] = refl
total-reverse (x ∷ xs) =
    ap total_bytes (reverse-append (x ∷ []) xs)
    ∙ omega (arith, total-append (reverse xs) (x ∷ []), total-reverse xs)

-- What the eviction does to a list that begins with the oldest session.
record IsEvicted (fits : ℕ → Bool) (kept doomed : List Stored) : Type 0 where
  survivors : List Stored
  splits : kept ≡ doomed ++ survivors
  fitting : (fits (total_bytes survivors) ≡ true) ⊎ (survivors ≡ [])
  needed :
      (doomed ≡ [])
      ⊎ ((d : List Stored) × (s : Stored) × (doomed ≡ d ++ s ∷ [])
          × (fits (total_bytes (s ∷ survivors)) ≡ false))

evict-IsEvicted :
    (fits : ℕ → Bool) (total : ℕ) (kept : List Stored)
    → total ≡ total_bytes kept
    → IsEvicted fits kept (evict fits total kept)
unfolding evict
evict-IsEvicted fits total [] e = record {
  survivors = [];
  splits = refl;
  fitting = inr refl;
  needed = inl refl;
}
evict-IsEvicted fits total (s ∷ rest) e =
    if_cases (IsEvicted fits (s ∷ rest)) (fits total) [] _
      (λ enough. record {
        survivors = s ∷ rest;
        splits = refl;
        fitting = inl (rw (← e) enough);
        needed = inl refl;
      })
      (λ over. longer s rest over e (evict-IsEvicted fits (total - s.bytes) rest (omega arith)))
  where
    longer :
        (s : Stored) (rest : List Stored) {doomed : List Stored}
        → fits total ≡ false
        → total ≡ total_bytes (s ∷ rest)
        → IsEvicted fits rest doomed
        → IsEvicted fits (s ∷ rest) (s ∷ doomed)
    longer s rest over e h = record {
      survivors = h.survivors;
      splits = ap (λ l. s ∷ l) h.splits;
      fitting = h.fitting;
      needed = inr (elim h.needed [
        | inl p ↦ (
          [],
          s,
          ap (λ l. s ∷ l) p,
          subst (λ n. fits n ≡ false)
              (e ∙ ap (λ l. total_bytes (s ∷ l)) (h.splits ∙ ap (λ l. l ++ h.survivors) p)) over,
        )
        | inr (d, x, p, q) ↦ (s ∷ d, x, ap (λ l. s ∷ l) p, q)
      ]);
    }

-- What a retention leaves and dooms.
pub record IsRetained (sessions : List Stored) (keep : ℕ) (fits : ℕ → Bool) (doomed : List Stored)
    : Type 0 where
  pub kept : List Stored
  pub evicted : List Stored
  pub splits : take keep sessions ≡ kept ++ evicted
  pub dooms : doomed ≡ drop keep sessions ++ reverse evicted
  pub fitting : (fits (total_bytes kept) ≡ true) ⊎ (kept ≡ [])
  pub needed :
      (evicted ≡ [])
      ⊎ ((s : Stored) × (d : List Stored) × (evicted ≡ s ∷ d)
          × (fits (total_bytes (kept ++ s ∷ [])) ≡ false))

-- Read from the newest session on, an eviction is a retention.
IsEvicted-IsRetained :
    (sessions : List Stored) (keep : ℕ) (fits : ℕ → Bool) (doomed : List Stored)
    → IsEvicted fits (reverse (take keep sessions)) doomed
    → IsRetained sessions keep fits (drop keep sessions ++ doomed)
IsEvicted-IsRetained sessions keep fits doomed h = record {
  kept = reverse h.survivors;
  evicted = reverse doomed;
  splits =
      sym (reverse-reverse (take keep sessions))
      ∙ ap reverse h.splits
      ∙ reverse-append doomed h.survivors;
  dooms = ap (λ l. drop keep sessions ++ l) (sym (reverse-reverse doomed));
  fitting = elim h.fitting [ inl p ↦ inl (rw total-reverse p) | inr p ↦ inr (ap reverse p) ];
  needed = elim h.needed [
    | inl p ↦ inl (ap reverse p)
    | inr (d, s, p, q) ↦ inr (
      s,
      reverse d,
      ap reverse p ∙ reverse-append d (s ∷ []),
      subst (λ n. fits n ≡ false)
          (omega (arith, total-append (reverse h.survivors) (s ∷ []), total-reverse h.survivors)) q,
    )
  ];
}

-- With a byte budget the sessions that stay are a prefix of the newest `keep`. They fit the budget, or
-- none is left; and it is the longest such prefix: with the next session they would not fit. What is
-- doomed is all the rest: first those past `keep`, then the others from the oldest on.
pub sessions_beyond_budget-IsRetained :
    (sessions : List Stored) (keep : ℕ) (fits : ℕ → Bool)
    → IsRetained sessions keep fits (sessions_beyond_budget sessions keep (some fits))
unfolding sessions_beyond_budget
sessions_beyond_budget-IsRetained sessions keep fits =
    let first : List Stored = take keep sessions in
    IsEvicted-IsRetained sessions keep fits _
      (evict-IsEvicted fits (total_bytes first) (reverse first) (sym (total-reverse first)))
