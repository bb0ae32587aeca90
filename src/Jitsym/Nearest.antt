-- ===== src/Jitsym/Nearest.antt =====
-- An address resolves to the nearest entry below it, or not at all.
use mathlib.Core.Path.{subst}
use dtd_server_apm.Common.{
  ltb→lt, ◌-◌, ℕ, zero, suc, ◌+◌, ◌≤◌, ◌<◌, ◌≡◌, refl, Bool, List, [], ◌∷◌, Option, none, some,
  Text, if_cases, get_elem?, All, All-imp, arith, Bool-cases, inl, inr,
}
use dtd_server_apm.Common.Sort.{sorted, insert_sorted, All-insert_sorted}
use dtd_server_apm.Jitsym.{
  Signed, is_less, natural, SymbolEntry, read_map, load_map, bisect_right, entry_within,
  entry_before, resolve,
}

-- The orders of integers.
abbrev pub IsLess : Signed → Signed → Type 0
IsLess a b = a.above + b.below < b.above + a.below

abbrev pub IsAtMost : Signed → Signed → Type 0
IsAtMost a b = a.above + b.below ≤ b.above + a.below

IsSorted : List SymbolEntry → Type 0
IsSorted [] = Unit
IsSorted (e ∷ entries) = All (λ f. IsAtMost e.start f.start) entries × IsSorted entries

abbrev earlier : SymbolEntry → SymbolEntry → Bool
earlier a b = is_less a.start b.start

insert_sorted-IsSorted :
    (e : SymbolEntry) (entries : List SymbolEntry)
    → IsSorted entries
    → IsSorted (insert_sorted earlier e entries)
unfolding IsSorted insert_sorted
insert_sorted-IsSorted e [] h = (tt, tt)
insert_sorted-IsSorted e (f ∷ entries) h =
    if_cases IsSorted (earlier f e) (f ∷ insert_sorted earlier e entries) (e ∷ f ∷ entries)
      (λ lt. (
        All-insert_sorted (λ g. IsAtMost f.start g.start) earlier e entries (ground arith) h.0,
        insert_sorted-IsSorted e entries h.1,
      ))
      (λ ge.
        let le : IsAtMost e.start f.start = ground arith in
        ((le, All-imp (λ g k. omega arith) entries h.0), h))

sorted-IsSorted : (entries : List SymbolEntry) → IsSorted (sorted earlier entries)
unfolding sorted IsSorted
sorted-IsSorted [] = tt
sorted-IsSorted (e ∷ entries) =
    insert_sorted-IsSorted e (sorted earlier entries) (sorted-IsSorted entries)

abbrev Ends {ℓ κ} : {A : Type ℓ} → (A → Type κ) → Option A → Type κ
Ends P none = Unit
Ends P (some x) = P x

All-get_elem? {ℓ κ} :
    {A : Type ℓ} (P : A → Type κ) (xs : List A) (i : ℕ) (x : A)
    → All P xs
    → get_elem? xs i ≡ some x
    → P x
All-get_elem? P [] i x h e = absurd (cc e)
All-get_elem? P (y ∷ ys) zero x h e = subst (Ends P) e h.0
All-get_elem? P (y ∷ ys) (suc i) x h e = All-get_elem? P ys i x h.1 e

-- Where no entry starts at the address or below, all start above it.
none_below :
    (addr : ℕ) (entries : List SymbolEntry)
    → IsSorted entries
    → bisect_right entries addr ≡ 0
    → All (λ f. IsLess (natural addr) f.start) entries
unfolding bisect_right IsSorted
none_below addr [] h k = tt
none_below addr (e ∷ entries) h k =
    let lt : IsLess (natural addr) e.start = ground arith in
    (lt, All-imp (λ f le. omega arith) entries h.0)

shifted :
    (addr : ℕ) (e : SymbolEntry) (entries : List SymbolEntry) (k : ℕ)
    → bisect_right (e ∷ entries) addr ≡ suc k
    → IsAtMost e.start (natural addr) × (bisect_right entries addr ≡ k)
unfolding bisect_right
shifted addr e entries k p = ground arith

nearest :
    (addr : ℕ) (entries : List SymbolEntry) (x : SymbolEntry) (k : ℕ)
    → IsSorted entries
    → bisect_right entries addr ≡ k
    → entry_before entries k ≡ some x
    → IsAtMost x.start (natural addr)
      × All (λ f. IsAtMost f.start (natural addr) → IsAtMost f.start x.start) entries
unfolding bisect_right entry_before IsSorted
nearest addr [] x zero h p q = absurd (cc q)
nearest addr [] x (suc k) h p q = absurd (cc p)
nearest addr (e ∷ entries) x zero h p q = absurd (cc q)
nearest addr (e ∷ entries) x (suc zero) h p q =
    let (le, k) = shifted addr e entries zero p in
    subst
      (Ends (λ (o : SymbolEntry).
        IsAtMost o.start (natural addr)
        × All (λ f. IsAtMost f.start (natural addr) → IsAtMost f.start o.start) (e ∷ entries)))
      q
      (
        le,
        (
          (λ _. omega arith),
          All-imp (λ f above below. absurd (omega arith)) entries (none_below addr entries h.1 k),
        ),
      )
nearest addr (e ∷ entries) x (suc (suc i)) h p q =
    let (le, k) = shifted addr e entries (suc i) p in
    let (below, all) = nearest addr entries x (suc i) h.1 k q in
    (below, ((λ _. All-get_elem? (λ f. IsAtMost e.start f.start) entries i x h.0 q), all))

-- What an address resolves to in a map.
pub record IsResolution (entries : List SymbolEntry) (addr : ℕ) (symbol : Text) (offset : ℕ)
    : Type 0 where
  pub entry : SymbolEntry
  pub index : ℕ
  pub listed : get_elem? entries index ≡ some entry
  pub named : symbol ≡ entry.symbol
  pub counted : entry.start.above + offset ≡ addr + entry.start.below
  pub inside : IsLess (natural addr) entry.end_address
  pub nearest_below :
      All (λ f. IsAtMost f.start (natural addr) → IsAtMost f.start entry.start) entries

entry_within-some :
    (addr : ℕ) (o : Option SymbolEntry) (symbol : Text) (offset : ℕ)
    → entry_within addr o ≡ some (symbol, offset)
    → (e : SymbolEntry) × (o ≡ some e)
      × IsLess (natural addr) e.end_address
      × (symbol ≡ e.symbol)
      × (offset ≡ addr + e.start.below - e.start.above)
unfolding entry_within
entry_within-some addr none symbol offset h = absurd (cc h)
entry_within-some addr (some e) symbol offset h =
    elim (Bool-cases (is_less (natural addr) e.end_address)) [
      | inl lt ↦ let q = rw lt at h in (e, refl, ltb→lt _ _ lt, cc q, cc q)
      | inr ge ↦ absurd (let q = rw ge at h in cc q)
    ]

index_before :
    (entries : List SymbolEntry) (k : ℕ) (e : SymbolEntry)
    → entry_before entries k ≡ some e
    → (i : ℕ) × (get_elem? entries i ≡ some e)
unfolding entry_before
index_before entries zero e h = absurd (cc h)
index_before entries (suc i) e h = (i, h)

-- Where an address resolves in a loaded map, an entry of the map covers it: the address is its start
-- and the offset, and lies in front of its end; and of all entries that start at the address or below
-- it is one that starts last.
pub load_map-IsResolution :
    (parse_hex : Text → Option Signed) (lines : List Text) (addr : ℕ) (symbol : Text) (offset : ℕ)
    → resolve (load_map parse_hex lines) addr ≡ some (symbol, offset)
    → IsResolution (load_map parse_hex lines) addr symbol offset
unfolding resolve load_map
load_map-IsResolution parse_hex lines addr symbol offset h =
    let entries : List SymbolEntry = sorted earlier (read_map parse_hex lines) in
    let (e, found, inside, named, counted) =
      entry_within-some addr (entry_before entries (bisect_right entries addr)) symbol offset h in
    let (below, all) =
      nearest addr entries e (bisect_right entries addr)
        (sorted-IsSorted (read_map parse_hex lines)) refl found in
    let (i, listed) = index_before entries (bisect_right entries addr) e found in
    record {
      entry = e;
      index = i;
      listed = listed;
      named = named;
      counted = omega arith;
      inside = inside;
      nearest_below = all;
    }
