-- ===== src/Profiler/Dumps/Compact.antt =====
-- `dumps_deep` writes what the recursive encoder would, `json.dumps(value, separators=(",", ":"))`.
use dtd_server_apm.Common.{
  ℕ, zero, suc, ◌+◌, ◌*◌, ◌≤◌, ◌≡◌, refl, ap, sym, ◌∙◌, List, [], ◌∷◌, ◌++◌, Text, codes,
  append_assoc, append-nil, arith,
}
use mathlib.Core.List.{reverse, reverse-append}
use dtd_server_apm.Io.Json.{
  Json, Items, Fields, null, bool, num, str, arr, obj, nil, cons, end, field, to_list, to_pairs,
  size, size_items, size_fields,
}
use dtd_server_apm.Profiler.Dumps.{
  Item, value, close, raw, push_pairs, push_items, emit, loop, dumps_deep,
}

-- The recursive encoder: a container's elements with commas between them.
unfoldable mutual
  pub compact : {N : Type 0} → (Json N → Text) → Json N → Text
  compact scalar null = scalar null
  compact scalar (bool b) = scalar (bool b)
  compact scalar (num n) = scalar (num n)
  compact scalar (str s) = scalar (str s)
  compact scalar (arr nil) = codes "[]"
  compact scalar (arr (cons v vs)) =
      codes "[" ++ (compact scalar v ++ (more_items scalar vs ++ codes "]"))
  compact scalar (obj end) = codes "{}"
  compact scalar (obj (field k v fs)) =
      codes "{"
      ++ (scalar (str k)
          ++ (codes ":" ++ (compact scalar v ++ (more_fields scalar fs ++ codes "}"))))

  -- The elements behind the first, each behind a comma.
  pub more_items : {N : Type 0} → (Json N → Text) → Items N → Text
  more_items scalar nil = []
  more_items scalar (cons v vs) = codes "," ++ (compact scalar v ++ more_items scalar vs)

  pub more_fields : {N : Type 0} → (Json N → Text) → Fields N → Text
  more_fields scalar end = []
  more_fields scalar (field k v fs) =
      codes "," ++ (scalar (str k) ++ (codes ":" ++ (compact scalar v ++ more_fields scalar fs)))

-- The rounds that the loop spends on a value.
unfoldable mutual
  rounds : {N : Type 0} → Json N → ℕ
  rounds null = 1
  rounds (bool b) = 1
  rounds (num n) = 1
  rounds (str s) = 1
  rounds (arr vs) = 2 + rounds_items vs
  rounds (obj fs) = 2 + rounds_fields fs

  rounds_items : {N : Type 0} → Items N → ℕ
  rounds_items nil = 0
  rounds_items (cons v vs) = (rounds v + 1) + rounds_items vs

  rounds_fields : {N : Type 0} → Fields N → ℕ
  rounds_fields end = 0
  rounds_fields (field k v fs) = (rounds v + 3) + rounds_fields fs

mutual
  unfolding rounds size

  rounds-le : {N : Type 0} (v : Json N) → rounds v + 3 ≤ 5 * size v
  rounds-le null = omega arith
  rounds-le (bool b) = omega arith
  rounds-le (num n) = omega arith
  rounds-le (str s) = omega arith
  rounds-le (arr vs) = omega (arith, rounds_items-le vs)
  rounds-le (obj fs) = omega (arith, rounds_fields-le fs)

  rounds_items-le : {N : Type 0} (vs : Items N) → rounds_items vs ≤ 5 * size_items vs
  rounds_items-le nil = omega arith
  rounds_items-le (cons v vs) = omega (arith, rounds-le v, rounds_items-le vs)

  rounds_fields-le : {N : Type 0} (fs : Fields N) → rounds_fields fs ≤ 5 * size_fields fs
  rounds_fields-le end = omega arith
  rounds_fields-le (field k v fs) = omega (arith, rounds-le v, rounds_fields-le fs)

module _ {N : Type 0} (scalar : Json N → Text) where
  -- What a stack still has to write.
  render : List (Item N) → Text
  render [] = []
  render (value v ∷ st) = compact scalar v ++ render st
  render (close c ∷ st) = c ++ render st
  render (raw t ∷ st) = t ++ render st

  -- How many rounds it takes.
  cost : List (Item N) → ℕ
  cost [] = 0
  cost (value v ∷ st) = rounds v + cost st
  cost (close c ∷ st) = 1 + cost st
  cost (raw t ∷ st) = 1 + cost st

  comma_items : List (Json N) → List (Item N) → List (Item N)
  comma_items [] st = st
  comma_items (v ∷ vs) st = comma_items vs (raw (codes ",") ∷ value v ∷ st)

  push_items-snoc :
      (vs : List (Json N)) (v : Json N) (st : List (Item N))
      → push_items (vs ++ v ∷ []) st ≡ value v ∷ comma_items vs st
  unfolding push_items comma_items
  push_items-snoc [] v st = refl
  push_items-snoc (w ∷ []) v st = refl
  push_items-snoc (w ∷ x ∷ vs) v st = push_items-snoc (x ∷ vs) v (raw (codes ",") ∷ value w ∷ st)

  comma_items-append :
      (vs ws : List (Json N)) (st : List (Item N))
      → comma_items (vs ++ ws) st ≡ comma_items ws (comma_items vs st)
  unfolding comma_items
  comma_items-append [] ws st = refl
  comma_items-append (v ∷ vs) ws st = comma_items-append vs ws (raw (codes ",") ∷ value v ∷ st)

  -- The rest of a list, pushed in reverse, comes out in order.
  comma_items-cons :
      (v : Json N) (vs : List (Json N)) (st : List (Item N))
      → comma_items (reverse (v ∷ vs)) st ≡ raw (codes ",") ∷ value v ∷ comma_items (reverse vs) st
  comma_items-cons v vs st =
      ap (λ l. comma_items l st) (reverse-append (v ∷ []) vs)
      ∙ comma_items-append (reverse vs) (v ∷ []) st
      ∙ (unfold comma_items in refl)

  render-items :
      (vs : Items N) (st : List (Item N))
      → render (comma_items (reverse (to_list vs)) st) ≡ more_items scalar vs ++ render st
  unfolding compact render
  render-items nil st = unfold comma_items in refl
  render-items (cons v vs) st = rw comma_items-cons (simp (render-items vs st, append_assoc))

  cost-items :
      (vs : Items N) (st : List (Item N))
      → cost (comma_items (reverse (to_list vs)) st) ≡ rounds_items vs + cost st
  unfolding rounds cost
  cost-items nil st = unfold comma_items in omega arith
  cost-items (cons v vs) st = rw comma_items-cons (omega (arith, cost-items vs st))

  comma_pairs : List (Text × Json N) → List (Item N) → List (Item N)
  comma_pairs [] st = st
  comma_pairs ((k, v) ∷ ps) st =
      comma_pairs ps (raw (codes ",") ∷ value (str k) ∷ raw (codes ":") ∷ value v ∷ st)

  push_pairs-snoc :
      (ps : List (Text × Json N)) (k : Text) (v : Json N) (st : List (Item N))
      → push_pairs (ps ++ (k, v) ∷ []) st
        ≡ value (str k) ∷ raw (codes ":") ∷ value v ∷ comma_pairs ps st
  unfolding push_pairs comma_pairs
  push_pairs-snoc [] k v st = refl
  push_pairs-snoc ((j, w) ∷ []) k v st = refl
  push_pairs-snoc ((j, w) ∷ p ∷ ps) k v st =
      push_pairs-snoc (p ∷ ps) k v
        (raw (codes ",") ∷ value (str j) ∷ raw (codes ":") ∷ value w ∷ st)

  comma_pairs-append :
      (ps qs : List (Text × Json N)) (st : List (Item N))
      → comma_pairs (ps ++ qs) st ≡ comma_pairs qs (comma_pairs ps st)
  unfolding comma_pairs
  comma_pairs-append [] qs st = refl
  comma_pairs-append ((k, v) ∷ ps) qs st = comma_pairs-append ps qs _

  comma_pairs-cons :
      (k : Text) (v : Json N) (ps : List (Text × Json N)) (st : List (Item N))
      → comma_pairs (reverse ((k, v) ∷ ps)) st
        ≡ raw (codes ",") ∷ value (str k) ∷ raw (codes ":") ∷ value v ∷ comma_pairs (reverse ps) st
  comma_pairs-cons k v ps st =
      ap (λ l. comma_pairs l st) (reverse-append ((k, v) ∷ []) ps)
      ∙ comma_pairs-append (reverse ps) ((k, v) ∷ []) st
      ∙ (unfold comma_pairs in refl)

  render-fields :
      (fs : Fields N) (st : List (Item N))
      → render (comma_pairs (reverse (to_pairs fs)) st) ≡ more_fields scalar fs ++ render st
  unfolding compact render
  render-fields end st = unfold comma_pairs in refl
  render-fields (field k v fs) st = rw comma_pairs-cons (simp (render-fields fs st, append_assoc))

  cost-fields :
      (fs : Fields N) (st : List (Item N))
      → cost (comma_pairs (reverse (to_pairs fs)) st) ≡ rounds_fields fs + cost st
  unfolding rounds cost
  cost-fields end st = unfold comma_pairs in omega arith
  cost-fields (field k v fs) st = rw comma_pairs-cons (omega (arith, cost-fields fs st))

  -- One round writes the front of what the stack renders, and costs at least one.
  record IsRound (item : Item N) (st : List (Item N)) (r : Text × List (Item N)) : Type 0 where
    text : render (item ∷ st) ≡ r.0 ++ render r.1
    fewer : 1 + cost r.1 ≤ cost (item ∷ st)

  items_round :
      (v : Json N) (vs : Items N) (st : List (Item N))
      → push_items (reverse (to_list (cons v vs))) st
        ≡ value v ∷ comma_items (reverse (to_list vs)) st
  items_round v vs st =
      ap (λ l. push_items l st) (reverse-append (v ∷ []) (to_list vs))
      ∙ push_items-snoc (reverse (to_list vs)) v st

  fields_round :
      (k : Text) (v : Json N) (fs : Fields N) (st : List (Item N))
      → push_pairs (reverse (to_pairs (field k v fs))) st
        ≡ value (str k) ∷ raw (codes ":") ∷ value v ∷ comma_pairs (reverse (to_pairs fs)) st
  fields_round k v fs st =
      ap (λ l. push_pairs l st) (reverse-append ((k, v) ∷ []) (to_pairs fs))
      ∙ push_pairs-snoc (reverse (to_pairs fs)) k v st

  emit-IsRound : (item : Item N) (st : List (Item N)) → IsRound item st (emit scalar item st)
  unfolding emit render cost compact rounds
  emit-IsRound (close c) st = record { text = refl; fewer = omega arith }
  emit-IsRound (raw t) st = record { text = refl; fewer = omega arith }
  emit-IsRound (value null) st = record { text = refl; fewer = omega arith }
  emit-IsRound (value (bool b)) st = record { text = refl; fewer = omega arith }
  emit-IsRound (value (num n)) st = record { text = refl; fewer = omega arith }
  emit-IsRound (value (str s)) st = record { text = refl; fewer = omega arith }
  emit-IsRound (value (arr nil)) st = record {
    text = unfold push_items in refl;
    fewer = unfold push_items in omega arith;
  }
  emit-IsRound (value (arr (cons v vs))) st = record {
    text = rw items_round (simp (render-items vs, append_assoc));
    fewer = rw items_round (omega (arith, cost-items vs (close (codes "]") ∷ st)));
  }
  emit-IsRound (value (obj end)) st = record {
    text = unfold push_pairs in refl;
    fewer = unfold push_pairs in omega arith;
  }
  emit-IsRound (value (obj (field k v fs))) st = record {
    text = rw fields_round (simp (render-fields fs, append_assoc));
    fewer = rw fields_round (omega (arith, cost-fields fs (close (codes "}") ∷ st)));
  }

  loop-render :
      (fuel : ℕ) (st : List (Item N)) (out : Text)
      → cost st ≤ fuel
      → loop scalar fuel st out ≡ out ++ render st
  unfolding loop
  loop-render zero [] out h = unfold render in sym (append-nil out)
  loop-render zero (item ∷ st) out h = absurd (omega (arith, (emit-IsRound item st).fewer))
  loop-render (suc fuel) [] out h = unfold render in sym (append-nil out)
  loop-render (suc fuel) (item ∷ st) out h =
      let r = emit-IsRound item st in
      loop-render fuel _ (out ++ (emit scalar item st).0) (omega (arith, r.fewer))
      ∙ append_assoc out _ _
      ∙ ap (λ t. out ++ t) (sym r.text)

  -- The explicit stack writes, for every document, the text of the recursive encoder: the same
  -- brackets, separators and scalars in the same order.
  pub dumps_deep-compact : (v : Json N) → dumps_deep scalar v ≡ compact scalar v
  unfolding dumps_deep
  dumps_deep-compact v =
      loop-render (5 * size v) (value v ∷ []) [] (unfold cost in omega (arith, rounds-le v))
      ∙ (unfold render in append-nil _)
