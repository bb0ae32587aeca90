-- ===== src/Io/Json/Depth.antt =====
-- The worklist of `_too_deep` computes the recursive depth.
use dtd_server_apm.Common.{
  ℕ, zero, suc, ◌+◌, ◌≤◌, ◌≡◌, refl, Bool, false, ◌||◌, List, [], ◌∷◌, ltb, arith, max,
}
use dtd_server_apm.Io.Json.{
  Json, Items, Fields, null, bool, num, str, arr, obj, nil, cons, end, field, to_list, values,
  children, max_json_depth, extend, too_deep_loop, too_deep, size, size_items, size_fields,
}

-- How many containers a document nests around its deepest node: 0 for a scalar or an empty one.
unfoldable mutual
  pub nesting : {N : Type 0} → Json N → ℕ
  nesting null = 0
  nesting (bool b) = 0
  nesting (num n) = 0
  nesting (str s) = 0
  nesting (arr vs) = nesting_items vs
  nesting (obj fs) = nesting_fields fs

  pub nesting_items : {N : Type 0} → Items N → ℕ
  nesting_items nil = 0
  nesting_items (cons v vs) = max (suc (nesting v)) (nesting_items vs)

  pub nesting_fields : {N : Type 0} → Fields N → ℕ
  nesting_fields end = 0
  nesting_fields (field k v fs) = max (suc (nesting v)) (nesting_fields fs)

module _ {N : Type 0} where
  -- Some pending node lies, or holds a node, below the limit.
  exceeds : List (Json N × ℕ) → Bool
  exceeds [] = false
  exceeds ((v, d) ∷ rest) = ltb max_json_depth (d + nesting v) || exceeds rest

  weight : List (Json N × ℕ) → ℕ
  weight [] = 0
  weight ((v, d) ∷ rest) = size v + weight rest

  -- The same of the nodes of a list, at one depth.
  some_deep : ℕ → List (Json N) → Bool
  some_deep d [] = false
  some_deep d (v ∷ vs) = ltb max_json_depth (d + nesting v) || some_deep d vs

  total : List (Json N) → ℕ
  total [] = 0
  total (v ∷ vs) = size v + total vs

  exceeds-extend :
      (d : ℕ) (vs : List (Json N)) (p : List (Json N × ℕ))
      → exceeds (extend d vs p) ≡ some_deep d vs || exceeds p
  unfolding extend exceeds some_deep
  exceeds-extend d [] p = refl
  exceeds-extend d (v ∷ vs) p = ground (arith, exceeds-extend d vs ((v, d) ∷ p))

  weight-extend :
      (d : ℕ) (vs : List (Json N)) (p : List (Json N × ℕ))
      → weight (extend d vs p) ≡ total vs + weight p
  unfolding extend weight total
  weight-extend d [] p = omega arith
  weight-extend d (v ∷ vs) p = omega (arith, weight-extend d vs ((v, d) ∷ p))

  total-items : (vs : Items N) → total (to_list vs) ≡ size_items vs
  unfolding total size
  total-items nil = refl
  total-items (cons v vs) = omega (arith, total-items vs)

  total-fields : (fs : Fields N) → total (values fs) ≡ size_fields fs
  unfolding total size
  total-fields end = refl
  total-fields (field k v fs) = omega (arith, total-fields fs)

  total-children : (v : Json N) → size v ≡ suc (total (children v))
  unfolding size total
  total-children (arr vs) = omega (arith, total-items vs)
  total-children (obj fs) = omega (arith, total-fields fs)
  total-children _ = refl

  deep-items :
      (d : ℕ) (vs : Items N)
      → ltb max_json_depth d ≡ false
      → some_deep (suc d) (to_list vs) ≡ ltb max_json_depth (d + nesting_items vs)
  unfolding some_deep nesting
  deep-items d nil h = ground arith
  deep-items d (cons v vs) h = ground (arith, deep-items d vs h)

  deep-fields :
      (d : ℕ) (fs : Fields N)
      → ltb max_json_depth d ≡ false
      → some_deep (suc d) (values fs) ≡ ltb max_json_depth (d + nesting_fields fs)
  unfolding some_deep nesting
  deep-fields d end h = ground arith
  deep-fields d (field k v fs) h = ground (arith, deep-fields d fs h)

  deep-children :
      (d : ℕ) (v : Json N)
      → ltb max_json_depth d ≡ false
      → some_deep (suc d) (children v) ≡ ltb max_json_depth (d + nesting v)
  unfolding some_deep nesting
  deep-children d (arr vs) h = deep-items d vs h
  deep-children d (obj fs) h = deep-fields d fs h
  deep-children d _ h = ground arith

  loop-exceeds :
      (fuel : ℕ) (p : List (Json N × ℕ)) → weight p ≤ fuel → too_deep_loop fuel p ≡ exceeds p
  unfolding too_deep_loop exceeds weight
  loop-exceeds zero [] h = refl
  loop-exceeds zero ((v, d) ∷ p) h = absurd (omega (arith, total-children v))
  loop-exceeds (suc fuel) [] h = refl
  loop-exceeds (suc fuel) ((v, d) ∷ p) h = ground (
    arith,
    loop-exceeds fuel (extend (d + 1) (children v) p),
    weight-extend (d + 1) (children v) p,
    exceeds-extend (d + 1) (children v) p,
    total-children v,
    deep-children d v,
  )

  -- The iterative check answers exactly whether the document nests deeper than the limit.
  pub too_deep-nesting : (value : Json N) → too_deep value ≡ ltb max_json_depth (nesting value)
  unfolding too_deep exceeds weight
  too_deep-nesting value = ground (arith, loop-exceeds (size value) ((value, 0) ∷ []))
