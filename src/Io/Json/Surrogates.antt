-- ===== src/Io/Json/Surrogates.antt =====
-- `_clean_str` and `_sans_surrogates`: every string of a document, keys included, is made encodable.
use dtd_server_apm.Common.{
  ℕ, ◌≡◌, refl, Bool, true, false, not, ◌&&◌, [], ◌∷◌, leb, if◌then◌else◌, Text, arith, all, any,
  ap,
}
use dtd_server_apm.Io.Json.{
  Json, Items, Fields, null, bool, num, str, arr, obj, nil, cons, end, field,
}

-- `_SURROGATE_RE` of one character: U+D800 to U+DFFF.
unfoldable pub is_surrogate : ℕ → Bool
is_surrogate c = leb 0xd800 c && leb c 0xdfff

-- `str.translate(_SURROGATE_MAP)`: U+FFFD for each surrogate.
pub translate : Text → Text
unfolding is_surrogate
translate [] = []
translate (c ∷ s) = (if is_surrogate c then 0xfffd else c) ∷ translate s

unfoldable pub clean_str : Text → Text
unfolding translate
clean_str s = if any is_surrogate s then translate s else s

unfoldable mutual
  pub sans_surrogates : {N : Type 0} → Json N → Json N
  sans_surrogates null = null
  sans_surrogates (bool b) = bool b
  sans_surrogates (num n) = num n
  sans_surrogates (str s) = str (clean_str s)
  sans_surrogates (arr vs) = arr (sans_items vs)
  sans_surrogates (obj fs) = obj (sans_fields fs)

  pub sans_items : {N : Type 0} → Items N → Items N
  sans_items nil = nil
  sans_items (cons v vs) = cons (sans_surrogates v) (sans_items vs)

  pub sans_fields : {N : Type 0} → Fields N → Fields N
  sans_fields end = end
  sans_fields (field k v fs) = field (clean_str k) (sans_surrogates v) (sans_fields fs)

-- A text that UTF-8 can encode: no surrogate in it.
abbrev pub encodable : Text → Bool
encodable = all (λ c. not (is_surrogate c))

unfoldable mutual
  pub is_encodable : {N : Type 0} → Json N → Bool
  is_encodable null = true
  is_encodable (bool b) = true
  is_encodable (num n) = true
  is_encodable (str s) = encodable s
  is_encodable (arr vs) = encodable_items vs
  is_encodable (obj fs) = encodable_fields fs

  pub encodable_items : {N : Type 0} → Items N → Bool
  encodable_items nil = true
  encodable_items (cons v vs) = is_encodable v && encodable_items vs

  pub encodable_fields : {N : Type 0} → Fields N → Bool
  encodable_fields end = true
  encodable_fields (field k v fs) = encodable k && (is_encodable v && encodable_fields fs)

encodable-translate : (s : Text) → encodable (translate s) ≡ true
unfolding translate
encodable-translate [] = refl
encodable-translate (c ∷ s) = ground (arith, encodable-translate s)

encodable_of_none : (s : Text) → any is_surrogate s ≡ false → encodable s ≡ true
encodable_of_none [] h = refl
encodable_of_none (c ∷ s) h = ground (arith, encodable_of_none s)

encodable-clean_str : (s : Text) → encodable (clean_str s) ≡ true
unfolding clean_str
encodable-clean_str s = ground (arith, encodable-translate s, encodable_of_none s)

any_of_encodable : (s : Text) → encodable s ≡ true → any is_surrogate s ≡ false
any_of_encodable [] h = refl
any_of_encodable (c ∷ s) h = ground (arith, any_of_encodable s)

clean_str_id : (s : Text) → encodable s ≡ true → clean_str s ≡ s
unfolding clean_str
clean_str_id s h = rw (any_of_encodable s h)

mutual
  unfolding sans_surrogates is_encodable

  scrubbed : {N : Type 0} (v : Json N) → is_encodable (sans_surrogates v) ≡ true
  scrubbed null = refl
  scrubbed (bool b) = refl
  scrubbed (num n) = refl
  scrubbed (str s) = encodable-clean_str s
  scrubbed (arr vs) = scrubbed_items vs
  scrubbed (obj fs) = scrubbed_fields fs

  scrubbed_items : {N : Type 0} (vs : Items N) → encodable_items (sans_items vs) ≡ true
  scrubbed_items nil = refl
  scrubbed_items (cons v vs) = ground (arith, scrubbed v, scrubbed_items vs)

  scrubbed_fields : {N : Type 0} (fs : Fields N) → encodable_fields (sans_fields fs) ≡ true
  scrubbed_fields end = refl
  scrubbed_fields (field k v fs) =
      ground (arith, encodable-clean_str k, scrubbed v, scrubbed_fields fs)

mutual
  unfolding sans_surrogates is_encodable

  unchanged : {N : Type 0} (v : Json N) → is_encodable v ≡ true → sans_surrogates v ≡ v
  unchanged null h = refl
  unchanged (bool b) h = refl
  unchanged (num n) h = refl
  unchanged (str s) h = ap str (clean_str_id s h)
  unchanged (arr vs) h = ap arr (unchanged_items vs h)
  unchanged (obj fs) h = ap obj (unchanged_fields fs h)

  unchanged_items : {N : Type 0} (vs : Items N) → encodable_items vs ≡ true → sans_items vs ≡ vs
  unchanged_items nil h = refl
  unchanged_items (cons v vs) h = ground (arith, unchanged v, unchanged_items vs)

  unchanged_fields : {N : Type 0} (fs : Fields N) → encodable_fields fs ≡ true → sans_fields fs ≡ fs
  unchanged_fields end h = refl
  unchanged_fields (field k v fs) h =
      ground (arith, clean_str_id k, unchanged v, unchanged_fields fs)

-- The scrub leaves no lone surrogate in any key or string, and changes nothing in a document that
-- had none.
pub sans_surrogates-encodable :
    {N : Type 0} (v : Json N)
    → (is_encodable (sans_surrogates v) ≡ true) × (is_encodable v ≡ true → sans_surrogates v ≡ v)
sans_surrogates-encodable v = (scrubbed v, unchanged v)
