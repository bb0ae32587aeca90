-- ===== src/Io/Json/Load.antt =====
-- `json_loads`, `load_json`, `load_jsonc`, `iter_jsonl` and `scrape_succeeded` of tools/apm_suite/io.py.
-- `json.loads` is a parameter, none for each of its exceptions. A file is its text, or none if it cannot be read.
use dtd_server_apm.Common.{
  ℕ, ◌&&◌, ◌||◌, ◌==◌, ◌≡◌, ◌≤◌, refl, sym, ◌∙◌, Bool, true, false, List, [], ◌∷◌, Option, none,
  some, Text, arith, codes, any, strip, ◌=?◌, nat_eq, list_eq, if◌then◌else◌,
}
use dtd_server_apm.Common.Dict.{contains}
use dtd_server_apm.Io.Comments.{strip_json_comments}
use dtd_server_apm.Io.Json.{
  Json, Items, Fields, null, bool, num, str, arr, obj, nil, cons, end, field, too_deep,
  max_json_depth,
}
use dtd_server_apm.Io.Json.Depth.{nesting, nesting_items, nesting_fields, too_deep-nesting}
use dtd_server_apm.Io.Json.Surrogates.{
  is_surrogate, sans_surrogates, sans_items, sans_fields, is_encodable,
}

mutual
  unfolding nesting sans_surrogates

  nesting-sans : {N : Type 0} (v : Json N) → nesting (sans_surrogates v) ≡ nesting v
  nesting-sans null = refl
  nesting-sans (bool b) = refl
  nesting-sans (num n) = refl
  nesting-sans (str s) = refl
  nesting-sans (arr vs) = nesting_items-sans vs
  nesting-sans (obj fs) = nesting_fields-sans fs

  nesting_items-sans :
      {N : Type 0} (vs : Items N) → nesting_items (sans_items vs) ≡ nesting_items vs
  nesting_items-sans nil = refl
  nesting_items-sans (cons v vs) = cc (nesting-sans v, nesting_items-sans vs)

  nesting_fields-sans :
      {N : Type 0} (fs : Fields N) → nesting_fields (sans_fields fs) ≡ nesting_fields fs
  nesting_fields-sans end = refl
  nesting_fields-sans (field k v fs) = cc (nesting-sans v, nesting_fields-sans fs)

-- `[0-9a-fA-F]`, `[89abcdefABCDEF]` and `[dD]`.
pub is_hex_digit : ℕ → Bool
is_hex_digit c = contains (codes "0123456789abcdefABCDEF") c

pub is_surrogate_digit : ℕ → Bool
is_surrogate_digit c = contains (codes "89abcdefABCDEF") c

pub escape_here : Text → Bool
unfolding is_hex_digit is_surrogate_digit contains
escape_here (backslash ∷ u ∷ d ∷ h ∷ i ∷ j ∷ text) =
    (backslash == b'\\')
    && ((u == b'u')
        && (contains (codes "dD") d
            && (is_surrogate_digit h && (is_hex_digit i && is_hex_digit j))))
escape_here _ = false

-- `_SURROGATE_ESCAPE.search(text)`.
unfoldable pub has_escape : Text → Bool
unfolding escape_here
has_escape [] = false
has_escape (c ∷ text) = let rest = has_escape text in escape_here (c ∷ text) || rest

module _ {N : Type 0} (loads : Text → Option (Json N)) where
  pub loaded : Text → Option (Json N) → Option (Json N)
  loaded text none = none
  loaded text (some value) =
      if too_deep value
      then none
      else if has_escape text
      then some (sans_surrogates value)
      else some value

  unfoldable pub json_loads : Text → Option (Json N)
  unfolding loaded
  json_loads text = loaded text (loads text)

  unfoldable pub object_of : Option (Json N) → Option (Json N)
  object_of (some (obj fs)) = some (obj fs)
  object_of _ = none

  -- An `OSError` and a `ValueError` are both none here.
  unfoldable pub load_json : Option Text → Option (Json N)
  unfolding json_loads object_of
  load_json none = none
  load_json (some text) = object_of (json_loads text)

  pub load_jsonc : Option Text → Option (Json N)
  unfolding json_loads
  load_jsonc none = none
  load_jsonc (some text) = json_loads (strip_json_comments text)

  -- One line that is not blank.
  pub record_of : Option (Json N) → List (Json N) → List (Json N)
  record_of (some (obj fs)) records = obj fs ∷ records
  record_of _ records = records

  pub iter_jsonl : List Text → List (Json N)
  unfolding json_loads record_of
  iter_jsonl [] = []
  iter_jsonl (line ∷ lines) =
      let records = iter_jsonl lines in
      if strip line =? [] then records else record_of (json_loads line) records

  -- `record.get("ok") is True`; of two assignments the later counts.
  pub get_ok : Bool → Fields N → Bool
  get_ok found end = found
  get_ok found (field k (bool b) fs) = get_ok (if k =? codes "ok" then b else found) fs
  get_ok found (field k v fs) = get_ok (if k =? codes "ok" then false else found) fs

  abbrev pub is_ok : Json N → Bool
  is_ok (obj fs) = get_ok false fs
  is_ok v = false

  pub scrape_succeeded : Option (List Text) → Bool
  unfolding iter_jsonl get_ok
  scrape_succeeded none = true
  scrape_succeeded (some lines) = any is_ok (iter_jsonl lines)

-- What a reader may rely on.
pub record IsClean {N : Type 0} (v : Json N) : Type 0 where
  pub encodable : is_encodable v ≡ true
  pub shallow : nesting v ≤ max_json_depth

-- The predicate on what a reader returns, if it returns.
abbrev Ends {ℓ κ} : {A : Type ℓ} → (A → Type κ) → Option A → Type κ
Ends P none = Unit
Ends P (some x) = P x

module _ {N : Type 0} (loads : Text → Option (Json N))
    (plain_loads : (text : Text) (v : Json N)
      → loads text ≡ some v
      → any is_surrogate text ≡ false
      → has_escape text ≡ false
      → is_encodable v ≡ true) where
  shallow : (v : Json N) → too_deep v ≡ false → nesting v ≤ max_json_depth
  shallow v h = ground (arith, sym (too_deep-nesting v) ∙ h)
