-- ===== src/Io/Json.antt =====
-- Decoded JSON documents, and the depth check and the surrogate scrub of tools/apm_suite/io.py that
-- `json_loads` applies to them. What a JSON number decodes to is a parameter `N`: the documents are
-- walked and never computed with.
pub mod Depth
pub mod Surrogates
pub mod Load
use dtd_server_apm.Common.{
  ℕ, zero, suc, ◌+◌, ◌*◌, Bool, true, false, ◌&&◌, List, [], ◌∷◌, ◌++◌, ltb, leb, if◌then◌else◌,
  Text, map, max,
}

-- `Json` is `Any` of the source after `json.loads`. An object is the list of its assignments in order; of
-- two assignments to one key the later counts, and `json.loads` leaves one for each key.
mutual
  pub data Json (N : Type 0) : Type 0 where
    null : Json N
    bool : Bool → Json N
    num : N → Json N
    str : Text → Json N
    arr : Items N → Json N
    obj : Fields N → Json N

  pub data Items (N : Type 0) : Type 0 where
    nil : Items N
    cons : Json N → Items N → Items N

  pub data Fields (N : Type 0) : Type 0 where
    end : Fields N
    field : Text → Json N → Fields N → Fields N

module _ {N : Type 0} where
  -- A list of a document, and the values of an object.
  abbrev pub to_list : Items N → List (Json N)
  to_list nil = []
  to_list (cons v vs) = v ∷ to_list vs

  abbrev pub values : Fields N → List (Json N)
  values end = []
  values (field k v fs) = v ∷ values fs

  abbrev pub to_pairs : Fields N → List (Text × Json N)
  to_pairs end = []
  to_pairs (field k v fs) = (k, v) ∷ to_pairs fs

  -- What `json_loads` looks into below one node.
  abbrev pub children : Json N → List (Json N)
  children (arr vs) = to_list vs
  children (obj fs) = values fs
  children _ = []

abbrev pub max_json_depth : ℕ
max_json_depth = 200

-- `pending.extend((item, depth + 1) for item in ...)`; the head of the list is the end that `pop` takes.
pub extend {ℓ} : {A : Type ℓ} → ℕ → List A → List (A × ℕ) → List (A × ℕ)
extend depth [] pending = pending
extend depth (v ∷ vs) pending = extend depth vs ((v, depth) ∷ pending)

module _ {N : Type 0} where
  -- The loop of `_too_deep`. Each round pops one node, so the number of nodes is enough fuel.
  pub too_deep_loop : ℕ → List (Json N × ℕ) → Bool
  unfolding extend
  too_deep_loop zero pending = false
  too_deep_loop (suc fuel) [] = false
  too_deep_loop (suc fuel) ((node, depth) ∷ pending) =
      let rest = too_deep_loop fuel (extend (depth + 1) (children node) pending) in
      if ltb max_json_depth depth then true else rest

-- The nodes of a document.
unfoldable mutual
  pub size : {N : Type 0} → Json N → ℕ
  size null = 1
  size (bool b) = 1
  size (num n) = 1
  size (str s) = 1
  size (arr vs) = suc (size_items vs)
  size (obj fs) = suc (size_fields fs)

  pub size_items : {N : Type 0} → Items N → ℕ
  size_items nil = 0
  size_items (cons v vs) = size v + size_items vs

  pub size_fields : {N : Type 0} → Fields N → ℕ
  size_fields end = 0
  size_fields (field k v fs) = size v + size_fields fs

module _ {N : Type 0} where
  unfoldable pub too_deep : Json N → Bool
  unfolding too_deep_loop size
  too_deep value = too_deep_loop (size value) ((value, 0) ∷ [])
