-- ===== src/Models.antt =====
-- The readers of unvalidated documents in tools/apm_suite/models.py, over decoded JSON. A Python float is
-- a parameter with the operations that the tools use on it.
pub mod Numbers
use dtd_server_apm.Common.{
  ℕ, Bool, true, false, not, ◌&&◌, List, [], ◌∷◌, Option, none, some, Text, codes, ◌=?◌, nat_eq,
  list_eq, if◌then◌else◌,
}
use dtd_server_apm.Common.Dict.{insert}
use dtd_server_apm.Io.Json.{
  Json, Items, Fields, null, bool, num, str, arr, obj, nil, cons, end, field, to_list,
}
use dtd_server_apm.Models.Numbers.{Floats}

module _ {N : Type 0} where
  -- `mapping.get(key, default)`; of two assignments to a key the later counts.
  unfoldable pub get_or : Json N → Fields N → Text → Json N
  get_or default end key = default
  get_or default (field k v fs) key = get_or (if k =? key then v else default) fs key

  abbrev pub get : Fields N → Text → Json N
  get fs key = get_or null fs key

  abbrev pub as_mapping : Json N → Fields N
  as_mapping (obj fs) = fs
  as_mapping _ = end

  unfoldable pub objects : List (Json N) → List (Fields N)
  objects [] = []
  objects (obj fs ∷ vs) = fs ∷ objects vs
  objects (v ∷ vs) = objects vs

  unfoldable pub object_list : Json N → List (Fields N)
  unfolding objects
  object_list (arr vs) = objects (to_list vs)
  object_list v = []

  -- A value that is missing or `null`.
  abbrev pub is_null : Json N → Bool
  is_null null = true
  is_null _ = false

  -- `str(layer.get("state", "collected")) == "collected"`: of the values only a string prints so.
  unfoldable pub layer_is_collected : Fields N → Bool
  unfolding get_or
  layer_is_collected layer = elim (get_or (str (codes "collected")) layer (codes "state")) [
    | str s ↦ s =? codes "collected"
    | v ↦ false
  ]

  layer_signals_in : List (Fields N) → (Json N → Bool) → Fields N
  layer_signals_in [] is_name = end
  layer_signals_in (layer ∷ layers) is_name =
      let rest = layer_signals_in layers is_name in
      if is_name (get layer (codes "layer")) then as_mapping (get layer (codes "signals")) else rest

  abbrev is_text : Text → Json N → Bool
  is_text name (str s) = s =? name
  is_text name _ = false

  unfoldable pub layer_signals : Fields N → Text → Fields N
  unfolding layer_signals_in object_list
  layer_signals summary name =
      layer_signals_in (object_list (get summary (codes "layers"))) (is_text name)

module _ {N F : Type 0} (fl : Floats N F) where
  open fl use {of_num, parse, is_finite, is_true, show, zero_float, lt}

  -- `number if math.isfinite(number) else None` of what `float` returned.
  abbrev pub finite : Option F → Option F
  finite none = none
  finite (some x) = if is_finite x then some x else none

  unfoldable pub as_number : Json N → Option F
  as_number (num n) = finite (of_num n)
  as_number (str s) = finite (parse s)
  as_number _ = none

  -- `as_number(value) or 0.0`.
  abbrev pub or_zero : Option F → F
  or_zero none = zero_float
  or_zero (some x) = if is_true x then x else zero_float

  unfoldable pub first_number : List (Json N) → Option F
  unfolding as_number
  first_number [] = none
  first_number (v ∷ vs) =
      let rest = first_number vs in elim (as_number v) [ some x ↦ some x | none ↦ rest ]

  unfoldable pub first_present : List (Json N) → F
  unfolding first_number
  first_present vs = or_zero (first_number vs)

  -- `bool(value)` and `str(value)`.
  abbrev pub truthy : Json N → Bool
  truthy null = false
  truthy (bool b) = b
  truthy (num n) = fl.is_true_num n
  truthy (str []) = false
  truthy (str (c ∷ s)) = true
  truthy (arr nil) = false
  truthy (arr (cons v vs)) = true
  truthy (obj end) = false
  truthy (obj (field k v fs)) = true

  abbrev pub text_of : Json N → Text
  text_of (str s) = s
  text_of v = show v

  unfoldable pub observed_or : F → Option F → F
  observed_or requested none = requested
  observed_or requested (some observed) =
      if lt zero_float observed && lt observed requested then observed else requested

  unfoldable pub effective_seconds : Fields N → F
  unfolding as_number get_or observed_or
  effective_seconds meta =
      observed_or (or_zero (as_number (get meta (codes "seconds"))))
        (as_number (get meta (codes "observed_seconds")))

  -- One entry of the loop: it adds its score where it has a name and a number.
  unfoldable pub score_into : Fields N → Option F → List (Text × F) → List (Text × F)
  unfolding get_or
  score_into layer none out = out
  score_into layer (some pressure) out =
      if truthy (get layer (codes "layer")) && layer_is_collected layer
      then insert (text_of (get layer (codes "layer"))) pressure out
      else out

  unfoldable pub scores_from : List (Text × F) → List (Fields N) → List (Text × F)
  unfolding score_into as_number
  scores_from out [] = out
  scores_from out (layer ∷ layers) =
      scores_from (score_into layer (as_number (get layer (codes "score"))) out) layers

  unfoldable pub collected_layer_scores : Fields N → List (Text × F)
  unfolding scores_from object_list
  collected_layer_scores summary = scores_from [] (object_list (get summary (codes "layers")))
