-- ===== src/Budget/Bounds.antt =====
-- What a pass guarantees of the layers.
use dtd_server_apm.Common.{
  ◌≡◌, refl, true, false, List, [], ◌∷◌, Option, none, some, Text, codes, All, Bool-cases, inl, inr,
  nat_eq, list_eq,
}
use dtd_server_apm.Common.Dict.{lookup}
use dtd_server_apm.Io.Json.{Json, Fields, to_pairs}
use dtd_server_apm.Models.{get, as_mapping, as_number, collected_layer_scores}
use dtd_server_apm.Models.Numbers.{Floats}
use dtd_server_apm.Budget.{Label, Report, gate_at, gate, gate_layer, gate_layers, check}
use dtd_server_apm.Budget.Verdict.{gate_layers-IsStep, check-IsStep, empty_report}

module _ {N F : Type 0} (fl : Floats N F) where
  -- The layer of a row has a score, the limit is a number, and the score is not above it.
  pub record IsWithin (layers : List (Text × F)) (row : Text × Json N) : Type 0 where
    pub score : F
    pub bound : F
    pub has_score : lookup row.0 layers ≡ some score
    pub parsed : as_number fl row.1 ≡ some bound
    pub not_above : fl.lt bound score ≡ false

  passed_gate :
      (label : Label) (value : F) (limit : Option F) (r : Report F)
      → (gate_at fl label value limit r).ok ≡ true
      → (bound : F) × (limit ≡ some bound) × (fl.lt bound value ≡ false)
  unfolding gate_at
  passed_gate label value none r h = absurd (cc h)
  passed_gate label value (some bound) r h = elim (Bool-cases (fl.lt bound value)) [
    | inl e ↦ absurd (let q = rw e at h in cc q)
    | inr e ↦ (bound, refl, e)
  ]

  passed_layer :
      (layers : List (Text × F)) (name : Text) (limit : Json N) (score : Option F) (r : Report F)
      → lookup name layers ≡ score
      → (gate_layer fl name limit score r).ok ≡ true
      → IsWithin layers (name, limit)
  unfolding gate_layer gate
  passed_layer layers name limit none r e h = absurd (cc h)
  passed_layer layers name limit (some value) r e h =
      let (bound, p, q) = passed_gate _ value (as_number fl limit) r h in
      record { score = value; bound = bound; has_score = e; parsed = p; not_above = q }

  passed_layers :
      (layers : List (Text × F)) (rows : List (Text × Json N)) (r : Report F)
      → (gate_layers fl layers rows r).ok ≡ true
      → All (IsWithin layers) rows
  unfolding gate_layers
  passed_layers layers [] r h = tt
  passed_layers layers ((name, limit) ∷ rows) r h =
      let r' : Report F = gate_layer fl name limit (lookup name layers) r in
      (
        passed_layer layers name limit (lookup name layers) r refl
            ((gate_layers-IsStep fl layers rows r').latched h),
        passed_layers layers rows r' h,
      )

  -- The gate fails closed: where a check passes, every layer of the budget has a collected score, its
  -- limit is a number, and the score is not above it.
  pub check-passed :
      (summary : Fields N) (sections : List (Text × F)) (budget : Fields N)
      (baseline : Option (List (Text × F))) (max_regression : F)
      → (check fl summary sections budget baseline max_regression).ok ≡ true
      → All
          (IsWithin (collected_layer_scores fl summary))
          (to_pairs (as_mapping (get budget (codes "max_layer_scores"))))
  check-passed summary sections budget baseline max_regression h =
      passed_layers (collected_layer_scores fl summary) _ (empty_report fl)
        ((check-IsStep fl summary sections budget baseline max_regression).latched h)
