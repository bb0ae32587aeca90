-- ===== src/Finalize.antt =====
-- `finalize` of tools/apm_suite/finalize.py. A stage's action is a parameter: it leaves a state behind
-- and raises or not. Printing and the console hints are left out.
pub mod Exit
use dtd_server_apm.Common.{
  ℕ, Bool, true, false, not, ◌&&◌, List, [], ◌∷◌, ◌++◌, Option, none, some, Text, codes,
  if◌then◌else◌,
}

pub record FinalizeResult : Type 0 where
  pub failed_stages : List Text
  pub audit_valid : Option Bool

abbrev no_result : FinalizeResult
no_result = record { failed_stages = []; audit_valid = none }

pub exit_code : FinalizeResult → ℕ
exit_code r = elim r.failed_stages [ [] ↦ 0 | name ∷ names ↦ 1 ]

-- The state that an action leaves, and whether it raised.
abbrev pub Action : Type 0 → Type 0
Action S = S → S × Bool

-- What the stages call; the audit returns its verdict, or none if it raised.
pub record Actions (S : Type 0) : Type 0 where
  pub annotate_session : Action S
  pub build_summary : Action S
  pub build_health : Action S
  pub build_events : Action S
  pub analyze : Action S
  pub check_budget : Action S
  pub render_session : Action S
  pub record_manifest : S → S × Option Bool
  pub write_index : Action S

module _ {S : Type 0} where
  -- `stage`: an exception does not stop the rest, and is recorded where the stage is required.
  pub stage : Text → Action S → Bool → S × FinalizeResult → S × FinalizeResult
  stage name action required (s, r) =
      let (s', raised) = action s in
      (
        s',
        if raised && required then record r { failed_stages = r.failed_stages ++ name ∷ [] } else r,
      )

  -- The stage of the manifest, which also leaves its verdict.
  pub manifest_stage : (S → S × Option Bool) → S × FinalizeResult → S × FinalizeResult
  manifest_stage action (s, r) =
      let (s', verdict) = action s in
      (
        s',
        elim verdict [
          | none ↦ record r { failed_stages = r.failed_stages ++ codes "manifest" ∷ [] }
          | some valid ↦ record r { audit_valid = some valid }
        ],
      )

  pub bridge_stage : Bool → Action S → S × FinalizeResult → S × FinalizeResult
  unfolding stage
  bridge_stage skip_bridge analyze w =
      if skip_bridge then w else stage (codes "bridge") analyze false w

  pub finalize : Actions S → Bool → S → S × FinalizeResult
  finalize a skip_bridge s =
      let w1 = stage (codes "jitsym") a.annotate_session false (s, no_result) in
      let w2 = stage (codes "summary") a.build_summary true w1 in
      let w3 = stage (codes "health") a.build_health true w2 in
      let w4 = stage (codes "events") a.build_events true w3 in
      let w5 = bridge_stage skip_bridge a.analyze w4 in
      let w6 = stage (codes "budget") a.check_budget false w5 in
      let w7 = stage (codes "render") a.render_session true w6 in
      let w8 = manifest_stage a.record_manifest w7 in stage (codes "index") a.write_index false w8
