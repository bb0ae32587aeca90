-- ===== src/Finalize/Exit.antt =====
-- What a finalization reports.
use dtd_server_apm.Common.{
  ◌≡◌, refl, ap, sym, ◌∙◌, Bool, true, false, ◌&&◌, List, [], ◌∷◌, ◌++◌, Option, none, some, Text,
  codes, if◌then◌else◌, append_assoc, append-nil,
}
use dtd_server_apm.Finalize.{
  FinalizeResult, Action, Actions, stage, manifest_stage, bridge_stage, finalize,
}

abbrev pub is_none {ℓ} : {A : Type ℓ} → Option A → Bool
is_none none = true
is_none (some x) = false

-- The name of a stage that failed.
abbrev pub failure : Text → Bool → List Text
failure name failed = if failed then name ∷ [] else []

abbrev verdict_or : Option Bool → Option Bool → Option Bool
verdict_or none old = old
verdict_or (some v) old = some v

verdict_or-none : (v : Option Bool) → verdict_or v none ≡ v
verdict_or-none none = refl
verdict_or-none (some v) = refl

-- Five reports, each behind the one before it, in a row.
in_a_row :
    (a b c d e : List Text) {r1 r2 r3 r4 r5 : List Text}
    → r1 ≡ a
    → r2 ≡ r1 ++ b
    → r3 ≡ r2 ++ c
    → r4 ≡ r3 ++ d
    → r5 ≡ r4 ++ e
    → r5 ≡ a ++ (b ++ (c ++ (d ++ e)))
in_a_row a b c d e p1 p2 p3 p4 p5 =
    p5
    ∙ ap (λ l. l ++ e) (p4 ∙ ap (λ l. l ++ d) (p3 ∙ ap (λ l. l ++ c) (p2 ∙ ap (λ l. l ++ b) p1)))
    ∙ append_assoc ((a ++ b) ++ c) d e
    ∙ append_assoc (a ++ b) c (d ++ e)
    ∙ append_assoc a b (c ++ (d ++ e))

module _ {S : Type 0} where
  -- The state in front of each required stage: every stage before it has run, whatever it raised.
  abbrev pub at_summary : Actions S → S → S
  at_summary a s = (a.annotate_session s).0

  abbrev pub at_health : Actions S → S → S
  at_health a s = (a.build_summary (at_summary a s)).0

  abbrev pub at_events : Actions S → S → S
  at_events a s = (a.build_health (at_health a s)).0

  abbrev pub at_bridge : Actions S → S → S
  at_bridge a s = (a.build_events (at_events a s)).0

  abbrev pub at_budget : Actions S → Bool → S → S
  at_budget a skip_bridge s = if skip_bridge then at_bridge a s else (a.analyze (at_bridge a s)).0

  abbrev pub at_render : Actions S → Bool → S → S
  at_render a skip_bridge s = (a.check_budget (at_budget a skip_bridge s)).0

  abbrev pub at_manifest : Actions S → Bool → S → S
  at_manifest a skip_bridge s = (a.render_session (at_render a skip_bridge s)).0

  stage-required :
      (name : Text) (action : Action S) (s : S) (r : FinalizeResult)
      → ((stage name action true (s, r)).1.failed_stages
          ≡ r.failed_stages ++ failure name (action s).1)
        × ((stage name action true (s, r)).1.audit_valid ≡ r.audit_valid)
  unfolding stage
  stage-required name action s r = go (action s).1
    where
      go :
          (raised : Bool)
          → ((if raised && true
                then record r { failed_stages = r.failed_stages ++ name ∷ [] }
                else r).failed_stages
              ≡ r.failed_stages ++ failure name raised)
            × ((if raised && true
                  then record r { failed_stages = r.failed_stages ++ name ∷ [] }
                  else r).audit_valid
                ≡ r.audit_valid)
      go true = (refl, refl)
      go false = (sym (append-nil r.failed_stages), refl)

  stage-optional :
      (name : Text) (action : Action S) (s : S) (r : FinalizeResult)
      → stage name action false (s, r) ≡ ((action s).0, r)
  unfolding stage
  stage-optional name action s r = ap (λ q. ((action s).0, q)) (go (action s).1)
    where
      go :
          (raised : Bool)
          → (if raised && false
              then record r { failed_stages = r.failed_stages ++ name ∷ [] }
              else r)
            ≡ r
      go true = refl
      go false = refl

  bridge_stage-skips :
      (skip_bridge : Bool) (analyze : Action S) (s : S) (r : FinalizeResult)
      → bridge_stage skip_bridge analyze (s, r) ≡ ((if skip_bridge then s else (analyze s).0), r)
  unfolding bridge_stage
  bridge_stage-skips true analyze s r = refl
  bridge_stage-skips false analyze s r = stage-optional (codes "bridge") analyze s r

  manifest_stage-verdict :
      (action : S → S × Option Bool) (s : S) (r : FinalizeResult)
      → ((manifest_stage action (s, r)).1.failed_stages
          ≡ r.failed_stages ++ failure (codes "manifest") (is_none (action s).1))
        × ((manifest_stage action (s, r)).1.audit_valid ≡ verdict_or (action s).1 r.audit_valid)
  unfolding manifest_stage
  manifest_stage-verdict action s r = go (action s).1
    where
      leave : Option Bool → FinalizeResult
      leave verdict = elim verdict [
        | none ↦ record r { failed_stages = r.failed_stages ++ codes "manifest" ∷ [] }
        | some valid ↦ record r { audit_valid = some valid }
      ]

      go :
          (verdict : Option Bool)
          → ((leave verdict).failed_stages
              ≡ r.failed_stages ++ failure (codes "manifest") (is_none verdict))
            × ((leave verdict).audit_valid ≡ verdict_or verdict r.audit_valid)
      go none = (refl, refl)
      go (some v) = (sym (append-nil r.failed_stages), refl)

  -- The required stages up to the events, each with its state and what was reported before it.
  after_events : Actions S → S → S × FinalizeResult
  after_events a s = stage (codes "events") a.build_events true (
      stage (codes "health") a.build_health true (
        stage (codes "summary") a.build_summary true
          (at_summary a s, record { failed_stages = []; audit_valid = none })))

  after_render : Actions S → Bool → S → S × FinalizeResult
  unfolding after_events
  after_render a skip_bridge s =
      stage (codes "render") a.render_session true (at_render a skip_bridge s, (after_events a s).1)

  finalize-after_render :
      (a : Actions S) (skip_bridge : Bool) (s : S)
      → (finalize a skip_bridge s).1
        ≡ (manifest_stage a.record_manifest (after_render a skip_bridge s)).1
  unfolding finalize after_events after_render stage
  finalize-after_render a skip_bridge s =
      let budget : S × FinalizeResult → S × FinalizeResult =
        stage (codes "budget") a.check_budget false in
      let ending : S × FinalizeResult → S × FinalizeResult =
        λ w. manifest_stage a.record_manifest (stage (codes "render") a.render_session true w) in
      let index : S × FinalizeResult → S × FinalizeResult =
        stage (codes "index") a.write_index false in
      let first : S × FinalizeResult → S × FinalizeResult = λ w.
        stage (codes "events") a.build_events true (
          stage (codes "health") a.build_health true
            (stage (codes "summary") a.build_summary true w)) in
      let r = (after_events a s).1 in
      ap (λ w. (index (ending (budget (bridge_stage skip_bridge a.analyze (first w))))).1)
        (stage-optional (codes "jitsym") a.annotate_session s
          (record { failed_stages = []; audit_valid = none }))
      ∙ ap (λ w. (index (ending (budget w))).1)
          (bridge_stage-skips skip_bridge a.analyze (at_bridge a s) r)
      ∙ ap (λ w. (index (ending w)).1)
          (stage-optional (codes "budget") a.check_budget (at_budget a skip_bridge s) r)
      ∙ ap (λ w. w.1)
          (stage-optional (codes "index") a.write_index
            (manifest_stage a.record_manifest (after_render a skip_bridge s)).0
            (manifest_stage a.record_manifest (after_render a skip_bridge s)).1)

  -- The failed stages are exactly the required ones that raised, in the order in which they run, each
  -- on the state that all the stages before it left, failed or not; and the verdict is the audit's.
  pub finalize-reports :
      (a : Actions S) (skip_bridge : Bool) (s : S)
      → ((finalize a skip_bridge s).1.failed_stages
          ≡ failure (codes "summary") (a.build_summary (at_summary a s)).1
            ++ (failure (codes "health") (a.build_health (at_health a s)).1
                ++ (failure (codes "events") (a.build_events (at_events a s)).1
                    ++ (failure (codes "render") (a.render_session (at_render a skip_bridge s)).1
                        ++ failure
                            (codes "manifest")
                            (is_none (a.record_manifest (at_manifest a skip_bridge s)).1)))))
        × ((finalize a skip_bridge s).1.audit_valid
            ≡ (a.record_manifest (at_manifest a skip_bridge s)).1)
  unfolding stage after_events after_render
  finalize-reports a skip_bridge s =
      let w0 : FinalizeResult = record { failed_stages = []; audit_valid = none } in
      let w1 = stage (codes "summary") a.build_summary true (at_summary a s, w0) in
      let w2 = stage (codes "health") a.build_health true (at_health a s, w1.1) in
      let w3 = stage (codes "events") a.build_events true (at_events a s, w2.1) in
      let w4 = stage (codes "render") a.render_session true (at_render a skip_bridge s, w3.1) in
      let summary = stage-required (codes "summary") a.build_summary (at_summary a s) w0 in
      let health = stage-required (codes "health") a.build_health (at_health a s) w1.1 in
      let events = stage-required (codes "events") a.build_events (at_events a s) w2.1 in
      let render =
        stage-required (codes "render") a.render_session (at_render a skip_bridge s) w3.1 in
      let manifest = manifest_stage-verdict a.record_manifest (at_manifest a skip_bridge s) w4.1 in
      let all_stages = finalize-after_render a skip_bridge s in
      (
        in_a_row (failure (codes "summary") (a.build_summary (at_summary a s)).1)
            (failure (codes "health") (a.build_health (at_health a s)).1)
            (failure (codes "events") (a.build_events (at_events a s)).1)
            (failure (codes "render") (a.render_session (at_render a skip_bridge s)).1)
            (failure (codes "manifest")
              (is_none (a.record_manifest (at_manifest a skip_bridge s)).1))
            summary.0 health.0 events.0 render.0
            (ap (λ r. r.failed_stages) all_stages ∙ manifest.0),
        ap (λ r. r.audit_valid) all_stages
            ∙ manifest.1
            ∙ ap (verdict_or _) (render.1 ∙ events.1 ∙ health.1 ∙ summary.1)
            ∙ verdict_or-none _,
      )
