-- ===== src/Prometheus/Exposition.antt =====
-- Every sample stands on a line of its own.
use dtd_server_apm.Common.{
  ℕ, ◌≡◌, ◌≢◌, refl, Bool, true, false, not, List, [], ◌∷◌, ◌++◌, Option, none, some, Text, codes,
  All, All-append, Lacks, all, arith, ◌==◌, ==_iff, if◌then◌else◌, if_cases, and-true,
}
use dtd_server_apm.Io.Json.{Json, Fields, end, field}
use dtd_server_apm.Models.{get, truthy, is_null, layer_is_collected, as_mapping}
use dtd_server_apm.Models.Numbers.{Floats}
use dtd_server_apm.Prometheus.{
  replace_with, prom_label, sample, layer_line, layer_lines, gauge, subsystem_line, subsystem_rows,
  subsystem_lines, cause_rows, cause_lines, lag_lines, pause_lines, lines_of, with_bridge,
  with_health, export_metrics, Document, absent, unreadable, readable, Exported, failed, exported,
}

-- A text without a line break.
pub record IsLine (s : Text) : Type 0 where
  pub lacks : Lacks 0x0a s

pub record AreLines (lines : List Text) : Type 0 where
  pub each : All IsLine lines

constant : (s : Text) → all (λ c. not (c == 0x0a)) s ≡ true → IsLine s
constant s h = record { lacks = go s h }
  where
    go : (s : Text) → all (λ c. not (c == 0x0a)) s ≡ true → Lacks 0x0a s
    go [] h = tt
    go (c ∷ s) h =
        let (p, q) = and-true (not (c == 0x0a)) (all (λ c. not (c == 0x0a)) s) h in
        (ground arith, go s q)

joined : {s t : Text} → IsLine s → IsLine t → IsLine (s ++ t)
joined {s = s} {t = t} h k = record { lacks = All-append (λ d. d ≢ 0x0a) s t h.lacks k.lacks }

no_lines : AreLines []
no_lines = record { each = tt }

more : {line : Text} {lines : List Text} → IsLine line → AreLines lines → AreLines (line ∷ lines)
more h k = record { each = (h, k.each) }

both : {xs ys : List Text} → AreLines xs → AreLines ys → AreLines (xs ++ ys)
both {xs = xs} {ys = ys} h k = record { each = All-append IsLine xs ys h.each k.each }

replace_with-keeps :
    (old : ℕ) (new s : Text) → Lacks 0x0a new → Lacks 0x0a s → Lacks 0x0a (replace_with old new s)
unfolding replace_with
replace_with-keeps old new [] h k = tt
replace_with-keeps old new (c ∷ s) h k =
    if_cases (Lacks 0x0a) (c == old) (new ++ replace_with old new s) (c ∷ replace_with old new s)
      (λ _. All-append (λ d. d ≢ 0x0a) new _ h (replace_with-keeps old new s h k.1))
      (λ _. (k.0, replace_with-keeps old new s h k.1))

replace_with-clears : (new s : Text) → Lacks 0x0a new → Lacks 0x0a (replace_with 0x0a new s)
unfolding replace_with
replace_with-clears new [] h = tt
replace_with-clears new (c ∷ s) h =
    if_cases (Lacks 0x0a) (c == 0x0a) (new ++ replace_with 0x0a new s) (c ∷ replace_with 0x0a new s)
      (λ _. All-append (λ d. d ≢ 0x0a) new _ h (replace_with-clears new s h))
      (λ e. ((λ z. cc ((==_iff c 0x0a).1 z, e)), replace_with-clears new s h))

prom_label-IsLine : (value : Text) → IsLine (prom_label value)
unfolding prom_label
prom_label-IsLine value = record {
  lacks =
      replace_with-keeps 0x0d (codes "\\r")
        (replace_with 0x0a (codes "\\n")
          (replace_with b'"' (codes "\\\"") (replace_with b'\\' (codes "\\\\") value)))
        (constant (codes "\\r") refl).lacks
        (replace_with-clears (codes "\\n")
          (replace_with b'"' (codes "\\\"") (replace_with b'\\' (codes "\\\\") value))
          (constant (codes "\\n") refl).lacks);
}

module _ {N F : Type 0} (fl : Floats N F)
    (plain : (x : F) (spec : Text) → IsLine (fl.format x spec)) where
  sample-IsLine :
      (name label value number : Text)
      → all (λ c. not (c == 0x0a)) name ≡ true
      → all (λ c. not (c == 0x0a)) label ≡ true
      → IsLine number
      → IsLine (sample fl name label value number)
  unfolding sample
  sample-IsLine name label value number n l h = joined (constant name n) (
      joined (constant (codes "{") refl) (
        joined (constant label l) (
          joined (constant (codes "=\"") refl)
            (joined (prom_label-IsLine value) (joined (constant (codes "\"} ") refl) h)))))

  layer_line-IsLine : (layer : Fields N) (score : Option F) → AreLines (layer_line fl layer score)
  unfolding layer_line
  layer_line-IsLine layer none = no_lines
  layer_line-IsLine layer (some score) =
      if_cases (AreLines) (layer_is_collected layer) _ []
        (λ _. more (sample-IsLine _ _ _ _ refl refl (plain score (codes ".6f"))) no_lines)
        (λ _. no_lines)

  layer_lines-IsLine : (layers : List (Fields N)) → AreLines (layer_lines fl layers)
  unfolding layer_lines
  layer_lines-IsLine [] = no_lines
  layer_lines-IsLine (layer ∷ layers) = both (layer_line-IsLine layer _) (layer_lines-IsLine layers)

  gauge-IsLine :
      (name spec : Text) (x : Option F)
      → all (λ c. not (c == 0x0a)) name ≡ true
      → AreLines (gauge fl name spec x)
  unfolding gauge
  gauge-IsLine name spec none h = no_lines
  gauge-IsLine name spec (some x) h =
      more
        (joined (constant (codes "# TYPE ") refl)
          (joined (constant name h) (constant (codes " gauge") refl)))
        (more (joined (constant name h) (joined (constant (codes " ") refl) (plain x spec)))
          no_lines)

  subsystem_line-IsLine :
      (subsystem : Json N) (scaled : Option F) → AreLines (subsystem_line fl subsystem scaled)
  unfolding subsystem_line
  subsystem_line-IsLine subsystem none = no_lines
  subsystem_line-IsLine subsystem (some scaled) =
      if_cases (AreLines) (is_null subsystem) [] _ (λ _. no_lines)
        (λ _. more (sample-IsLine _ _ _ _ refl refl (plain scaled (codes ".3f"))) no_lines)

  subsystem_rows-IsLine : (entries : List (Fields N)) → AreLines (subsystem_rows fl entries)
  unfolding subsystem_rows
  subsystem_rows-IsLine [] = no_lines
  subsystem_rows-IsLine (entry ∷ entries) =
      both (subsystem_line-IsLine _ _) (subsystem_rows-IsLine entries)

  subsystem_lines-IsLine : (entries : List (Fields N)) → AreLines (subsystem_lines fl entries)
  unfolding subsystem_lines
  subsystem_lines-IsLine [] = no_lines
  subsystem_lines-IsLine (entry ∷ entries) =
      more (constant _ refl) (more (constant _ refl) (subsystem_rows-IsLine (entry ∷ entries)))

  cause_rows-IsLine : (causes : List (Fields N)) → AreLines (cause_rows fl causes)
  unfolding cause_rows
  cause_rows-IsLine [] = no_lines
  cause_rows-IsLine (cause ∷ causes) =
      more (sample-IsLine _ _ _ _ refl refl (plain _ (codes ".3f"))) (cause_rows-IsLine causes)

  cause_lines-IsLine : (causes : List (Fields N)) → AreLines (cause_lines fl causes)
  unfolding cause_lines
  cause_lines-IsLine [] = no_lines
  cause_lines-IsLine (cause ∷ causes) =
      more (constant _ refl) (more (constant _ refl) (cause_rows-IsLine (cause ∷ causes)))

  flag-IsLine :
      (b : Bool) → IsLine (codes "sevendtd_apm_laggy " ++ (if b then codes "1" else codes "0"))
  flag-IsLine true = constant _ refl
  flag-IsLine false = constant _ refl

  lag_lines-IsLine : (lag : Fields N) → AreLines (lag_lines fl lag)
  unfolding lag_lines
  lag_lines-IsLine end = no_lines
  lag_lines-IsLine (field k v fs) = more (constant _ refl) (
      more (constant _ refl) (
        more (flag-IsLine (truthy fl (get (field k v fs) (codes "laggy")))) (cause_lines-IsLine _)))

  pause_lines-IsLine :
      (gc_layer : Fields N) (worst : Option F) → AreLines (pause_lines fl gc_layer worst)
  unfolding pause_lines
  pause_lines-IsLine gc_layer none = no_lines
  pause_lines-IsLine gc_layer (some worst) =
      both (gauge-IsLine _ _ (some worst) refl) (gauge-IsLine _ _ (some _) refl)

  lines_of-IsLine :
      (summary health attribution : Fields N) → AreLines (lines_of fl summary health attribution)
  unfolding lines_of
  lines_of-IsLine summary health attribution = more (constant _ refl) (
      more (constant _ refl) (
        both (layer_lines-IsLine _) (
          both (gauge-IsLine _ _ _ refl) (
            both (subsystem_lines-IsLine _) (
              both (lag_lines-IsLine _) (
                both (gauge-IsLine _ _ _ refl) (
                  both (gauge-IsLine _ _ _ refl) (
                    both (gauge-IsLine _ _ _ refl)
                      (both (pause_lines-IsLine _ _) (gauge-IsLine _ _ _ refl))))))))))

  abbrev pub HasLines : Exported → Type 0
  HasLines (failed e) = Unit
  HasLines (exported lines) = AreLines lines

  -- Where the text of a number holds no line break, no line of an exported exposition does, whatever the
  -- documents of the session hold: no label value can begin a line of its own.
  pub export_metrics-HasLines :
      (summary health bridge : Document N) → HasLines (export_metrics fl summary health bridge)
  unfolding export_metrics with_health with_bridge
  export_metrics-HasLines absent health bridge = tt
  export_metrics-HasLines unreadable health bridge = tt
  export_metrics-HasLines (readable summary) unreadable bridge = tt
  export_metrics-HasLines (readable summary) absent absent = lines_of-IsLine summary end end
  export_metrics-HasLines (readable summary) absent unreadable = tt
  export_metrics-HasLines (readable summary) absent (readable b) =
      lines_of-IsLine summary end (as_mapping (get b (codes "attribution")))
  export_metrics-HasLines (readable summary) (readable h) absent = lines_of-IsLine summary h end
  export_metrics-HasLines (readable summary) (readable h) unreadable = tt
  export_metrics-HasLines (readable summary) (readable h) (readable b) =
      lines_of-IsLine summary h (as_mapping (get b (codes "attribution")))
