-- ===== src/Profiler/Speedscope/Decode.antt =====
-- The samples of a profile decode to the stacks that went in.
use dtd_server_apm.Common.{
  ℕ, ◌+◌, ◌≡◌, refl, sym, ◌∙◌, List, [], ◌∷◌, ◌++◌, Option, none, some, Text, length, get_elem?,
  get_elem?-append, get_elem?-length, sum, map, arith, nat_eq, list_eq, ◌=?◌, append_assoc,
  append-nil, text_eq, Bool-cases, inl, inr,
}
use dtd_server_apm.Common.Dict.{lookup, insert, lookup-insert}
use dtd_server_apm.Profiler.Speedscope.{
  Table, Loop, idx, index_stack, collect, start, to_speedscope,
}

-- An indexed name is the frame that its number names.
record IsIndexed (t : Table) : Type 0 where
  at_name : (k : Text) (i : ℕ) → lookup k t.frame_index ≡ some i → get_elem? t.frames i ≡ some k

-- Frames are only ever added behind the ones that are there.
record Extends (t u : Table) : Type 0 where
  keeps : (i : ℕ) (k : Text) → get_elem? t.frames i ≡ some k → get_elem? u.frames i ≡ some k

Extends-refl : (t : Table) → Extends t t
Extends-refl t = record { keeps = λ i k h. h }

Extends-trans : {t u v : Table} → Extends t u → Extends u v → Extends t v
Extends-trans h g = record { keeps = λ i k p. g.keeps i k (h.keeps i k p) }

-- What `idx` has to give: a table that is still right, and the number of the name.
record IsEntered (t : Table) (name : Text) (r : ℕ × Table) : Type 0 where
  indexed : IsIndexed r.1
  extends : Extends t r.1
  found : get_elem? r.1.frames r.0 ≡ some name

idx_known :
    (name : Text) (t : Table) (i : ℕ) → lookup name t.frame_index ≡ some i → idx name t ≡ (i, t)
unfolding idx
idx_known name t i e = rw (e, idx)

added : Text → Table → Table
added name t = record {
  frame_index = insert name (length t.frames) t.frame_index;
  frames = t.frames ++ name ∷ [];
}

idx_new :
    (name : Text) (t : Table)
    → lookup name t.frame_index ≡ none
    → idx name t ≡ (length t.frames, added name t)
unfolding idx added
idx_new name t e = rw (e, idx)

Extends-added : (name : Text) (t : Table) → Extends t (added name t)
unfolding added
Extends-added name t = record { keeps = λ i k h. get_elem?-append t.frames (name ∷ []) i h }

added-IsIndexed : (name : Text) (t : Table) → IsIndexed t → IsIndexed (added name t)
unfolding added
added-IsIndexed name t h = record {
  at_name = λ k i p.
      let q = rw lookup-insert at p in
      elim (Bool-cases (name =? k)) [
        | inl e ↦ cc ((text_eq.beq_iff name k).0 e, rw e at q, get_elem?-length t.frames name [])
        | inr e ↦ get_elem?-append t.frames (name ∷ []) i (h.at_name k i (rw e at q))
      ];
}

idx-IsEntered : (name : Text) (t : Table) → IsIndexed t → IsEntered t name (idx name t)
idx-IsEntered name t h = go (lookup name t.frame_index) refl
  where
    go : (found : Option ℕ) → lookup name t.frame_index ≡ found → IsEntered t name (idx name t)
    go none e = rw (idx_new name t e) (record {
      indexed = added-IsIndexed name t h;
      extends = Extends-added name t;
      found = unfold added in get_elem?-length t.frames name [];
    })
    go (some i) e =
        rw (idx_known name t i e)
          (record { indexed = h; extends = Extends-refl t; found = h.at_name name i e })

abbrev pub decode : List Text → List ℕ → List (Option Text)
decode frames sample = map (get_elem? frames) sample

-- The whole stack: its numbers decode to it, now and in every later table.
record IsCoded (t : Table) (stack : List Text) (r : List ℕ × Table) : Type 0 where
  indexed : IsIndexed r.1
  extends : Extends t r.1
  decoded : (u : Table) → Extends r.1 u → decode u.frames r.0 ≡ map some stack

index_stack-IsCoded :
    (stack : List Text) (t : Table) → IsIndexed t → IsCoded t stack (index_stack stack t)
unfolding index_stack
index_stack-IsCoded [] t h = record { indexed = h; extends = Extends-refl t; decoded = λ u e. refl }
index_stack-IsCoded (f ∷ fs) t h =
    let a = idx-IsEntered f t h in
    let b = index_stack-IsCoded fs (idx f t).1 a.indexed in
    record {
      indexed = b.indexed;
      extends = Extends-trans a.extends b.extends;
      decoded = λ u e. cc ((Extends-trans b.extends e).keeps (idx f t).0 f a.found, b.decoded u e);
    }

-- The invariant of the loop over the rows.
record IsRunning (s : Loop) (rows : List (List Text × ℕ)) (r : Loop) : Type 0 where
  extends : Extends s.table r.table
  new_samples : List (List ℕ)
  samples : r.samples ≡ s.samples ++ new_samples
  weights : r.weights ≡ s.weights ++ map (λ row. row.1) rows
  total : r.total ≡ s.total + sum (map (λ row. row.1) rows)
  decoded :
      (u : Table)
      → Extends r.table u
      → map (decode u.frames) new_samples ≡ map (λ row. map some row.0) rows

collect-IsRunning :
    (s : Loop) (rows : List (List Text × ℕ)) → IsIndexed s.table → IsRunning s rows (collect s rows)
unfolding collect
collect-IsRunning s [] h = record {
  extends = Extends-refl s.table;
  new_samples = [];
  samples = sym (append-nil s.samples);
  weights = sym (append-nil s.weights);
  total = omega arith;
  decoded = λ u e. refl;
}
collect-IsRunning s ((stack, count) ∷ rows) h =
    let a = index_stack-IsCoded stack s.table h in
    let b =
      collect-IsRunning
        (record {
          table = (index_stack stack s.table).1;
          samples = s.samples ++ (index_stack stack s.table).0 ∷ [];
          weights = s.weights ++ count ∷ [];
          total = s.total + count;
        })
        rows a.indexed in
    record {
      extends = Extends-trans a.extends b.extends;
      new_samples = (index_stack stack s.table).0 ∷ b.new_samples;
      samples =
          b.samples ∙ append_assoc s.samples ((index_stack stack s.table).0 ∷ []) b.new_samples;
      weights = b.weights ∙ append_assoc s.weights (count ∷ []) (map (λ row. row.1) rows);
      total = omega (arith, b.total);
      decoded = λ u e. cc (a.decoded u (Extends-trans b.extends e), b.decoded u e);
    }

-- Reading every sample through the frame list gives back the stacks in order, frame by frame; the
-- weights are the counts in order, and the end value is their sum.
pub to_speedscope_decodes :
    (rows : List (List Text × ℕ)) (name : Text)
    → (map (decode (to_speedscope rows name).frames) (to_speedscope rows name).samples
        ≡ map (λ row. map some row.0) rows)
      × ((to_speedscope rows name).weights ≡ map (λ row. row.1) rows)
      × ((to_speedscope rows name).end_value ≡ sum (map (λ row. row.1) rows))
unfolding to_speedscope
to_speedscope_decodes rows name =
    let r = collect-IsRunning start rows (record { at_name = λ k i p. unfold lookup in cc p }) in
    (rw r.samples (r.decoded _ (Extends-refl _)), r.weights, omega (arith, r.total))
