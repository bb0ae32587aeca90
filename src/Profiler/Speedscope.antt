-- ===== src/Profiler/Speedscope.antt =====
-- `to_speedscope` of tools/host_profiler/folded_to_speedscope.py. The two local variables that the
-- nested function `idx` updates are the state `Table`.
pub mod Decode
use dtd_server_apm.Common.{
  ℕ, zero, suc, ◌+◌, Bool, true, false, List, [], ◌∷◌, ◌++◌, Option, none, some, Text, length,
  String, nat_eq, list_eq,
}
use dtd_server_apm.Common.Dict.{lookup, insert}

pub record Table : Type 0 where
  pub frame_index : List (Text × ℕ)
  pub frames : List Text

pub idx : Text → Table → ℕ × Table
idx name t = elim (lookup name t.frame_index) [
  | some i ↦ (i, t)
  | none ↦ (
    length t.frames,
    record t {
      frame_index = insert name (length t.frames) t.frame_index;
      frames = t.frames ++ name ∷ [];
    },
  )
]

-- `[idx(f) for f in stack]`.
pub index_stack : List Text → Table → List ℕ × Table
unfolding idx
index_stack [] t = ([], t)
index_stack (f ∷ fs) t =
    let (i, t') = idx f t in let (sample, t'') = index_stack fs t' in (i ∷ sample, t'')

-- The result, less its constant fields (`$schema`, `exporter`, `activeProfileIndex`, `type`, `unit`).
pub record Profile : Type 0 where
  pub name : Text
  pub frames : List Text
  pub start_value : ℕ
  pub end_value : ℕ
  pub samples : List (List ℕ)
  pub weights : List ℕ

pub record Loop : Type 0 where
  pub table : Table
  pub samples : List (List ℕ)
  pub weights : List ℕ
  pub total : ℕ

pub collect : Loop → List (List Text × ℕ) → Loop
unfolding index_stack
collect s [] = s
collect s ((stack, count) ∷ rows) =
    let (sample, table) = index_stack stack s.table in
    collect
      (record {
        table = table;
        samples = s.samples ++ sample ∷ [];
        weights = s.weights ++ count ∷ [];
        total = s.total + count;
      })
      rows

abbrev pub start : Loop
start = record {
  table = record { frame_index = []; frames = [] };
  samples = [];
  weights = [];
  total = 0;
}

pub to_speedscope : List (List Text × ℕ) → Text → Profile
unfolding collect
to_speedscope rows name =
    let s = collect start rows in
    record {
      name = name;
      frames = s.table.frames;
      start_value = 0;
      end_value = s.total;
      samples = s.samples;
      weights = s.weights;
    }
