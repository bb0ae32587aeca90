-- ===== src/Session/Review.antt =====
-- The collector rows of an audit, tools/apm_suite/session.py: `_legacy_results`, `_requested`, and the
-- loop of `audit_session` that flips a status and warns.
use dtd_server_apm.Common.{
  ℕ, Bool, true, false, not, ◌&&◌, ◌||◌, List, [], ◌∷◌, ◌++◌, Option, none, some, Text, codes, ◌=?◌,
  nat_eq, list_eq, if◌then◌else◌, map, ◌==◌, any, split, strip, starts_with,
}
use mathlib.Core.List.{reverse}
use dtd_server_apm.Common.Dict.{contains}
use dtd_server_apm.Collectors.{specs, find_spec, requested, layer_requested}
use dtd_server_apm.Common.Sort.{sorted}
use dtd_server_apm.Io.Members.{parts}
use dtd_server_apm.Session.Files.{Session, is_file, regular_file_size, size_or_zero}
use dtd_server_apm.Common.Order.{text_lt}
use dtd_server_apm.Session.Manifest.{
  Status, ok, skipped, failed, unavailable, interrupted, Collector, Warning, no_evidence,
  capture_warnings, Meta,
}

-- `path.name`.
unfoldable pub base_name : List Text → Text
base_name [] = []
base_name (q ∷ []) = q
base_name (q ∷ r ∷ qs) = base_name (r ∷ qs)

pub parent : List Text → List Text
parent [] = []
parent (q ∷ []) = []
parent (q ∷ r ∷ qs) = q ∷ parent (r ∷ qs)

unfoldable pub ends_with : Text → Text → Bool
ends_with s suffix = starts_with (reverse s) (reverse suffix)

-- Python's order of paths, part by part.
pub parts_lt : List Text → List Text → Bool
parts_lt ps [] = false
parts_lt [] (q ∷ qs) = true
parts_lt (p ∷ ps) (q ∷ qs) =
    if text_lt p q then true else if text_lt q p then false else parts_lt ps qs

-- `sorted(session.rglob("*"))`.
unfoldable pub in_order : Session → Session
unfolding sorted parts_lt
in_order s = sorted (λ a b. parts_lt (parts a.0) (parts b.0)) s

-- `COLLECTORS`.
abbrev pub legacy_collectors : List (Text × Text × Text)
legacy_collectors =
    (codes "app", codes "app_sim", codes "app/bridge.jsonl")
    ∷ (codes "runtime", codes "runtime_gc", codes "runtime/mono_gc.bt.out")
    ∷ (codes "threads", codes "threads", codes "threads/threads.jsonl")
    ∷ (codes "sync", codes "sync_locks", codes "sync/futex.bt.out")
    ∷ (codes "scheduler", codes "scheduler", codes "scheduler/runqlat.bt.out")
    ∷ (codes "cpu", codes "cpu", codes "cpu/perf/stacks.folded")
    ∷ (codes "memory", codes "memory_cache", codes "memory/proc.jsonl")
    ∷ (codes "io", codes "io", codes "io/vfs.bt.out")
    ∷ []

-- A size that is there and not zero: `path.is_file() and path.stat().st_size` as a condition.
abbrev pub has_size : Option ℕ → Bool
has_size none = false
has_size (some n) = not (n == 0)

-- A path `*.err` beside an artifact, with a size that is not zero.
pub has_error_log : Session → List Text → Bool
unfolding ends_with
has_error_log s dir =
    any
      (λ e.
        (parent (parts e.0) =? dir)
        && (ends_with (base_name (parts e.0)) (codes ".err") && not (size_or_zero s e.0 == 0)))
      s

pub legacy_status : Session → Text → Status
unfolding has_error_log
legacy_status s rel =
    if has_error_log s (parent (parts rel)) && not (is_file s rel)
    then failed
    else if is_file s rel && not (size_or_zero s rel == 0)
    then ok
    else unavailable

pub legacy_results : Session → List Collector
unfolding legacy_status
legacy_results s =
    map (λ row. record { name = row.0; layer = row.1; status = legacy_status s row.2 })
      legacy_collectors

-- `_requested`: the rule of the catalog, or the names alone for a collector that it lacks.
pub is_requested : Text → Text → List Text → Bool
is_requested name layer tokens = elim (find_spec specs name) [
  | some spec ↦ requested spec tokens
  | none ↦ contains tokens name || contains tokens layer || layer_requested layer tokens
]

pub lost_evidence : Status → Bool
lost_evidence ok = false
lost_evidence skipped = true
lost_evidence failed = true
lost_evidence unavailable = true
lost_evidence interrupted = true

pub is_unavailable : Status → Bool
is_unavailable unavailable = true
is_unavailable _ = false

-- One round of the loop over the collectors: its status may become "skipped", and it may warn.
pub review : Meta → List Text → Collector → Collector × List Warning
unfolding is_requested lost_evidence is_unavailable
review meta tokens c =
    let wanted =
      is_requested c.name c.layer tokens && not (meta.no_app && (c.name =? codes "app")) in
    let status = if not wanted && is_unavailable c.status then skipped else c.status in
    (
      record c { status = status },
      if wanted && lost_evidence status then no_evidence c.name status ∷ [] else [],
    )

pub review_all : Meta → List Text → List Collector → List Collector × List Warning
unfolding review
review_all meta tokens [] = ([], [])
review_all meta tokens (c ∷ cs) =
    let (c', w) = review meta tokens c in
    let (cs', ws) = review_all meta tokens cs in (c' ∷ cs', w ++ ws)

-- `(only if isinstance(only, str) and only.strip() else "all").split(",")`.
pub requested_layers_of : Meta → List Text
requested_layers_of meta =
    split
      (elim meta.only [
        | some only ↦ if strip only =? [] then codes "all" else only
        | none ↦ codes "all"
      ])
      b','

-- `WARN.txt` with something in it.
pub capture_warning : Session → List Warning
capture_warning s =
    if has_size (regular_file_size s (codes "WARN.txt")) then capture_warnings ∷ [] else []
