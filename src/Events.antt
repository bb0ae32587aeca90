-- ===== src/Events.antt =====
-- `EventSink` of tools/apm_suite/analysis/events.py. A heap of heapq is its entries in order, so that its
-- head is the root; the order in which `events` lists a heap is not modelled. Of an event only the
-- fields that the sink reads are kept.
pub mod Bounds
use dtd_server_apm.Common.{
  ℕ, suc, ◌+◌, Bool, true, false, ◌&&◌, ◌||◌, List, [], ◌∷◌, ◌++◌, Option, none, some, Text, codes,
  length, ltb, ◌=?◌, nat_eq, list_eq, if◌then◌else◌,
}
use dtd_server_apm.Common.Dict.{lookup, insert}
use dtd_server_apm.Profiler.Collapse.{bump}

-- The fields as text, with "" for a kind or source that is missing or false.
pub record Event : Type 0 where
  pub kind : Text
  pub severity : Text
  pub source : Text

abbrev pub per_source_max : ℕ
per_source_max = 500

-- `_SEVERITY_RANK.get(severity, 3)`.
abbrev pub severity_ranks : List (Text × ℕ)
severity_ranks = (codes "error", 0) ∷ (codes "warn", 1) ∷ (codes "info", 2) ∷ []

abbrev pub or_three : Option ℕ → ℕ
or_three none = 3
or_three (some n) = n

pub record Entry : Type 0 where
  pub severity : ℕ
  pub sequence : ℕ
  pub event : Event

-- `a[:2] > b[:2]`, where a rank stands negated in the tuple.
pub above : Entry → Entry → Bool
above a b = ltb a.severity b.severity || ((a.severity =? b.severity) && ltb b.sequence a.sequence)

pub heappush : Entry → List Entry → List Entry
unfolding above
heappush e [] = e ∷ []
heappush e (f ∷ heap) = let more = heappush e heap in if above e f then f ∷ more else e ∷ f ∷ heap

-- What becomes of the heap of the event's source.
pub retain : Entry → List Entry → List Entry
unfolding heappush
retain e [] = heappush e []
retain e (root ∷ heap) =
    if ltb (length (root ∷ heap)) per_source_max
    then heappush e (root ∷ heap)
    else if above e root
    then heappush e heap
    else root ∷ heap

pub record EventSink : Type 0 where
  pub count : ℕ
  pub by_kind : List (Text × ℕ)
  pub retained : List (Text × List Entry)
  pub sequence : ℕ

abbrev pub empty_sink : EventSink
empty_sink = record { count = 0; by_kind = []; retained = []; sequence = 0 }

abbrev pub kind_of : Text → Text
kind_of kind = if kind =? [] then codes "unknown" else kind

-- `setdefault(source, [])`.
abbrev pub heap_of : Option (List Entry) → List Entry
heap_of none = []
heap_of (some heap) = heap

pub add : Event → EventSink → EventSink
unfolding retain
add e sink = record {
  count = sink.count + 1;
  by_kind = bump (kind_of e.kind) sink.by_kind;
  sequence = sink.sequence + 1;
  retained =
      insert e.source
        (retain
          (record {
            severity = or_three (lookup e.severity severity_ranks);
            sequence = sink.sequence;
            event = e;
          })
          (heap_of (lookup e.source sink.retained)))
        sink.retained;
}

pub add_all : List Event → EventSink → EventSink
unfolding add
add_all [] sink = sink
add_all (e ∷ events) sink = add_all events (add e sink)
