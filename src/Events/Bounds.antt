-- ===== src/Events/Bounds.antt =====
-- What a sink holds after any events.
use dtd_server_apm.Common.{
  ℕ, suc, ◌+◌, ◌≤◌, ◌≡◌, refl, ap, ◌∙◌, List, [], ◌∷◌, some, Text, All, arith, length, ltb, ltb→lt,
  if◌then◌else◌, if_cases, ◌=?◌, nat_eq, list_eq,
}
use dtd_server_apm.Common.Dict.{lookup, insert}
use dtd_server_apm.Profiler.Collapse.Sums.{total, total-bump}
use dtd_server_apm.Events.{
  Event, Entry, above, heappush, retain, EventSink, empty_sink, kind_of, heap_of, per_source_max,
  add, add_all,
}

length-heappush : (e : Entry) (heap : List Entry) → length (heappush e heap) ≡ suc (length heap)
unfolding heappush
length-heappush e [] = refl
length-heappush e (f ∷ heap) =
    if_cases (λ l. length l ≡ suc (length (f ∷ heap))) (above e f) (f ∷ heappush e heap)
      (e ∷ f ∷ heap) (λ _. ap suc (length-heappush e heap)) (λ _. refl)

retain-within :
    (e : Entry) (heap : List Entry)
    → length heap ≤ per_source_max
    → (length (retain e heap) ≤ per_source_max) × (length heap ≤ length (retain e heap))
unfolding retain
retain-within e [] h = (omega (arith, length-heappush e []), omega arith)
retain-within e (root ∷ heap) h =
    if_cases (λ l. (length l ≤ per_source_max) × (length (root ∷ heap) ≤ length l))
      (ltb (length (root ∷ heap)) per_source_max) (heappush e (root ∷ heap))
      (if above e root then heappush e heap else root ∷ heap)
      (λ lt.
        let k = ltb→lt (length (root ∷ heap)) per_source_max lt in
        (
          omega (arith, length-heappush e (root ∷ heap)),
          omega (arith, length-heappush e (root ∷ heap)),
        ))
      (λ _.
        if_cases (λ l. (length l ≤ per_source_max) × (length (root ∷ heap) ≤ length l))
          (above e root) (heappush e heap) (root ∷ heap)
          (λ _. (omega (arith, length-heappush e heap), omega (arith, length-heappush e heap)))
          (λ _. (h, omega arith)))

abbrev pub IsWithin : Text × List Entry → Type 0
IsWithin e = length e.1 ≤ per_source_max

All-insert :
    (k : Text) (v : List Entry) (m : List (Text × List Entry))
    → length v ≤ per_source_max
    → All IsWithin m
    → All IsWithin (insert k v m)
unfolding insert
All-insert k v [] h a = (h, tt)
All-insert k v ((j, w) ∷ m) h a =
    if_cases (All IsWithin) (j =? k) ((j, v) ∷ m) ((j, w) ∷ insert k v m) (λ _. (h, a.1))
      (λ _. (a.0, All-insert k v m h a.1))

heap_of-within :
    (k : Text) (m : List (Text × List Entry))
    → All IsWithin m
    → length (heap_of (lookup k m)) ≤ per_source_max
unfolding lookup
heap_of-within k [] a = omega arith
heap_of-within k ((j, w) ∷ m) a =
    if_cases (λ o. length (heap_of o) ≤ per_source_max) (j =? k) (some w) (lookup k m) (λ _. a.0)
      (λ _. heap_of-within k m a.1)

-- After `n` events: they are all counted, once in all and once by kind, and every source's heap is
-- within its bound.
pub record IsCounting (n : ℕ) (sink : EventSink) : Type 0 where
  pub counted : sink.count ≡ n
  pub numbered : sink.sequence ≡ n
  pub by_kind : total sink.by_kind ≡ n
  pub within : All IsWithin sink.retained

add-IsCounting :
    (n : ℕ) (e : Event) (sink : EventSink) → IsCounting n sink → IsCounting (suc n) (add e sink)
unfolding add
add-IsCounting n e sink h = record {
  counted = omega (arith, h.counted);
  numbered = omega (arith, h.numbered);
  by_kind = total-bump (kind_of e.kind) sink.by_kind ∙ omega (arith, h.by_kind);
  within =
      All-insert e.source _ sink.retained
        (retain-within _ (heap_of (lookup e.source sink.retained))
          (heap_of-within e.source sink.retained h.within)).0
        h.within;
}

add_all-from :
    (n : ℕ) (events : List Event) (sink : EventSink)
    → IsCounting n sink
    → IsCounting (n + length events) (add_all events sink)
unfolding add_all
add_all-from n [] sink h = record {
  counted = omega (arith, h.counted);
  numbered = omega (arith, h.numbered);
  by_kind = omega (arith, h.by_kind);
  within = h.within;
}
add_all-from n (e ∷ events) sink h =
    let r = add_all-from (suc n) events (add e sink) (add-IsCounting n e sink h) in
    record {
      counted = omega (arith, r.counted);
      numbered = omega (arith, r.numbered);
      by_kind = omega (arith, r.by_kind);
      within = r.within;
    }

-- Whatever the events, a sink counts each of them, once in all and once by kind, and retains at most
-- 500 for each source.
pub add_all-IsCounting :
    (events : List Event) → IsCounting (length events) (add_all events empty_sink)
add_all-IsCounting events =
    let r =
      add_all-from 0 events empty_sink
        (record { counted = refl; numbered = refl; by_kind = unfold total in refl; within = tt }) in
    record {
      counted = omega (arith, r.counted);
      numbered = omega (arith, r.numbered);
      by_kind = omega (arith, r.by_kind);
      within = r.within;
    }
