-- ===== src/Profiler/Collapse/Counts.antt =====
-- Every sample with a named frame is counted once, under a key that splits back into its frames.
use dtd_server_apm.Common.{
  ℕ, ◌+◌, ◌≤◌, ◌<◌, ◌≡◌, ◌≢◌, refl, Bool, true, false, not, ◌&&◌, List, [], ◌∷◌, Option, none, some,
  Text, length, All, arith, nat_eq, list_eq, ◌=?◌, if◌then◌else◌, join, split, split-join,
  length-append, ltb, all, All-append, All-imp, is_space, if_cases, ltb→lt, and-true,
}
use dtd_server_apm.Profiler.Collapse.{
  semicolon, max_stack_depth, Collapse, flush, push_frame, frame_name, is_header, step, start, run,
  collapse, rstrip_newline,
}
use dtd_server_apm.Profiler.Collapse.Names.{frame_name-Lacks}
use dtd_server_apm.Profiler.Collapse.Sums.{
  HasKeys-flush, total-flush, pending-le, total, IsStack, IsKey, HasKeys,
}

-- The state after `n` header lines: the sample that is being read is not counted yet.
record IsRunning (n : ℕ) (s : Collapse) : Type 0 where
  keys : HasKeys s.counts
  stack : IsStack s.stack
  counted : total s.counts + (if s.in_stack then 1 else 0) ≤ n

-- A flush counts the sample that was being read.
record IsFlushed (n : ℕ) (s : Collapse) : Type 0 where
  keys : HasKeys s.counts
  stack : IsStack s.stack
  counted : total s.counts ≤ n

flush-IsFlushed : (n : ℕ) (s : Collapse) → s.in_stack ≡ true → IsRunning n s → IsFlushed n (flush s)
unfolding flush
flush-IsFlushed n s e h = record {
  keys = HasKeys-flush s.stack s.counts h.stack h.keys;
  stack = (omega arith, tt);
  counted = omega (arith, total-flush s.stack s.counts, pending-le s.stack, rw e at h.counted);
}

IsRunning-IsFlushed : (n : ℕ) (s : Collapse) → IsRunning n s → IsFlushed n s
IsRunning-IsFlushed n s h = record {
  keys = h.keys;
  stack = h.stack;
  counted = omega (arith, h.counted);
}

-- Whatever the flag, the samples read so far are at most the headers seen.
settle : (n : ℕ) (s : Collapse) → IsRunning n s → IsFlushed n (if s.in_stack then flush s else s)
settle n s h =
    if_cases (IsFlushed n) s.in_stack (flush s) s (λ e. flush-IsFlushed n s e h)
      (λ _. IsRunning-IsFlushed n s h)

push_frame-IsRunning :
    (n : ℕ) (line : Text) (s : Collapse)
    → IsRunning n s
    → IsRunning n (push_frame (frame_name line) s)
push_frame-IsRunning n line s h = go (frame_name line) refl
  where
    go : (name : Option Text) → frame_name line ≡ name → IsRunning n (push_frame name s)
    go none e = unfold push_frame in h
    go (some name) e =
        unfold push_frame in
        if_cases (IsRunning n) (not (name =? []) && ltb (length s.stack) max_stack_depth) _ s
          (λ room. record {
            keys = h.keys;
            stack = (
              omega (
                arith,
                length-append s.stack (name ∷ []),
                ltb→lt (length s.stack) max_stack_depth
                    (and-true (not (name =? [])) (ltb (length s.stack) max_stack_depth) room).1,
              ),
              All-append _ s.stack (name ∷ []) h.stack.1 (frame_name-Lacks line name e, tt),
            );
            counted = h.counted;
          })
          (λ _. h)

-- A line that opens a sample.
pub opens : (ℕ → Bool) → Text → Bool
opens is_digit raw =
    let line = rstrip_newline raw in not (all is_space line) && is_header is_digit line

pub headers : (ℕ → Bool) → List Text → ℕ
headers is_digit [] = 0
headers is_digit (line ∷ lines) = (if opens is_digit line then 1 else 0) + headers is_digit lines

opens-true :
    (is_digit : ℕ → Bool) (raw : Text)
    → all is_space (rstrip_newline raw) ≡ false
    → is_header is_digit (rstrip_newline raw) ≡ true
    → opens is_digit raw ≡ true
unfolding opens
opens-true is_digit raw p q = ground arith

step-IsRunning :
    (is_digit : ℕ → Bool) (n : ℕ) (s : Collapse) (raw : Text)
    → IsRunning n s
    → IsRunning (n + (if opens is_digit raw then 1 else 0)) (step is_digit s raw)
step-IsRunning is_digit n s raw h =
    unfold step in
    if_cases (IsRunning n') (all is_space line) _ _
      (λ blank.
        if_cases (IsRunning n') s.in_stack (record (flush s) { in_stack = false }) s
          (λ e. closed (flush-IsFlushed n s e h)) (λ _. more h))
      (λ text.
        if_cases (IsRunning n') (is_header is_digit line) _ _
          (λ header. opened (settle n s h) (opens-true is_digit raw text header))
          (λ _.
            if_cases (IsRunning n') s.in_stack _ s (λ _. more (push_frame-IsRunning n line s h))
              (λ _. more h)))
  where
    line : Text
    line = rstrip_newline raw

    n' : ℕ
    n' = n + (if opens is_digit raw then 1 else 0)

    more : {u : Collapse} → IsRunning n u → IsRunning n' u
    more k = record { keys = k.keys; stack = k.stack; counted = omega (arith, k.counted) }

    closed : {u : Collapse} → IsFlushed n u → IsRunning n' (record u { in_stack = false })
    closed k = record { keys = k.keys; stack = k.stack; counted = omega (arith, k.counted) }

    opened :
        {u : Collapse}
        → IsFlushed n u
        → opens is_digit raw ≡ true
        → IsRunning n' (record u { in_stack = true })
    opened k e = record {
      keys = k.keys;
      stack = k.stack;
      counted = rw e (omega (arith, k.counted));
    }

run-IsRunning :
    (is_digit : ℕ → Bool) (n : ℕ) (s : Collapse) (lines : List Text)
    → IsRunning n s
    → IsRunning (n + headers is_digit lines) (run is_digit s lines)
unfolding run headers
run-IsRunning is_digit n s [] h = record {
  keys = h.keys;
  stack = h.stack;
  counted = omega (arith, h.counted);
}
run-IsRunning is_digit n s (line ∷ lines) h =
    let k =
      run-IsRunning is_digit (n + (if opens is_digit line then 1 else 0)) (step is_digit s line)
        lines (step-IsRunning is_digit n s line h) in
    record { keys = k.keys; stack = k.stack; counted = omega (arith, k.counted) }

-- A key with its count, as a reader of folded stacks takes it apart.
pub record IsFolded (entry : Text × ℕ) : Type 0 where
  pub frames : List Text
  pub splits : split entry.0 semicolon ≡ frames
  pub joins : entry.0 ≡ join semicolon frames
  pub some_frame : frames ≢ []
  pub within : length frames ≤ max_stack_depth
  pub full : All (λ f. f ≢ []) frames
  pub counted : 0 < entry.1

IsKey-IsFolded : (entry : Text × ℕ) → IsKey entry.0 × (0 < entry.1) → IsFolded entry
IsKey-IsFolded entry ((fs, ne, st, e), p) = record {
  frames = fs;
  splits = rw e (split-join semicolon fs ne (All-imp (λ f k. k.1) fs st.1));
  joins = e;
  some_frame = ne;
  within = st.0;
  full = All-imp (λ f k. k.0) fs st.1;
  counted = p;
}

-- Whatever the input, every key of the result is the join of one or more frames, at most 4096, and
-- splitting it at the semicolons gives back exactly these frames, none of them empty; every count is
-- positive; and the counts together are at most the number of header lines.
pub collapse_splits :
    (is_digit : ℕ → Bool) (lines : List Text)
    → All IsFolded (collapse is_digit lines)
      × (total (collapse is_digit lines) ≤ headers is_digit lines)
unfolding collapse
collapse_splits is_digit lines =
    let r = settle (0 + headers is_digit lines) (run is_digit start lines) (
      run-IsRunning is_digit 0 start lines
        (record { keys = tt; stack = (omega arith, tt); counted = unfold total in omega arith })) in
    (All-imp IsKey-IsFolded _ r.keys, omega (arith, r.counted))
