-- ===== src/Collectors.antt =====
-- The collector catalog, tools/apm_suite/collectors.py, with the token rules of
-- tools/apm_suite/models.py that it shares with the audit. The command lines that a spec builds
-- (`build`, `env`) are not modelled.
pub mod Tokens
pub mod Plans
use dtd_server_apm.Common.{
  ℕ, Bool, true, false, not, ◌&&◌, ◌||◌, List, [], ◌∷◌, ◌++◌, Option, none, some, Text, codes, map,
  any, ◌=?◌, nat_eq, list_eq, if◌then◌else◌, split, strip, keep,
}
use dtd_server_apm.Common.Dict.{lookup, contains}
use dtd_server_apm.Common.Sort.{sorted}
use dtd_server_apm.Common.Order.{text_lt}

-- `LAYER_ALIASES`.
abbrev pub layer_aliases : List (Text × List Text)
layer_aliases =
    (codes "app_sim", codes "app" ∷ [])
    ∷ (codes "io", codes "net" ∷ [])
    ∷ (codes "memory_cache", codes "memory" ∷ codes "hw" ∷ codes "cache" ∷ codes "proc" ∷ [])
    ∷ (codes "runtime_gc", codes "runtime" ∷ codes "gc" ∷ [])
    ∷ (codes "scheduler", codes "sched" ∷ [])
    ∷ (codes "sync_locks", codes "sync" ∷ codes "locks" ∷ codes "futex" ∷ [])
    ∷ []

-- `dict.get(layer, frozenset())`.
unfoldable pub aliases_of : Text → List Text
unfolding lookup
aliases_of layer = elim (lookup layer layer_aliases) [ some names ↦ names | none ↦ [] ]

-- The intersection of two sets is not empty.
unfoldable pub meets : List Text → List Text → Bool
meets [] tokens = false
meets (name ∷ names) tokens = contains tokens name || meets names tokens

unfoldable pub layer_requested : Text → List Text → Bool
layer_requested layer requested =
    contains requested (codes "all")
    || contains requested layer
    || meets (aliases_of layer) requested

unfoldable pub collector_requested : Text → Text → List Text → List Text → Bool → Bool
collector_requested name layer requested extra_aliases optin =
    if optin
    then contains requested name || meets extra_aliases requested
    else layer_requested layer requested || contains requested name || meets extra_aliases requested

pub record CollectorSpec : Type 0 where
  pub name : Text
  pub layer : Text
  pub artifact : Text
  pub tool : Text
  pub extra_aliases : List Text
  pub needs_sudo : Bool
  pub stdout_to : Option Text
  pub optin : Bool

unfoldable pub requested : CollectorSpec → List Text → Bool
requested spec tokens =
    collector_requested spec.name spec.layer tokens spec.extra_aliases spec.optin

-- A spec run by a script of this repository, and one run by bpftrace under sudo.
abbrev script_spec : Text → Text → Text → Text → Option Text → CollectorSpec
script_spec name layer artifact tool stdout_to = record {
  name = name;
  layer = layer;
  artifact = artifact;
  tool = tool;
  extra_aliases = [];
  needs_sudo = false;
  stdout_to = stdout_to;
  optin = false;
}

abbrev bpf_spec : Text → Text → Text → CollectorSpec
bpf_spec name layer artifact = record {
  name = name;
  layer = layer;
  artifact = artifact;
  tool = codes "bpftrace";
  extra_aliases = [];
  needs_sudo = true;
  stdout_to = none;
  optin = false;
}

-- `SPECS`.
abbrev pub specs : List CollectorSpec
specs =
    script_spec (codes "app") (codes "app_sim") (codes "app/bridge.jsonl") (codes "python3") none
    ∷ script_spec (codes "threads") (codes "threads") (codes "threads/threads.jsonl")
        (codes "python3") (some (codes "threads/threads.txt"))
    ∷ record (script_spec (codes "proc") (codes "memory_cache") (codes "memory/proc.jsonl")
        (codes "python3") (some (codes "memory/proc.txt"))) { extra_aliases = codes "threads" ∷ [] }
    ∷ script_spec (codes "hw") (codes "memory_cache") (codes "memory/hw_stat.txt") (codes "perf")
        none
    ∷ script_spec (codes "perf") (codes "cpu") (codes "cpu/perf/stacks.folded") (codes "perf")
        (some (codes "cpu/perf_launcher.log"))
    ∷ bpf_spec (codes "oncpu") (codes "cpu") (codes "cpu/oncpu.bt.out")
    ∷ bpf_spec (codes "runqlat") (codes "scheduler") (codes "scheduler/runqlat.bt.out")
    ∷ bpf_spec (codes "offcpu") (codes "scheduler") (codes "scheduler/offcpu.bt.out")
    ∷ bpf_spec (codes "states") (codes "scheduler") (codes "scheduler/states.bt.out")
    ∷ bpf_spec (codes "futex") (codes "sync_locks") (codes "sync/futex.bt.out")
    ∷ bpf_spec (codes "vfs") (codes "io") (codes "io/vfs.bt.out")
    ∷ bpf_spec (codes "block") (codes "io") (codes "io/block.bt.out")
    ∷ bpf_spec (codes "io_net") (codes "io") (codes "io/io_net.bt.out")
    ∷ bpf_spec (codes "mono_gc") (codes "runtime_gc") (codes "runtime/mono_gc.bt.out")
    ∷ record (bpf_spec (codes "mono_alloc") (codes "runtime_gc")
        (codes "runtime/mono_alloc.bt.out")) {
          extra_aliases = codes "alloc" ∷ codes "allocsites" ∷ [];
          optin = true;
        }
    ∷ []

-- `SPEC_BY_NAME.get(name)`.
unfoldable pub find_spec : List CollectorSpec → Text → Option CollectorSpec
find_spec [] name = none
find_spec (spec ∷ more) name = if spec.name =? name then some spec else find_spec more name

abbrev pub all_of {ℓ} : {A : Type ℓ} → (A → List Text) → List A → List Text
all_of f [] = []
all_of f (x ∷ xs) = f x ++ all_of f xs

-- `KNOWN_ONLY_TOKENS`.
abbrev pub known_only_tokens : List Text
known_only_tokens =
    codes "all"
    ∷ (all_of (λ spec. spec.name ∷ []) specs
        ++ (all_of (λ spec. spec.layer ∷ []) specs
            ++ (all_of (λ entry. entry.1) layer_aliases
                ++ all_of (λ spec. spec.extra_aliases) specs)))

-- `{token.strip() for token in only.split(",") if token.strip()}`.
unfoldable pub tokens_of : Text → List Text
unfolding split strip keep
tokens_of only = keep (λ t. not (t =? [])) (map strip (split only b','))

unfoldable pub wanted : CollectorSpec → Text → Bool
wanted spec only = requested spec (tokens_of only)

-- `sorted` of a set: in order, each once.
unfoldable pub sorted_set : List Text → List Text
unfolding contains sorted text_lt
sorted_set [] = []
sorted_set (t ∷ ts) =
    let rest = sorted_set ts in if contains rest t then rest else sorted text_lt (t ∷ rest)

unfoldable pub planned_layers : Text → Bool → List Text
unfolding wanted sorted_set keep
planned_layers only no_app = sorted_set (
    map (λ spec. spec.layer)
      (keep (λ spec. wanted spec only && not (no_app && (spec.name =? codes "app"))) specs))

unfoldable pub unknown_only_tokens : Text → List Text
unknown_only_tokens only = keep (λ t. not (contains known_only_tokens t)) (tokens_of only)
