-- ===== src/Examples/OfCollectors.antt =====
-- The theorems on tools/apm_suite/collectors.py at concrete inputs.
use dtd_server_apm.Common.{◌≡◌, Text, codes, keep, All, nat_eq, list_eq}
use dtd_server_apm.Collectors.{specs, tokens_of, wanted, requested}
use dtd_server_apm.Collectors.Plans.{is_known, unknown_tokens_inert}

abbrev only : Text
only = codes "perf, gc"

unknown_tokens_inert_example :
    All
      (λ spec.
        wanted spec (codes "perf,bogus")
        ≡ requested spec (keep is_known (tokens_of (codes "perf,bogus"))))
      specs
unknown_tokens_inert_example = unknown_tokens_inert (codes "perf,bogus")
