-- ===== src/Examples/OfSession.antt =====
-- The theorems on tools/apm_suite/session.py at concrete inputs.
use dtd_server_apm.Common.{
  ◌≡◌, ◌↔◌, refl, true, false, List, [], ◌∷◌, Option, none, some, codes, Text, leb, All, ◌=?◌,
  nat_eq, list_eq, if◌then◌else◌,
}
use dtd_server_apm.Common.Dict.{lookup}
use dtd_server_apm.Session.Files.{regular, Session, read, stat}
use dtd_server_apm.Session.Manifest.{unexpected, Manifest, Platform}
use dtd_server_apm.Session.Retention.{
  Stored, sessions_beyond_budget, IsRetained, sessions_beyond_budget-IsRetained,
}
use dtd_server_apm.Session.Verify.{verify_recorded_hashes}
use dtd_server_apm.Session.Verify.Exact.{IsIntact, Records, verify_recorded_hashes_exact}
use dtd_server_apm.Session.Audit.{Audit, manifest_with}
use dtd_server_apm.Models.Numbers.{Floats}

abbrev stored : List Stored
stored =
    record { name = codes "c"; mtime = 30; bytes = 4; is_dir = true }
    ∷ record { name = codes "b"; mtime = 20; bytes = 9; is_dir = true }
    ∷ record { name = codes "a"; mtime = 10; bytes = 1; is_dir = true }
    ∷ []

sessions_beyond_budget-IsRetained_example :
    IsRetained stored 2 (λ n. leb n 5) (sessions_beyond_budget stored 2 (some (λ n. leb n 5)))
sessions_beyond_budget-IsRetained_example =
    sessions_beyond_budget-IsRetained stored 2 (λ n. leb n 5)

abbrev fresh : Session
fresh = (codes "a.txt", regular (codes "hi")) ∷ []

-- Floats as their texts, none of which is read here.
abbrev pub text_floats : Floats Text Text
text_floats = record {
  of_num = λ n. none;
  parse = λ s. none;
  is_finite = λ x. true;
  is_true = λ x. false;
  is_true_num = λ n. false;
  show = λ v. [];
  lt = λ x y. false;
  le = λ x y. false;
  plus_float = λ x y. x;
  sub = λ x y. x;
  mul = λ x y. x;
  div = λ x y. x;
  zero_float = [];
  hundredths = λ n. [];
  round = λ x digits. x;
  format = λ x spec. x;
}

-- A platform whose hash is the content itself and that knows one written manifest.
abbrev platform_of : Option Manifest → Platform
platform_of known = record {
  sha256 = λ content. content;
  decode_manifest = λ text. if text =? codes "M" then known else none;
  encode_manifest = λ m. codes "M";
  schema_accepts = λ path text. true;
  decode_result = λ text. none;
  loads = λ text. none;
  int = λ v. unexpected;
  floats = text_floats;
  is_stamp = λ text. false;
  is_in_range = λ start window. true;
}

abbrev baseline : Manifest
baseline = manifest_with (platform_of none) fresh [] []

abbrev platform : Platform
platform = platform_of (some baseline)

-- The session of before, with its manifest and one changed byte.
abbrev tampered : Session
tampered = (codes "a.txt", regular (codes "ho")) ∷ (codes "manifest.json", regular (codes "M")) ∷ []

abbrev recorded : Manifest
recorded = record {
  requested_layers = codes "all" ∷ [];
  collectors = [];
  artifacts = record { path = codes "a.txt"; bytes = 2; sha256 = codes "hi" } ∷ [];
  warnings = [];
  errors = [];
}

abbrev checker : Platform
checker = platform_of (some recorded)

tampered-Records : Records checker tampered recorded
unfolding read stat lookup
tampered-Records = record { text = codes "M"; reads = refl; decodes = refl }

verify_recorded_hashes_exact_example :
    (verify_recorded_hashes checker tampered ≡ [])
    ↔ All (IsIntact checker tampered) recorded.artifacts
verify_recorded_hashes_exact_example =
    verify_recorded_hashes_exact checker tampered recorded tampered-Records
