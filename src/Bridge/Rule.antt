-- ===== src/Bridge/Rule.antt =====
-- One entry of `RULES` in tools/apm_suite/analysis/catalog.py.
use dtd_server_apm.Common.{List, Text}

pub record Rule : Type 0 where
  pub id : Text
  pub title : Text
  pub native_any : List Text
  pub prof_sections : List Text
  pub csharp : List Text
  pub harmony_targets : List Text
  pub mod_apis : List Text
