-- ===== src/Bridge/Heats.antt =====
-- `ranked_section_heats` of tools/apm_suite/analysis/bridge.py, of a bridge document that was read.
use dtd_server_apm.Common.{List, [], ◌∷◌, Option, Text, codes, nat_eq, list_eq, if◌then◌else◌}
use dtd_server_apm.Common.Dict.{insert}
use dtd_server_apm.Io.Json.{Json, Fields}
use dtd_server_apm.Models.{get, object_list, first_number, truthy, text_of}
use dtd_server_apm.Models.Numbers.{Floats}

module _ {N F : Type 0} (fl : Floats N F) where
  -- `str(value or "")`.
  unfoldable pub name_text : Json N → Text
  name_text v = if truthy fl v then text_of fl v else []

  unfoldable pub heat_into : Text → Option F → List (Text × Option F) → List (Text × Option F)
  heat_into [] heat heats = heats
  heat_into (c ∷ name) heat heats = insert (c ∷ name) heat heats

  unfoldable pub heats_from : List (Text × Option F) → List (Fields N) → List (Text × Option F)
  unfolding heat_into name_text first_number
  heats_from heats [] = heats
  heats_from heats (section ∷ sections) =
      heats_from
        (heat_into (name_text (get section (codes "name")))
          (first_number fl (
            get section (codes "score")
            ∷ get section (codes "p95")
            ∷ get section (codes "avgMs")
            ∷ []))
          heats)
        sections

  unfoldable pub ranked_section_heats : Fields N → List (Text × Option F)
  unfolding heats_from object_list
  ranked_section_heats document =
      heats_from [] (object_list (get document (codes "top_managed_sections")))
