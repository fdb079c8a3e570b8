-- ===== src/Facts/Dates.antt =====
-- Dates of raw facts: `_multi_format_dateparse` (quipucords/fingerprinter/runner.py).
use quipucords.Prelude.{String, true, false, none, some, List, [], ◌∷◌}
use quipucords.Json.{Value, null, str, truthy}
use quipucords.Fingerprint.Model.{Result, ok, err, attribute_error}
use quipucords.Facts.Formatters.{Builtins, strip_suffix}

abbrev first_parsed : Builtins → String → List String → Value
first_parsed b text [] = null
first_parsed b text (pattern ∷ patterns) =
    let rest = first_parsed b text patterns in
    elim (b.strptime text pattern) [ some d ↦ d | none ↦ rest ]

abbrev parse_text : Builtins → Value → List String → Result Value
parse_text b (str s) patterns = ok (first_parsed b (strip_suffix s " UTC") patterns)
parse_text b _ patterns = err attribute_error

-- The first pattern that fits; an error is logged and `None` returned if none does.
unfoldable pub multi_format_dateparse : Builtins → Value → List String → Result Value
multi_format_dateparse b date_value patterns = elim (truthy date_value) [
  | true ↦ parse_text b date_value patterns
  | false ↦ ok null
]
