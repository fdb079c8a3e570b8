-- ===== src/Fingerprint/Whole.antt =====
-- `_process_sources` (quipucords/fingerprinter/runner.py) as a whole: with the methods that process the
-- facts of each type of source, and with the post-processing.
use quipucords.Prelude.{ℕ, String, List}
use quipucords.Fingerprint.Model.{Result, ◌>>=◌}
use quipucords.Fingerprint.Sources.{Source, process_sources}
use quipucords.Fingerprint.Creation.{Finished, post_process_merged_fingerprints}
use quipucords.Facts.Formatters.{Builtins}
use quipucords.Facts.Process.{process_facts_for_datasource}

unfoldable pub fingerprint_sources : Builtins → (ℕ → String) → List Source → Result (List Finished)
fingerprint_sources b uuid4 sources =
    process_sources uuid4 (process_facts_for_datasource b) sources
    >>= post_process_merged_fingerprints b
