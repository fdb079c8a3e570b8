-- ===== src/Fingerprint/Creation.antt =====
-- `_compute_system_creation_time` (quipucords/fingerprinter/runner.py): the date of creation of a
-- merged fingerprint, from the dates that its sources reported. The reading of dates is a parameter.
pub mod Decided
pub mod Latest
use quipucords.Prelude.{
  String, Bool, true, false, not, ◌||◌, Option, none, some, List, [], ◌∷◌, ◌++◌, map, ◌==◌,
  string_eq, if◌then◌else◌,
}
use quipucords.Prelude.Dict.{Dict, lookup, insert, erase, values}
use quipucords.Text.{join}
use quipucords.Json.{Value, null, str, truthy, is_null}
use quipucords.Fingerprint.Model.{Result, ok, err, ◌>>=◌, type_error, Meta, SourceRef, Fingerprint}
use quipucords.Products.Values.{get}
use quipucords.Facts.Formatters.{Builtins}
use quipucords.Facts.Dates.{multi_format_dateparse}

-- In reverse order of accuracy: the last is the most accurate.
abbrev pub raw_date_keys : List (String × List String)
raw_date_keys =
    ("date_filesystem_create", "%Y-%m-%d" ∷ [])
    ∷ ("date_anaconda_log", "%Y-%m-%d" ∷ [])
    ∷ ("registration_time", "%Y-%m-%d %H:%M:%S" ∷ "%Y-%m-%d %H:%M:%S %z" ∷ [])
    ∷ ("date_machine_id", "%Y-%m-%d" ∷ [])
    ∷ ("creation_timestamp", "%Y-%m-%dT%H:%M:%S%z" ∷ [])
    ∷ []

abbrev pub creation_key : String
creation_key = "system_creation_date"

-- The variables of the loop. There are no metadata before the first date, and none either for a date
-- whose metadata are missing.
pub record Dated : Type 0 where
  pub rest : Fingerprint
  pub date : Value
  pub date_metadata : Option Meta

abbrev pub pop_key : String → Fingerprint → Fingerprint
pop_key k fp = record fp { facts = erase k fp.facts; metadata = erase k fp.metadata }

-- A date that cannot be read is logged with the source in its metadata: `TypeError` without metadata.
abbrev pub logged : Option Meta → Value → Value → Result Value
logged none value null = elim (truthy value) [ true ↦ err type_error | false ↦ ok null ]
logged m value date = ok date

unfoldable pub see_date : Builtins → String → List String → Dated → Result Dated
see_date b k patterns d =
    let value = get k d.rest.facts in
    let found = lookup k d.rest.metadata in
    elim (is_null value) [
      | true ↦ ok (record d { rest = pop_key k d.rest })
      | false ↦ multi_format_dateparse b value patterns >>= logged found value >>= λ date.
          ok (record { rest = pop_key k d.rest; date = date; date_metadata = found })
    ]

unfoldable pub see_dates : Builtins → List (String × List String) → Dated → Result Dated
see_dates b [] d = ok d
see_dates b ((k, patterns) ∷ keys) d = see_date b k patterns d >>= see_dates b keys

-- The metadata of an unreadable date name all the raw facts.
abbrev creation_metadata : Value → Meta → Meta
creation_metadata null m = record m { raw_fact_key = join "/" (map (λ p. p.0) raw_date_keys) }
creation_metadata date m = m

abbrev pub put_date_with : Option Meta → Dated → Fingerprint
put_date_with none d = d.rest
put_date_with (some m) d = record d.rest {
  facts = insert creation_key d.date d.rest.facts;
  metadata = insert creation_key (creation_metadata d.date m) d.rest.metadata;
}

abbrev pub put_date : Dated → Fingerprint
put_date d = put_date_with d.date_metadata d

abbrev pub undated : Fingerprint → Dated
undated fp = record { rest = fp; date = null; date_metadata = none }

unfoldable pub compute_system_creation_time : Builtins → Fingerprint → Result Fingerprint
compute_system_creation_time b fp = see_dates b raw_date_keys (undated fp) >>= λ d. ok (put_date d)

-- A fingerprint with its sources as a list.
pub record Finished : Type 0 where
  pub fingerprint : Fingerprint
  pub source_list : List SourceRef

unfoldable pub post_process_merged_fingerprints :
    Builtins → List Fingerprint → Result (List Finished)
post_process_merged_fingerprints b [] = ok []
post_process_merged_fingerprints b (fp ∷ fps) = compute_system_creation_time b fp >>= λ made.
    post_process_merged_fingerprints b fps >>= λ rest.
    ok (record { fingerprint = made; source_list = values fp.sources } ∷ rest)
