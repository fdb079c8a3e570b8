-- ===== src/Lib.antt =====
-- Verification library of quipucords: the scan engine and the fingerprints that it makes.
--
-- A scan job has one inspection task for each of its sources and one fingerprint task. Celery runs
-- them: each inspection runs a scanner, the fingerprint task merges what was found into one list of
-- systems, and a last task gives the job its final status.
--
-- Scan/Status: `ScanTask.STATUS_CHOICES`, the types of scan and the status messages
--   (quipucords/api/scantask/model.py, quipucords/api/messages.py).
-- Scan/Handle: an instance of a Django model beside its row. The methods of tasks and jobs are
--   functions of a handle, so that a stale instance can be told from a fresh one.
-- Scan/Task: `ScanTask.update_stats`, `increment_stats` and the `status_...` methods
--   (quipucords/api/scantask/model.py). Scan/Task/Stats and Scan/Task/Writes are about the counters.
-- Scan/Job: `ScanJob.validate_status_change`, the `status_...` methods and `calculate_counts`
--   (quipucords/api/scanjob/model.py), over the job's instance and the rows of its tasks.
--   Scan/Job/Transitions has the diagram of states, Scan/Job/Life sequences of calls,
--   Scan/Job/Tasks and Scan/Job/Sums the rows of the tasks.
-- Scan/Queue: `ScanJob.queue`, `delete_inspect_results` and the creation of tasks
--   (quipucords/api/scanjob/model.py), over the tables that they write.
-- Scan/World: the rows that the Celery tasks of one job share, and what Redis and Celery hold.
-- Scan/Runner: `ScanTaskRunner.run` (quipucords/scanner/runner.py) and `run_task_runner`
--   (quipucords/scanner/job.py). A scanner is a parameter; the theorems that need it ask that it
--   keeps the row of the task that it works on.
-- Scan/Celery: `celery_run_task_runner`, `fingerprint`, `finalize_scan` and their decorators
--   (quipucords/scanner/tasks.py), and `create_report_for_scan_job` (quipucords/scanner/job.py).
-- Scan/Launch: `CeleryBasedScanJobRunner.run` (quipucords/scanner/job.py), `CeleryScanManager`
--   (quipucords/scanner/manager.py) and the signal handlers
--   (quipucords/api/signal/scanjob_signal.py). What Celery is asked to run is a value, a `Plan`; the
--   id that Celery gives it and the types of the sources are parameters.
-- Fingerprint/Model: the dict of a fingerprint as a record; exceptions are values of `Fault`.
-- Fingerprint/Merge: `_merge_fingerprint` (quipucords/fingerprinter/runner.py); its children are
--   about facts, tables, reversed priorities, and the absence of exceptions.
-- Fingerprint/Dedup: `_remove_duplicate_fingerprints`.
-- Fingerprint/Matching: `_create_index_for_fingerprints`, `_merge_matching_fingerprints` and
--   `_merge_fingerprints_from_source_types`. `uuid.uuid4` is a parameter that gives the n-th id.
-- Fingerprint/Build: `_add_fact_to_fingerprint`.
-- Fingerprint/Sources: `_process_source` and `_process_sources` up to the post-processing. What makes
--   a fingerprint of one fact is a parameter there.
-- Fingerprint/Creation: `_compute_system_creation_time` and the post-processing. Fingerprint/Whole is
--   `_process_sources` with nothing left out.
-- Facts: `deepget` (quipucords/utils/deepget.py), the formatters (quipucords/fingerprinter/formatters.py
--   and quipucords/scanner/openshift/formatters.py) and the `_process_..._fact` methods of
--   quipucords/fingerprinter/runner.py, each as the list of facts that it adds. What `str`, `int`,
--   `float` and a product give for values that are no text or integer, and `strptime`, are parameters.
-- Products: the detection of JBoss EAP, Fuse and Web Server
--   (quipucords/fingerprinter/jboss_eap.py, jboss_fuse.py and jboss_web_server.py).
-- Normalize: `BaseNormalizer` and `FactMapper` (quipucords/scanner/normalizer.py).
-- Scanners/Inventory: the inventory for Ansible and the patterns of hosts
--   (quipucords/scanner/network/utils.py). Scanners/Satellite: helpers of
--   quipucords/scanner/satellite/utils.py; Scanners/Satellite/Pages is the paging of results
--   (quipucords/scanner/satellite/six.py) over a server that is a parameter.
-- Api/Source: the checks of the serializers of sources (quipucords/api/source/serializer.py); in
--   Api/Source/Store requests change a table of sources.
-- Reports: the aggregate report (quipucords/api/aggregate_report/model.py) and the average of dates
--   (quipucords/utils/datetime.py). Reports/Aggregate/Caching chooses between the stored one and a new one.
-- Text: texts by their code points, with the operations of `str` that these parts use.
-- Json: the values of facts. Prelude: names, lists and dicts that all share.
-- Examples: the theorems at concrete inputs.
--
-- The loops of these parts run over lists and are structural recursion, but for the slices of the hosts
-- of a scan: their fuel is the number of hosts, as each slice takes at least one. The
-- pages of a Satellite are asked for on fuel, of which one more than there are results is enough.
-- Lower case is that of ASCII: the words that are searched for have no letter that another character
-- turns into. An exception of Python is a value, `err`; for the serializers, `invalid` is a
-- ValidationError with its field and `raised` another exception. Logging is left out.
-- Counters are natural numbers; the database's upper bound of a positive integer is not modelled.
-- Integers of JSON are natural numbers, and floats are bit patterns.
--
-- Not modelled: logging; the scanners' requests to remote systems, and their reading of what commands
-- print; the proxy URL of a source and which of its names can be printed; the ratio of VMs to hosts; the
-- other reports, views and serializers, and authentication.
pub mod Prelude
pub mod Json
pub mod Products
pub mod Facts
pub mod Normalize
pub mod Scanners
pub mod Reports
pub mod Api
pub mod Text
pub mod Scan
pub mod Fingerprint
pub mod Examples
