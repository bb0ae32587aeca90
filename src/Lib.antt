-- ===== src/Lib.antt =====
-- Geiger, the server APM of this repository: parts of its Python tools.
--
-- A capture runs a catalog of collectors, which leave raw artifacts in a session directory. Profiler
-- scripts collapse `perf` output into folded stacks and convert these for viewers. A finalization runs
-- the analyses and ends with an audit, which records every artifact with its size and hash in
-- `manifest.json`; later audits verify against it. Old sessions go to a trash and expire there, and a
-- backup copies the store. Untrusted text enters through one module of readers.
--
-- - Common: texts as lists of code points, Python's `dict` as an association list, stable sorting,
--   Boolean tests, the decimal text of a number.
-- - Io (tools/apm_suite/io.py): Io/Comments is `strip_json_comments`; Io/Json the documents and
--   `_too_deep`, Io/Json/Surrogates `_sans_surrogates`, Io/Json/Load `json_loads` and its readers;
--   Io/Members `member_is_safe`; Io/Claim `claim_dir` and `claim_file`.
-- - Profiler (tools/host_profiler): Profiler/Collapse is `frame_name` and `collapse` of
--   stackcollapse_perf.py; Profiler/Folded, Profiler/Speedscope and Profiler/Dumps are `load_folded`,
--   `to_speedscope` and `dumps_deep` of folded_to_speedscope.py.
-- - Collectors (tools/apm_suite/collectors.py, models.py): the catalog and the rules that select.
-- - Session (tools/apm_suite/session.py): Session/Retention is what a retention dooms,
--   Session/Settings the two environment variables, Session/Trash the prune; Session/Files is a session
--   directory, Session/Manifest the data of an audit, Session/Verify the checks, Session/Review the
--   collector rows and Session/Audit `audit_session`.
-- - Finalize (tools/apm_suite/finalize.py), Backup (tools/apm_suite/backup.py), Jitsym and Events
--   (tools/apm_suite/analysis/jitsym.py and events.py).
-- - Models (tools/apm_suite/models.py): the readers of unvalidated documents, and in Models/Numbers the
--   floats. Health and Budget (analysis/health.py, analysis/budget.py below tools/apm_suite) are the
--   grade and the gate of a session, Prometheus (tools/apm_suite/prometheus.py) its exposition, Compare
--   (tools/apm_suite/analysis/compare.py) the comparison of two sessions.
-- - Bridge (tools/apm_suite/analysis/bridge.py, catalog.py): Bridge/Heats and Bridge/Sections rank the
--   game's sections, Bridge/Subsystems, Bridge/Ledger and Bridge/Attribution are
--   `attribute_subsystems`, Bridge/Catalog the rules and Bridge/Matching `match_rules`.
-- - Bundle (tools/apm_suite/bundle.py): Bundle/Scrub and Bundle/Lines are the exclusions and the scrubs,
--   Bundle/Export `export_bundle`, Bundle/Import `import_bundle`. An export reads a session as the audit
--   does and records what it stores; an import claims a name as the claims of Io do and ends with the
--   audit of Session.
-- - Report (tools/apm_suite/analysis/report.py): Report/Causes are the checks of `diagnose_lag`, Report/Lag
--   its verdict, Report/Pressure the adjustments of the layer scores. It reads documents
--   as Models does and names the subsystems of Bridge.
-- - Examples: tests, and the theorems at concrete inputs.
--
-- Code of other software is a parameter: hashing, JSON text and the pydantic schemas (the record
-- `Platform` of Session/Manifest, the record `Tools` of Bundle/Lines), number parsing and floats (the
-- record `Floats` of Models/Numbers, with the laws of their order apart), the digit class. What
-- the system refuses, and what other processes do between two calls, is a parameter too. Mutable state
-- is passed on, and an exception is a value.
--
-- Loops run on fuel that is computed from the input: the walk of the comments on the length of the text,
-- the depth check on the number of nodes, the encoder on five rounds a node, the search for a free name
-- on the number of names and one more.
--
-- A session is its nodes by path: a link is known by what it leads to, and no path leads through a link to
-- a directory. An audit and an import may end in an exception, which is a value of its own.
--
-- Not modelled: the capture itself, the command line, rendering, the samplers and the scripts, which are
-- process control, sockets and printing; of the bridge analysis the text of the playbook, the legacy log
-- lines and the stall correlation; of the report the first scores of the layers, their final order and
-- every text; of the comparison the frames and the text; of a bundle the target and the time stamps of
-- its manifest and failures of writing the archive.
pub mod Common
pub mod Io
pub mod Profiler
pub mod Session
pub mod Collectors
pub mod Finalize
pub mod Backup
pub mod Jitsym
pub mod Events
pub mod Models
pub mod Health
pub mod Budget
pub mod Prometheus
pub mod Bundle
pub mod Bridge
pub mod Compare
pub mod Report
pub mod Examples
