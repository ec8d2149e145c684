-- ===== src/Lib.antt =====
-- immich-doctor: a maintenance, validation and repair toolkit for Immich installations. The
-- development follows a repair through the program: inspection finds what is wrong, a plan token
-- binds the repair to that state, an apply writes a run and a journal, and undo plans and
-- executes the way back from the journal. Beside it stand the comparison of the storage catalog
-- with the database, and the snapshots of backups with their verification and restore.
--
-- Base: Boolean tests, equality by instances, Python's dictionaries in order of insertion, and
--   decimal text. Lists are measured by native numbers.
-- Core (immich_doctor/core/models.py): Core/Value the values of `dict[str, Any]`, Core/Models
--   the check results and reports, Core/Status what their overall status is.
-- Effects: Effects/Result the exceptions, Effects/World the state outside the process. A method
--   is a function from a world that returns or raises; what it wrote before an exception stays
--   written. The world holds a node for each path of the library and the manifest files of the
--   repair store, each as what its JSON denotes, under the id of its run. `Platform` holds what
--   the standard library and the operating system supply: the clock, `uuid4`, ISO texts,
--   `json.dumps`, SHA-256, `int` and `str` of other values, and the normal form of a path.
--   Effects/Within has a rule for each way to build a method, by which it is shown what a method
--   may change.
-- Filesystem (immich_doctor/adapters/filesystem.py): `stat`, `chmod` and the read-permission
--   fix. A node is absent, inaccessible, faulty with an errno, or present with its `st_mode` and
--   whether this process may change it. `chmod` keeps the bits above the twelve permission bits.
-- Repair (immich_doctor/repair/): Repair/Models the records of models.py with `to_dict` and
--   `from_dict` (the fields have the types of their annotations: a payload of another type is a
--   `type_error` on reading), Repair/Items the rows of the quarantine index, Repair/Guards
--   guards.py, Repair/Store store.py, and Repair/Undo/Models, Plan, Restore and Execute
--   undo_models.py and undo_service.py. A function keeps its name in the source without the
--   leading underscore; `self` and `settings` are left out, and with them the paths that depend on
--   the settings alone. `generated_at` of the undo results is left out, so planning does not ask
--   the clock.
-- Integrity (immich_doctor/runtime/integrity/): Integrity/Models the findings and the status of
--   an inspection (models.py, and the counts of service.py), Integrity/Probes and
--   Integrity/Analyzer the analyzer of service.py, Integrity/Inspect the inspection service.
--   `Inspection` holds what the sizes, the read and media probes and the methods of texts answer;
--   an inspection reads the world and does not write.
-- MetadataFailures (immich_doctor/runtime/metadata_failures/): Models models.py, Causes and
--   Diagnose service.py, Repair, Scope and Run repair_service.py. `Installation`
--   (Integrity/Installation) holds what the settings, the paths and the database answer, and may
--   answer otherwise once the clock has been asked again, so the second inspection of an apply
--   need not find what the first one found. The backup before an apply is a parameter of the run,
--   a method of the world.
-- Jobs (immich_doctor/services/backup_job_service.py, immich_doctor/backup/core/job_models.py
--   and job_store.py): Jobs/Models the records, Jobs/Handle and Jobs/Runtime the service and its
--   store, Jobs/Steps and Jobs/Consistent the interleavings of calls, Jobs/Ends the end of a job.
--   The handles are objects that the threads share; they stand under the id of their job.
-- Storage (immich_doctor/storage/path_mapping.py): Storage/Text and Storage/PosixPath the text
--   methods and the pure paths of Python's standard library as far as the resolver uses them,
--   Storage/PathMapping the resolver, Storage/Names, Printed and Located what parsing, printing
--   and joining paths do to their names, Storage/Resolve what the resolver promises. A path is a
--   root (none, one slash or exactly two) and its names, so printing and parsing are definitions
--   here.
-- Catalog (immich_doctor/catalog/consistency_state.py and consistency_service.py): Models the
--   rows, Snapshots `prepare_snapshot_state`, Classify and Orphans the two loops of `collect`,
--   Window its filters and checks, Collect the comparison, Rows and Validate the reports. Rows of
--   the database and of the store are records with the columns that are read, a column a text or
--   `None`; `run` of the validation service is `validate_catalog`. `ConsistencyAnswers` holds what
--   the store and the database answer; `validate_catalog` takes two of them, since `collect` asks
--   everything again. Sets are lists of which only the membership is read. `TextPlatform` supplies
--   the ISO times and the case of a text. The progress callbacks are left out.
-- Backup (immich_doctor/backup/): Models the targets, artifacts and snapshots of core/models.py,
--   Results its other records, Store core/store.py, Verify verify/service.py, Instructions and
--   Restore the models, the service and the instructions of restore/. A snapshot directory is a
--   list of file names, each with what reading and parsing the file gives. The checks of the file-
--   system and tool adapters, the text of an exception and the environment in lower case are
--   parameters; `generated_at` of a simulation is left out. `run` of the verification is
--   `verify_backups`, and `simulate` is `simulate_restore`.
-- EmptyFolders (immich_doctor/storage/empty_folders/): Scan `_scan_directory` of scanner.py,
--   Report `scan`, which is `scan_storage` here, and the report of models.py. A directory is a
--   tree of entries with the error that ended its listing; the scan of a child returns what it
--   adds to the state, and the parent appends this in the order of the names. The readability
--   checks, the order of paths (`is_child_path`) and the stat of a directory are parameters, and
--   the progress callback is left out. Items has the records of a quarantine, QuarantineIndex
--   `_select_findings`, `_select_quarantine_items`, `_merge_index_items` and `list_quarantined`,
--   Moves the rounds of the loops, and Quarantine the methods `quarantine`, `restore` and
--   `finalize_delete` of quarantine_manager.py. What the standard library does to directories is
--   the record `Calls`, over any type of directories, the index file is the list of items that it
--   denotes, and writing it succeeds; `quarantine` takes the findings of its scan.
--
-- Bounds: every loop is a recursion on its list, so none takes fuel except the decimal printer,
-- which gets one more round than the number has units and uses one for each digit. Numbers are
-- natural: modes, sizes and instants in microseconds are never negative in the source.
--
-- Not modelled: SQL and the database driver, subprocesses, HTTP routes, the command line, the
-- browser client, the rendering of reports, and logging. The components of the manifest name the
-- parts that are left out, with the reason.
pub mod Base
pub mod Core
pub mod Effects
pub mod Filesystem
pub mod Repair
pub mod Integrity
pub mod MetadataFailures
pub mod Jobs
pub mod Storage
pub mod Catalog
pub mod Backup
pub mod EmptyFolders
mod Tests
