-- ===== src/Lib.antt =====
-- 2Keys: a verification library for the add-on and hotkey core of the repository.
--
-- A client (a detector on a device with a second keyboard) asks the server to run a hotkey. The
-- server finds the hotkey in the config of the detector and calls an executor, which is an add-on.
-- Add-ons are npm packages that a registry keeps in an SQLite database, next to the software that
-- they need. Terminal prompts serve all of these.
--
-- The parts and their files, with paths from packages/@twokeys:
-- Registry: addons/src/registry.ts, with the types and tables of addons/src/util/interfaces.ts and
-- constants.ts. Registry has the data; Document validatePackageJSON, the two conversions and
-- parsePackageFromDB; Table the SQL statements; Methods addPackageToDB, removePackageFromDB,
-- getPackagesFromDB and reindex; Loading load, loadPackage and loadAllOfType; Installing install,
-- uninstall, update and createNewRegistry. Proofs are in Documents, Uniqueness, Adding, Removing,
-- Reindexing, Lookups and Installs, and in Reachable for sequences of calls. Specification has what a
-- client may rely on, a list of names and what a call makes of it; Client has the calls, and when a
-- table stands for a list; Refinement the proof that they agree.
-- Software: addons/src/software.ts and software-query-provider.ts. Tables has the SQL statements
-- on both tables; Provider the queries for any add-on; Methods installSoftware, runInstall, the
-- deletions and renamings; Updating updateSoftware and updateSoftwareRecord. Proofs are in
-- Consistency, Reachable, Installs, Lookups, Executables, Removal, Rollback and Moving.
-- Server: server/src/routes/triggerHotkey.ts in Trigger, the whole request handler, and
-- server/src/loaders/loadDetectors.ts in Detectors, the map of detector configs and its reloads;
-- server/src/routes/api.ts in Api, the routes that give a config; server/src/util/startup.ts and
-- is-admin.ts in Startup, the check that the process is no administrator's.
-- Copier: addons/src/util/copy-contents.ts, the file tree and the copying of a folder's contents.
-- Commands: common-hi/src/common/command-factory.ts and is-command.ts, how commands are wrapped and
-- called.
-- Executor: executors/@twokeys/executor-ahk/src, outside packages: the check of a hotkey and its run,
-- and the software that it installs, which Executor.Installs puts together with Software.
-- Setup: common-hi/src/setup: util/setIPv4.ts in Network, commands/oobe.ts in Oobe, which calls it and
-- the registry's methods, commands/project.ts and daemon.ts in Project.
-- Legacy: legacy-server/src, the older server: util/copy-contents-class.ts in Copier, against the
-- copier above; init/get-config.ts in Init; routes/api.ts and util/ahk.ts in Trigger.
-- Core: core/src/titlecase.ts in TitleCase, prompts.ts in Prompts, config.ts in Config, logger.ts in
-- Logger.
-- Prelude: Boolean tests on lists, objects as association lists, and methods that change an
-- object and may throw: a method is a function from the object to its result, or its error, and
-- the object afterwards, so that what was changed before an error stays changed.
--
-- A method of the source in camelCase is the definition in snake_case; a field or a local value
-- keeps its name in the same way. An object that a class keeps is a record (Registry.Registry,
-- Software.Store, Core.Prompts.Logger). An SQLite table is the list of its rows, and a statement that
-- a constraint refuses changes nothing. Errors that are thrown are values of a data type Thrown.
--
-- Parameters of the definitions are what is not in the repository: npm, the module loader, the file
-- system, uuid, path (in the copiers, paths are lists of segments), downloads and unpacking, YAML and
-- Mustache, the answers to inquirer's questions, the network adapters, the native library for macros,
-- JavaScript's case mappings and the white space of its patterns. Where such a call can fail, its
-- outcome is any function of what was asked. Nothing is assumed of them but where a theorem says so.
-- In Core.Config and Setup.Project the disk is an object from paths to texts, and may refuse a write,
-- which then changes nothing. In Setup.Oobe a write may also break off and leave any text, and every
-- step of making the registries may fail. The native module for macros may throw.
--
-- No loop needs fuel: each runs over a list. Concurrent inserts of `Promise.all` are run in the order
-- of the list, all of them, and the first that fails is reported; the queries that an update makes
-- before its writes are all run before the first write. The old copier's concurrent calls end in the
-- order of a list of events, which is any list. A promise that never settles is a value. A prompt
-- reads a list of lines, and waits where the list ends.
--
-- Not modelled: network and terminal streams, the express set-up, the start of the
-- routes, a new client's set-up and its controller, the old server's command init, native code, the
-- Python detector and the GUI. What is logged is left out of the other modules but Server.Startup,
-- and Prompts, where the logger's silence is the state in question.
pub mod Commands
pub mod Copier
pub mod Core
pub mod Executor
pub mod Legacy
pub mod Prelude
pub mod Registry
pub mod Server
pub mod Setup
pub mod Software
