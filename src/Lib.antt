-- ===== src/Lib.antt =====
-- A verification library for test-looper, a continuous-integration server.
--
-- The server keeps its whole state in an object database over a key-value store and works on it in
-- transactions. Its test manager schedules tests, hears from the workers that run them and passes
-- their output to those who listen; its machine management boots and terminates the machines that
-- the workers run on.
--
-- The modules and the code that they are about:
-- - Common: Boolean tests, lists, dicts as association lists (Assoc) and as functions (Map), and signed
--   integers for the counters that may go below 0.
-- - KvStore: the interface of a store of JSON values, and test_looper/core/InMemoryJsonStore.py as one
--   implementation (KvStore/Memory). json.dumps and json.loads are parameters.
-- - Database: class Database of test_looper/core/object_database.py, the multi-version store.
--   Versions has the state and the operations: view, transaction (view, transaction),
--   _releaseView (release_view, with _decversion and _cleanup), _get_versioned_object_data
--   (get_versioned), _update_versioned_object_data_cache (update_cache), _set_versioned_object_data
--   (set_versioned). Conflict is about transactions with the same number, Matching and Parsed about the
--   parsed objects that are kept beside the JSON values; the other files relate the JSON values to a
--   history of committed states.
-- - Objects: DatabaseView and the accessors of DatabaseObject in the same file. Objects has the keys and
--   the reads, Edits the operations (_new, _set, _delete, _update_indices, indexLookup), Entries, Edited and
--   Indexed the indices. The class is one throughout, and an index function reads its object only.
-- - Machines: test_looper/core/machine_management/MachineManagement.py. The books of the base class are
--   in Machines, DummyMachineManagement and LocalMachineManagement in Machines/Dummy,
--   AwsMachineManagement in Machines/Aws.
-- - Streams: MessageBuffer, DeploymentStream (Streams) and HeartbeatHandler (Streams/Heartbeat) of
--   test_looper/data_model/TestManager.py.
-- - Scheduler: tests, runs, machines and deployments of the same file, with their records from
--   test_looper/data_model/Types.py. Scheduler has the state, Decisions and Updating have
--   _updateTestPriority with what it decides by, Ending has the methods that end runs, deployments
--   and machines (_cancelTestRun, _cancelDeployment, _machineTerminated, _shutdown), Running the life of
--   a run (startNewTest, recordTestArtifactUploaded, recordTestResults, clearTestRun, testHeartbeat),
--   Fleet deployments, booting and time-outs. Invariant says what the counters count (Books) and Later what
--   an ending never undoes; Endings, Shutdowns, Terminations and Emptied are about endings, Kept, Right, Updates,
--   Recorded, Handed and Swept about the other methods, Steps about all of them together, Choosing and
--   Hardware about which test a machine gets and which hardware a test, Reports about the
--   artifacts that runs report and Results about their results.
-- - Commits: the bounded walks over the commits of a branch in the same file
--   (topNPrioritizedCommitsForBranch, commitsToDisplayForBranch, getNCommits), on fuel for their
--   loops, and in Commits/Priorities the priorities of commits (_updateCommitPriority,
--   _calcCommitAnybranch, _setCommitUserPriority) with the tasks that pass a change on to the parents.
--   Commits/Priorities/Works has the order of the transactions, of which one processes a task and a later
--   one deletes it.
-- - GitLocks: the git repo locks of the same file.
-- - Graph: the search for a cycle of test_looper/core/GraphUtil.py.
-- - Bitstring: test_looper/core/Bitstring.py.
--
-- How the code is rendered. Identities, keys, hashes and characters of messages are numbers, where only
-- their equality matters. An exception is `none`, and the state that it leaves is not kept. A method
-- that holds a lock is one step; where a method gives the lock up between two sections (subscribe of
-- MessageBuffer) the sections are two steps. Python's loops run over lists, so that all functions are
-- structural recursions: the `while True` of _cleanup consumes the list of version numbers. Fuel bounds
-- the depth of the search in Graph, where the number of nodes is proved to be enough, the recursion of
-- _machineTerminated through what it ends (two rounds), the `while check()` of
-- _shutdownMachinesIfNecessary (the machines alive and one), and the walks of Commits, all of which are
-- proved to be enough. Numbers are natural numbers without bound, as Python's are; a limit of -1, which
-- means no limit, is 0. What is reached is said by data types of steps (Reaches, Follows, Keeps, DummyRuns, Runs,
-- Beats, Step, Works), and an invariant is proved by induction over them.
--
-- In Scheduler the commits that a method reads are an argument of each step (Graph), so that nothing is
-- assumed of how they change. Logging and the messages to deployment streams are left out, and so is the
-- call that terminates a machine, whose exceptions the code catches. Methods that run two transactions are
-- two steps.
--
-- Not modelled: the parsing and printing of JSON, SHA hashes, the run-time type library
-- (test_looper/core/algebraic.py), whose coercions are parameters, the calls of AWS, Docker and Git, whose
-- answers are arguments, HTTP and HTML (test_looper/server), and the workers (test_looper/worker).
pub mod Bitstring
pub mod Commits
pub mod Common
pub mod Database
pub mod GitLocks
pub mod Graph
pub mod KvStore
pub mod Machines
pub mod Objects
pub mod Scheduler
pub mod Streams
