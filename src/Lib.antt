-- ===== src/Lib.antt =====
-- A verification of cork, the challenge orchestrator: the fleet of docker workers and the launch of
-- instances on them (cork/workers.go, cork/worker_reconcile.go, cork/launch.go and
-- cork/launchmetrics.go), the ports, rows and containers of an instance from its start to its end
-- (cork/database_instances.go, cork/docker.go and cork/api.go), which challenges an update changes
-- (cork/api.go), and how a build plane routes schemas to orchestrators (cmd/cork-build/routing.go and
-- cmd/cork-build/destinations.go).
--
-- A Manager keeps a map of worker connections, a placement order with a cursor, and database rows.
-- Each connection has two health axes: whether its docker daemon answers, which its poller and failed
-- control calls move, and its load, which telemetry moves. A new instance is placed on a worker
-- (selectWorker), admitted against that daemon's queue (admit), and launched in stages of which the
-- last ones hold one of the daemon's launch slots (launch). A worker that stops answering is ejected,
-- and comes back on a new connection (recoverWorker); an operator can take one down (SetWorkerDown).
-- An instance reserves its ports before it is launched (reservePort), records them with its containers
-- in the database, and gives both up when it stops (stopInstance) or expires (Prune).
-- The build plane resolves every schema to a destination, groups the schemas by orchestrator, and
-- refuses a run after which two orchestrators would serve one build.
--
-- Files and what they model; a model's name is the Go name in snake case:
--   Common, Common/*: tests and lists over native numbers, maps with string keys, int64, going round.
--   Errors: the error values of the code and the tests on them.
--   Worker/Timing: workerTiming, its environment overrides and their fitting (workerTimingFromEnv).
--   Worker/Conn: workerConn, setReachable, setLoad, eject, markWorkerDown, readyToRecover, placeable.
--   Worker/Timeouts: noteTimeout.
--   Worker/Probe: pollWorker and the probe closure that it runs.
--   Worker/Reconcile: runWorker, reconcileWithRetries, reconcileWorker, removeOrphans, findOrphans,
--     reclaimAfterGC.
--   Worker/Transport: noteWorkerTransportError.
--   Worker/Fleet: initWorkers, AddWorker, RemoveWorker, SetWorkerDown, recoverWorker and the lookups.
--   Worker/Select: selectWorker.
--   Launch/Ring: launchRing.add, stats and quantileIndex (cork/launchmetrics.go).
--   Launch/Queue: daemonQueue, recordHold and expectedWait, with the wrap-around of int64.
--   Launch/Admission: launchLimits, admit, launchFailure, envSlots.
--   Launch/Slots: acquireLaunchSlot and acquireSlot, as interleaved atomic steps.
--   Launch/Stages: launch, launchStages, ensureImages, imagePresent.
--   Ports: reservePort, claimPort, releasePorts, usedPortBitset, getPortRange.
--   Ports/Reassign: reassignPorts, and the port reservations of newInstance (cork/api.go).
--   Instance: the rows of an instance and the transactions on them (cork/database_instances.go).
--   Instance/Teardown: teardown, stopContainers, stopNetwork (cork/docker.go).
--   Instance/Stop, Instance/Create, Instance/Prune: Stop and stopInstance, Start and newInstance,
--     Prune (cork/api.go).
--   Instance/Converge: convergeBuildInstances, and the stops of cleanupSchemaResources (cork/api.go).
--   Instance/Restart: restartInstance (cork/database_instances.go).
--   Changes: classifyChallenges, classifyChallenge (cork/api.go) and safeToRefresh (cork/database.go).
--   Routing: resolve, routeSchemas and exclusivityConflicts.
--   Routing/Load: loadDestinations and validAddress.
--   Routing/Misrouted: misroutedSchemas and schemaServedElsewhere.
--   Examples, below each part: tests, and the theorems at concrete inputs.
--
-- State is passed explicitly. A call that holds a lock throughout is one step; the launch slots, which
-- are a channel and an atomic counter, are a step relation over any number of launches. Times are
-- nanoseconds on one clock, an argument `now`. What happens outside the program (the docker daemon,
-- the database, TLS, the environment, url.Parse) is an argument that says how it answered. Loops are
-- structural recursion (the scan of selectWorker has one round per worker), but for the retries of a
-- reconcile pass, which run on fuel: as many attempts as there are intervals in the budget, and one
-- more, are shown to be enough. Arithmetic on durations in the hold estimate wraps at 64 bits; the
-- theorems on it state the bounds under which it does not.
--
-- Not modelled: log messages and error texts; the docker client and HTTP; SQL beyond the rows of
-- workers, instances, ports and containers; and the rest of the repository: building challenges, the daemons' own
-- HTTP interface and the command line tools.
pub mod Common
pub mod Changes
pub mod Errors
pub mod Instance
pub mod Launch
pub mod Ports
pub mod Worker
pub mod Routing
