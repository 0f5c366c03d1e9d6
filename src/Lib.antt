-- ===== src/Lib.antt =====
-- A model of parts of goto, a server for testing and chaos engineering, and what holds of it.
--
-- The parts, with the code's files under pkg/:
-- - Params: what handlers read of a request. Params/Mux is util/muxutil.go (GetStringParam,
--   GetStatusParam), Params/Port is util/portUtil.go (GetRequestOrListenerPort and its cache in the
--   request store), Params/Numbers is what they use of strconv (Atoi, ParseInt, Itoa),
--   Params/Regexp is the interface of Go's package regexp, a parameter of the filters and of
--   ApplyStatusConfig.
-- - Probes: server/probes/probes.go, the readiness and liveness probe of each port. A probe's
--   fields are those of PortProbes; set_probe, set_probe_status, clear_probe_counts and
--   middleware_func are the functions of these names.
-- - Filter: server/request/filter/filter.go, the filters `ignore` and `bypass`. Filter has the
--   state and the handlers, Filter/Serving the tests of a request, Filter/Patterns the texts of the
--   regular expressions, Filter/Chain the middleware over both filters, Filter/History any sequence
--   of calls on one filter, Filter/Promised the entries that a sequence of calls is to leave,
--   Filter/Kept that it leaves them.
-- - Status: server/response/status. Status/Config is one StatusConfig of statusManager.go,
--   Status/Manager the StatusManager (SetStatusFor, GetStatusFor, Clear; Status/Manager/Payload:
--   ApplyStatusConfig), Status/FlipFlop the function flipflop of status.go, Status/Server the
--   handlers of status.go and its middleware.
-- - Uri: server/request/uri/uri.go, the statuses and delays of single URIs. hasURIConfig is
--   find_uri_config, GetURIStatus get_uri_status, computeURIStatus compute_uri_status, in
--   Uri/Serving.
-- - Headers: types/headers.go, header configs with their unions and what they do to headers.
-- - ResponseHeader: server/response/header/header.go, the headers of each port's responses, with
--   the copying of request headers in util/httpHeadersUtil.go.
-- - Timeouts: server/request/timeout/timeout.go; the middleware is the two steps arrive and
--   end_request.
-- - Delay: types/delay.go and RandomDuration of types/random.go; Delay/Server is
--   server/response/delay/delay.go (setDelay, delay, the middleware).
-- - Tracking: server/request/tracking/tracking.go, the counts by header and URI for each key and
--   port: trackRequest, TrackingData.track (track_call), the function track (track_request_of),
--   Track (track_hook), the handlers, and the middleware, whose goroutine is a step of its own.
--   Tracking/Reachable has the steps.
-- - Trigger: server/response/trigger/trigger.go. Trigger has the state, Trigger/Deleting
--   deleteTrigger with the slices it changes in place, Trigger/Handlers the other handlers,
--   Trigger/Matching findMatchingTriggers and the tests of headers of util, Trigger/Invoking what
--   is sent and counted.
-- - Jobs: pkg/job. Jobs has the manager, initJobRun (its two halves under two locks are steps of
--   their own), runCommandWithInput and the loop of executeJobRun, Jobs/Results storeJobResult,
--   GetLatestJobResults, getJobResults and getJobsToRun, Jobs/Starting starts of a job one after
--   the other and interleaved.
-- - Locker: registry/locker/locker.go. Locker/Tree is the tree of keyed data (Locker, LockerData
--   and the unsafe functions), Locker/Data is DataLocker, Locker/Peer is PeerLocker, Locker/Combi
--   is the peers' part of CombiLocker, Locker/Combi/Reading what is read of it. Locker/Labeled has
--   LabeledLockers, whose lockers stand in a store under addresses: NewCombiLocker,
--   unsafeCreateOrGetLocker, OpenLocker, GetLocker and GetOrCreateLocker; Locker/Labeled/Clearing
--   has deleteLocker and ClearLocker, Locker/Labeled/Handlers the routes of registry/lockerApi.go
--   that change them, with ContextLockers. Locker/Labels cuts labels at their commas.
--   Locker/Labeled/Linked states how the maps and pointers fit together, Locker/Labeled/Promised
--   what the routes promise.
-- - Registry: registry/registry.go, the peers with their pods and epochs, over the open locker of
--   Locker/Combi: unsafeAddPeer, addPeer, rememberPeer, removePeer, clearPeerEpochs.
--   Registry/Pushed has the targets, jobs and probes that are kept for peers. Registry/Promised
--   states what the calls promise, Registry/Lockers what they do to the data in the open locker.
-- - Prelude: lists, integers, texts and maps that the others share. Tests: the theorems at concrete
--   requests.
--
-- The middleware chain puts a request store into the request's context, then asks the filters, the
-- probes, the URIs and the status server, which leaves alone a request that has a status of its
-- URI's. All of them take the port of a request from Params/Port.
--
-- How the code is read. A handler is a function from the request and the state to the new state and
-- an answer. A map is an association list, in an order in which `range` may go. A pointer into a
-- map is a write back under its key; a pod's current epoch is written in the pod and at the end of
-- its address' epochs. A text is a list of bytes, and letters are ASCII letters. An int is an
-- integer without bounds, except that ParseInt and Atoi fail outside their bits; the counts of a
-- probe wrap at 2^64 as the code has it. A lock makes an operation one step; where a handler can
-- panic while it holds a lock, the lock is part of the state, and a call that finds it held waits
-- for ever. Random choices, the clock, the path of a request's URL, time.ParseDuration,
-- http.Header.Get, http.CanonicalHeaderKey, strings.ReplaceAll, what an invocation answers, what a
-- task does in an iteration, and whether a URI's pattern matches are arguments. A function that can
-- panic returns an Option, with none for the panic, where the state after it is not followed. Itoa
-- runs on fuel, one more than the number, and a number has no more digits than that; deleteLocker
-- runs on the number of lockers made so far, and a locker comes after its parent, so that none is
-- deeper than that; all else is structural recursion.
--
-- Not modelled: logs, events, metrics, response headers and bodies, channels, schedules, the JSON
-- decoder, handlers that only report or read over several lockers, dumps of lockers, and the rest
-- of the program.
pub mod Prelude
pub mod Params
pub mod Probes
pub mod Filter
pub mod Status
pub mod Uri
pub mod Headers
pub mod ResponseHeader
pub mod Timeouts
pub mod Delay
pub mod Tracking
pub mod Trigger
pub mod Jobs
pub mod Registry
pub mod Locker
pub mod Tests
