-- ===== src/Lib.antt =====
-- CapMesh: the parts of the server and of the agent that decide.
--
-- A client asks the server for a capture session. The session service (internal/application/session)
-- turns the targets of the session into capture sources, tells the agents of their nodes to capture
-- them, and keeps the session's record, its runtime, its packet pipeline and its desired state in
-- step while agents come, go and report. An agent (internal/application/agent) captures a source and
-- sends batches of packets; the stream service (internal/application/stream) puts the packets of a
-- session in order and deals them out to subscribers. The registry (internal/adapter/grpcserver)
-- holds the agents' connections, the repository (internal/adapter/memory) the sessions, and the
-- continuous service (internal/application/continuous) runs one session without an end. The recording
-- manager (internal/adapter/recording) writes each session's batches to a row of segment files, keeps
-- on disk which sessions are to be recovered, and lists and cleans up what was recorded. The capture of
-- workload logs (internal/application/logcapture) follows the containers of pods as they come and go.
--
-- Files:
--   Prelude, Text, Map: Booleans, lists, results and loops; Go strings as lists of bytes; Go maps as
--     association lists, whose order stands for the order in which Go happens to visit a map.
--   Domain: internal/core/domain/session.go and packet.go. Domain.Lifecycle has the diagram of the
--     states of a session.
--   Alias: internal/core/interfacealias/alias.go, Normalize and its pattern, with Unicode's white space
--     and the two letters outside ASCII whose lower case is in it.
--   Ports: the commands and errors of internal/core/ports/ports.go.
--   Repository: internal/adapter/memory/session_repository.go.
--   Stream: internal/application/stream: Heap is heap.go with container/heap's up and down; Stream is
--     emitUntil; Stream.Service is OpenSession, Publish, subscribe, CloseSession and run. Stream.Emit,
--     Stream.Invariant and Stream.Runs have the proofs.
--   Session: internal/application/session/service.go: Targets (normalizeTargets, validate), Sources
--     (resolveInitialSources, uniqueSources, sourceNodes, validateSourceDistribution), Service (the
--     state World and the steps that the operations share), Create, Stop, Nodes (updateSessionNodes,
--     reconcileRecovered, AgentConnected), Agents (AgentDisconnected, CaptureStatus), Reconcile,
--     Restore and Listing (List). The proofs on the targets are in Session.Targets.Normal, Shaped,
--     Bounds and Accepted. Session.Advance has the proofs that sessions only move forward.
--   Agent: internal/application/agent/service.go: Start, Stop, StopAll and remove; Agent.Forward is
--     forwardBatches as a step on the events of its select, and Agent.Counts and Agent.Totals have
--     the proofs on its counters.
--   Continuous: internal/application/continuous/service.go.
--   Registry: internal/adapter/grpcserver/registry.go.
--   Filter: internal/adapter/capture/filter.go: Compile, its cache and parseDecimalBPF; the run of
--     dumpcap is a function of the interface, the filter and the snapshot length.
--   Ring: internal/adapter/capture/afpacket.go: RingBudget, AFPacketConfig.Validate and NewAFPacket, and
--     in Ring.Requests ParseByteSize and validateCaptureRequest.
--   Recording: ParseSize of internal/adapter/recording/size.go.
--   Recovery: readRecovery and writeRecovery of internal/adapter/recording/manager.go, with the disks
--     that a crash of the process can leave of a write. The calls that are completed are taken to be
--     on the disk in their order, which the Go code, without fsync, does not ensure when the machine
--     crashes.
--   Recorder: sessionRecorder of the same file: Recorder has its segments, rotation and pruneOldest,
--     Recorder.Load loadExistingSegments, and Recorder.Run writeBatch, complete and the loop of run.
--   Manager: Manager of the same file: Start, in Manager.New NewManager and OnComplete, and in
--     Manager.Sessions Usage, the end of a recorder, Shutdown, SetSessionDesiredState and
--     RecoverableSessions.
--   Catalog: internal/adapter/recording/catalog.go: directoryUsage and readSessionMetadata,
--     Catalog.Scan (scanSessionRecordings) and Catalog.Cleanup (CheckNormalRecordingCapacity and
--     CleanSessionRecordings). Catalog.Oldest has the order of a cleanup and Catalog.Refuses why it
--     passes over a recording.
--   LogCapture: internal/application/logcapture/service.go: selectedContainers and reconcile, and in
--     LogCapture.Service validate, start, Restore and stop, and in LogCapture.Loop the loop of the job.
--
-- The state of each component is a record, and each operation a function from state to state, with a
-- Result or an Option for its error. An operation is one step: operations that run at the same time
-- in Go are sequences of steps here (the data types Call, Calls, Step and Reach), and what another
-- goroutine does between two locks of one operation is not modelled. The session service sees the
-- agents, the recorder, the resolver of workloads and the clock as a record of functions, Env, that
-- may differ from call to call. Cancelling a context takes its token or its loop off a list; the
-- goroutines and timers are such lists too.
--
-- Numbers: a duration is a number of nanoseconds, signed where the code tests its sign; a time is the
-- nanoseconds since Go's zero time. The sizes of files are natural numbers that do not wrap, since their
-- sums stay far below 2 ^ 63. The counters of forwardBatches and of a recorder and the product of
-- ParseSize wrap at 2 ^ 64, the fields of an instruction at their widths. Fuel: the loops of emitUntil
-- and of the heap run on the number of packets, which is enough since each round takes a packet or
-- moves to a parent or child; `decimal` has one digit more than it needs, and `format_uint` the five of
-- a snapshot length. pruneOldest and the cleanup of the catalog recur on the segments and recordings.
--
-- Not modelled: the commands under cmd, the gRPC servers and clients, Kubernetes, the capture engines
-- but for their filters and the memory of their rings, the packet files that a recorder writes, the
-- recorder of workload logs, metrics and logging: they are input and output, or stand behind the
-- functions of Env, Node, Setup, Forwarding, Io, StartIo and DeleteIo.
-- The file system is such a record of functions, which may fail at any call: what a recorder keeps of
-- the files is its own account of them, its metadata.
pub mod Prelude
pub mod Text
pub mod LogCapture
pub mod Manager
pub mod Map
pub mod Domain
pub mod Alias
pub mod Ports
pub mod Stream
pub mod Repository
pub mod Session
pub mod Agent
pub mod Catalog
pub mod Continuous
pub mod Recovery
pub mod Registry
pub mod Ring
pub mod Filter
pub mod Recorder
pub mod Recording
