-- ===== src/Lib.antt =====
-- The Longhorn instance manager: the processes of engines and replicas on one node, and the gRPC
-- services in front of them.
--
-- The process manager (pkg/process) starts a process for each engine or replica, gives it ports of a
-- pool, watches its state, and stops, replaces and unregisters it. Every change of a process goes
-- to a broadcaster (pkg/util/broadcaster), which fans it out to the watchers. The instance service
-- (pkg/instance) offers the same operations for two data engines: V1 through the process manager's
-- gRPC service, V2 through the SPDK engine. The disk service (pkg/disk) serves block disks through
-- the SPDK engine. The proxy service (pkg/proxy) passes requests on volumes, replicas, snapshots and
-- backups to the engine of a volume, for both data engines. pkg/client has a client for each of the
-- services, which checks the arguments of a call.
--
-- Prelude: shared names, tests, lists, integers, texts as lists of bytes, decimals, maps.
-- Util: ParsePortRange, ProcessNameToVolumeName, GetVolumeNameSHAStrFromPath and
--   IsMountPointReadOnly of pkg/util/util.go, ExecuteWithTimeout and its callers there in
--   Util/Execution.antt, parseEndpoint of pkg/util/grpcutil.go, and
--   AddTcpPrefixForAddress of pkg/types/types.go.
-- Process: pkg/process/process.go and pkg/process/healthchecker.go. `start`, `run_finished`,
--   `request_stop`, `stop_worker` and `probe_finished` are the sections of Start and
--   StopWithSignal; Process/Lifecycle.antt has the goroutines as steps in any order, where the
--   end of the command, the record of it, and the read and the write of the state without the
--   lock are steps of their own.
-- Ports: the bitmap of free ports, a library, as a record of operations and a record of laws; a
--   concrete pool in Ports/Pool.antt has them.
-- Manager: pkg/process/process_manager.go. A pointer to a process is a reference into a heap, so
--   the map and the goroutines share the object. Manager.antt has the sections under the manager's
--   lock, Manager/Handlers.antt the RPC handlers, Manager/Conditions.antt the check of the mounts
--   of engines, Manager/Streams.antt the loop of ProcessLog with the goroutine of StreamLog,
--   pkg/util/log.go, as steps on their channels, and Manager/System.antt the manager with the
--   calls of ProcessReplace under way, as a step relation.
-- Broadcaster: Subscribe, unsub and stream of pkg/util/broadcaster/broadcaster.go.
-- Rpc, Client: results and errors of calls; ProcessManagerClient of
--   pkg/client/process_manager.go.
-- Instance: pkg/instance/instance.go: Instance/Operations.antt has the operations of the two data
--   engines, Instance/Server.antt the handlers, Instance/Watch.antt the watch loops;
--   pkg/instance/log.go is Instance/LogLevels.antt.
-- Disk: pkg/disk/disk.go.
-- Proxy: pkg/proxy, a module for each group of operations; Proxy/Types.antt has the messages,
--   Proxy.antt the libraries of the engines as records of operations, and Proxy/Address.antt Go's
--   SplitHostPort and JoinHostPort. Credential, Backup and Restore are pkg/proxy/backup.go.
-- BackingImage: pkg/proxy/backing_image.go, pkg/client/proxy_backing_image.go and
--   pkg/api/backing_image.go.
-- InstanceClient, DiskClient, ProxyClient: InstanceServiceClient, DiskServiceClient and ProxyClient of
--   pkg/client, with the conversions of pkg/api/instance.go.
-- Stack: clients, servers and the process manager put together. Manager/Refinement.antt has the
--   abstract registry that the process manager stands for.
-- Examples: runs on concrete inputs.
--
-- Bounds and fuel. The polling loops recur on the number of rounds that the source gives them
-- (WaitCount, 30 rounds of ProcessReplace), so no fuel is added. The watch loops and handleNotify
-- recur on the list of the events that they meet. Ports are int32 in the source; `to_i32` is
-- written where a conversion wraps. What other goroutines do while ProcessReplace waits is a
-- function argument; the sections of the other handlers follow each other with nothing in between,
-- and so do two calls of a client in Stack.
--
-- Not modelled: the executor and its commands, loggers, TLS and gRPC set-up, the SPDK engine (a
-- parameter) and the libraries of the V1 engine, the command line, the ticker of the condition
-- check, ProcessWatch, the goroutines that InstanceWatch and SPDKBackingImageWatch set up, deadlines
-- of calls, the version and health calls, the clients' calls on log levels, and the texts of error
-- messages.
pub mod BackingImage
pub mod Prelude
pub mod Util
pub mod Process
pub mod Ports
pub mod Manager
pub mod Broadcaster
pub mod Rpc
pub mod Client
pub mod Instance
pub mod Disk
pub mod Proxy
pub mod InstanceClient
pub mod DiskClient
pub mod ProxyClient
pub mod Stack
pub mod Examples
