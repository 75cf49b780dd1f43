-- ===== src/Lib.antt =====
-- easy-mc-server lets friends join a Minecraft room that runs on the computer of one of them. This
-- library models the parts that decide who gets in and over which way:
--
--   Protocol    packages/protocol/src/index.mjs: the actors, the actions and the states that the
--               services share, and `canActorPerform`, the check of who may do what.
--   Simulation  services/control-plane/src/domain/simulation.mjs: rooms, invites, join requests and
--               sessions of the control plane, which asks Protocol for each call of a host.
--   Service     services/control-plane/src/services/room-service.mjs and
--               services/control-plane/src/persistence/memory-store.mjs: the room service of the
--               control plane over a repository, and the repository that keeps all in memory.
--   HostRuntime apps/desktop/src/runtime/host-runtime.mjs: on the computer of the host, whether a room
--               can be opened, the plan of its files, and the states of its server.
--   HostTunnel  apps/desktop/src/tunnel/host-tunnel.mjs: the tunnel that the host asks the relay for;
--               its frames are the requests that Relay is handed.
--   Transport   services/control-plane/src/transport/candidates.mjs: the candidates that participants
--               submit, and the choice between a direct connection and the relay.
--   Relay       services/relay/src/relay-simulation.mjs: the tunnels of hosts and the streams of
--               friends, each opened on a session that the control plane issued, with quotas.
--   Mods        packages/compatibility-engine/src/index.mjs and packages/mod-catalog/src/index.mjs:
--               whether a set of mods fits together, and the pack that is made of catalog entries.
--   Prelude     what they share: strings that may be undefined, JavaScript's Map, lists, results.
--
-- A part's state is a record with the fields of the source's closure, and an operation is a function
-- of the same name in snake case from the arguments and the state to the new state and the answer,
-- `ok` or `err` with the reason. The modules called Run put the operations together: a history is a
-- list of calls, each with its time, and the theorems on histories hold after all of them. In Relay,
-- openHostTunnel and closeHostTunnel are in Tunnels, authorizeSession and validateSession in
-- Sessions, openFriendStream in Streams, recordTransfer and relayEcho in Transfers, disconnectStream
-- in Disconnect, readMetrics in Reports. In Simulation, createRoom and heartbeatHost are in State,
-- the operations on invites in Invites, those on join requests and sessions in Requests. In
-- Service, the repository is a record of operations (Repository) with laws on what can be seen, the
-- store in memory fills it (Memory, InMemory), and a call of the service is a chain of steps that ends
-- with the first that fails (Steps): createRoom, createInvite, revokeInvite and regenerateInvite in
-- Rooms, createJoinRequest and decideJoinRequest in Joins, and the reads and the writes of the latter,
-- between which another call may come, in Overlap. Machine is what the service promises: the moves that
-- a call of an actor may make. A transaction is the chain itself. In Transport, submitCandidate is in
-- Exchange, and selectTransport and resolveDirectAttempt in Selection. In HostRuntime, joinPath
-- and the tests of names are in Paths, on lists of characters; selectSupportedMinecraftVersion and
-- resolveFabricLoader in Input, the plans of files in Layout, validateHostRuntime and
-- createHostRuntimePlan in Plan, simulateLifecycleTransition in Lifecycle, createApprovalUiState in
-- Approvals. In Mods, normalizeSelectedMod is in Entry, evaluateModMetadata in Metadata,
-- resolveDependencyPlan in Plan, evaluateCompatibility in Verdict, createCuratedPack in Catalog; a
-- set of ids is a list there, and an error that is thrown is a refusal.
--
-- What comes from outside is an argument: the time of a call, the random uuids and tokens, the answer
-- of the session service that the relay asks, and the failures of the attempts to disconnect. The
-- SHA-256 of a token is a parameter. Where a uuid must be new, the histories say so (`AreFresh`).
-- Calls do not overlap in a history: a call on the room service, which awaits its repository, is done
-- before the next begins, as behind a repository that runs transactions one after another. The store in
-- memory runs none: there the parts of two decisions may come apart, as Overlap has them, and the
-- history theorems of Service say nothing of that. A request to the relay whose session service answers with a promise is two calls,
-- `hears` and `opens_later`, between which others may come.
-- Numbers are natural numbers, but for the version of Java, an integer: times, sizes and counts that
-- the source takes from clocks and lengths;
-- a number of bytes that is handed to a transfer may be anything, as it may be in the source, and
-- passes only below 2^53. The one loop that is not over a list, the attempts to disconnect, is
-- bounded by its own limit, at least one attempt.
--
-- Not modelled: the event log's striking out of secrets (events are kept as they are before it), the
-- hooks for tests, the printing of texts for users, fields that are constant; and the other parts of
-- the repository: the room service's repository in SQL, the HTTP layer, the rest of the desktop
-- application, the builder of mod packs, the package for safety, and the mods of the game.
pub mod HostRuntime
pub mod HostTunnel
pub mod Mods
pub mod Prelude
pub mod Protocol
pub mod Relay
pub mod Service
pub mod Simulation
pub mod Transport
