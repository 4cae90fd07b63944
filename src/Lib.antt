-- ===== src/Lib.antt =====
-- mc-router: a gateway that reads the handshake of a Minecraft client and forwards the connection to
-- the backend that the requested host name selects.
--
-- The parts of the program and where they are modelled:
-- - internal/hostaddr: HostAddr (`Normalize`); its laws in HostAddr/Laws, the texts it leaves alone in
--   HostAddr/Plain.
-- - internal/mcproto: Mcproto/VarInt (`ReadVarInt`, `WriteVarInt`), Mcproto/Packet (`ReadPacket`,
--   `BuildPacket`, `EncodeString`, the status packets), Mcproto/Handshake (`ReadHandshake`,
--   `ParseHandshakePayload`), Mcproto/Login. A reader takes the bytes of the stream and returns what it
--   read with the rest of the stream; a 32-bit number is a natural number below 2 ^ 32.
-- - internal/config: Config has the types and `Defaults`; Config/Fields, Config/Sections, Config/Voice,
--   Config/Routes and Config/Validate have the checks. A check returns the fields in error, in the
--   order in which `Validate` joins them. The machine (name resolution, environment, URL parser) is the
--   parameter `Env`.
-- - internal/router: Router (`New`, `Select`), over the configuration that passed the checks.
-- - internal/clientpolicy, internal/proxyprotocol and internal/bedrockroute: ClientPolicy,
--   ProxyProtocol and BedrockRoute; ProxyProtocol/Line and ProxyProtocol/Block have the layouts of the
--   two versions of a header.
-- - internal/ratelimit: RateLimit; the mutex makes each `Allow` one step on the table. The arithmetic
--   of float64 is the parameter `Float`. RateLimit/Laws has the bound of the table and what becomes of
--   other clients, RateLimit/Own what becomes of the client itself.
-- - internal/discovery: Discovery/Annotations (`ParseServiceAnnotations`, `DropDuplicateHosts`),
--   Discovery/Merge (`MergeRoutes`), Discovery/Controller (`BuildDiscoveredRoutes`), Discovery/Watch
--   (`ServiceWatchController`, `ResolveNamespace`) and Discovery/Supervisor (`WatchSupervisor.Run`): a
--   watch is a function of the sequence of its events, a supervisor one of the sequence of its runs.
--   Discovery/Statics and Discovery/Candidates have the two sides of the merge, Discovery/Accounting and
--   Discovery/Precedence what holds of the whole.
-- - internal/udprelay: UdpRelay/Resolver (the resolvers and `New`), UdpRelay/Sessions (the sections under
--   the mutex) and UdpRelay/Relay (the loops, one round each); UdpRelay/Steps, UdpRelay/Expiry and
--   UdpRelay/Forwarding have what holds of them.
-- - internal/proxy: Proxy/Snapshot (`BuildRouteSnapshot`, the reloads), Proxy/Answers (the fallbacks and
--   the status override), Proxy/Writing (`writeAll`), Proxy/Connection (`handleConn`). A connection is
--   a function of the state in force when it is accepted, of what the client sends and of what the
--   network does (dials, writes, deadlines), which are arguments. Proxy/Stages, Proxy/Admission,
--   Proxy/Relaying and Proxy/Metrics have what holds of it, Proxy/SnapshotLaws and Proxy/Reloads what
--   holds of the reloads.
-- - internal/voicechat: VoiceChat/Packet (`ParseClientPacket`, `ParseUUID`), VoiceChat/State (each
--   section of runtime.go under the mutex, as a function on the tables), VoiceChat/Handlers (the
--   registration API, `forwardClientPacket`, `expireLoop`) and VoiceChat/Backend (the read loops). The
--   `id` of a session stands for the identity of its object. VoiceChat/Steps has the sections as a
--   relation, in any order that goroutines may take the mutex in.
-- - internal/availability: Availability (`Probe`, `checkAll`, `run`), with the network and the companion
--   as arguments; its laws in Availability/Laws.
-- - cmd/mc-gateway: Startup (`loadStartupWithDiscovery`, the reload by SIGHUP), put together from the
--   discovery and the proxy; its laws in Startup/Laws.
-- Router.New calls Validate, which calls ClientPolicy.new, ProxyProtocol.parse_cidrs and
-- BedrockRoute.normalize_host; all of them normalize host names with HostAddr.normalize.
--
-- Prelude has tests, lists, maps (association lists for Go's maps), integers and sorting. Go has the
-- functions of Go's standard library that the program uses: texts as lists of bytes, UTF-8, netip,
-- strconv and net.SplitHostPort.
--
-- Loops are structural recursion; the loop of ReadVarInt runs on a count of five bytes and that of
-- WriteVarInt on five groups, which 32 bits never exceed; the loop of a version 1 PROXY header runs on
-- the 107 bytes that may follow its first. The order in which Go walks a map is the order of the list,
-- and the theorems hold for any.
--
-- writeAll runs on a round for each byte, which is enough, since each call but the last takes one. A call
-- of Write that fails may still have taken a part of the bytes.
--
-- Not modelled: the accept loop and the copying goroutines of internal/proxy, the start of
-- internal/voicechat, the Kubernetes client and the delays of its supervisor, the RakNet proxy, the
-- file watch, metrics, logging and the main function of cmd/mc-gateway: they are wiring around
-- sockets, timers and other projects' libraries.
pub mod Prelude
pub mod Go
pub mod HostAddr
pub mod Mcproto
pub mod Config
pub mod ClientPolicy
pub mod ProxyProtocol
pub mod BedrockRoute
pub mod Router
pub mod RateLimit
pub mod Discovery
pub mod VoiceChat
pub mod Proxy
pub mod UdpRelay
pub mod Availability
pub mod Startup
pub mod Examples
