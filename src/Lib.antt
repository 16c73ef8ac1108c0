-- ===== src/Lib.antt =====
-- A verification library for the core logic of the VPN client and its service.
--
-- The service holds one `TunnelManager` (Tunnel/src/TunnelManager.cpp), which owns the tunnels; each
-- tunnel drives a protocol engine behind `IVpnEngine` and tells the rest of the service, over the event
-- bus and two hooks, what state and which session it is in. What traffic goes where is decided by the
-- `PolicyEvaluator` (Routing/src/RoutingRules.cpp) over address ranges, host names and paths, which rest
-- on the addresses of Networking/src/IpAddress.cpp and the texts of Core/src/StringUtil.cpp.
--
--   Prelude      Booleans on numbers, byte strings, lists and integers that the other modules share.
--   Core         Core/include/NovaVPN/Core: `Status` and `Result` (Status), the enumerations of Types.h
--                (Types), StringUtil.cpp (Text, with what is shown of it in Text/Trim, Split, Hex and
--                Find), and `globMatch` (Glob, with its meaning in Glob/Matches and the proof in
--                Glob/Correct); the numbers and names of the codes (Codes), `json::get` over the JSON
--                library (Json), the classification of Windows error codes (WinError) and the atomic
--                write of FileUtil.cpp (FileUtil, with FileUtil/Atomic).
--   Networking   Networking/src/IpAddress.cpp: the readers and writers of literals (Literal,
--                with what is shown in Literal/Octet, V4, Words, V6 and Fuel), `IpAddress` (Address, with
--                Address/WellFormed), `IpRange` (Range, with bits in Range/Bits and Range/Masks, and
--                what is shown in Range/Containment, Range/Construction and Range/Reading), `Endpoint`,
--                `HostEndpoint` and host names (Endpoint); Statistics.cpp and Statistics.h (Statistics).
--   Routing      Routing/src/RoutingRules.cpp: the rules and their evaluation (Rules, with what is shown
--                in Rules/Best, Rules/Domains, Rules/Ranking and Rules/Decisions) and
--                `RoutingPolicy::validate` (Policy, with what is shown in Policy/Checks and
--                Policy/Enforceable). Routing/src/RouteManager.cpp:
--                the entries, their documents and what is loaded (Routes), the calls of the forwarding
--                table and of the write of the ledger (Routes/Machine), the table of a ledger
--                (Routes/Ledger), the methods (Routes/Actions) and their sequences (Routes/Operations).
--                The order of the calls is in Routes/Journal and Routes/Ordered, what is shown of the
--                documents in Routes/Reading and of the default routes in Routes/Capture.
--   Tunnel       Tunnel/src/TunnelManager.cpp: the class `Tunnel` (Tunnel, with what is shown over all
--                runs in Tunnel/Events and of single calls in Tunnel/Lifecycle, Connecting and Identity)
--                and the class `TunnelManager` (Tunnel/Manager, with its map in Manager/Table and
--                Manager/Sharing, and what is shown in Manager/Invariant, Runs and Calls).
--   Services     Services/src/IpcProtocol.cpp: the verbs (Methods), the messages (Protocol, with
--                Protocol/RoundTrip and Protocol/Accepted), the payload of `Hello` (Hello) and the frames
--                (Framing), with the reads and writes of a pipe of Services/src/IpcServer.cpp; what is shown
--                of them is in Framing/Bounds, Framing/Stream and Framing/Writing. IpcServer.cpp: `dispatch`
--                and the loop of a connection (Server, with Server/Guard and Server/Arrival).
--   Examples     The theorems at concrete inputs; Examples/Host has a JSON library to run with.
--
-- A `std::string` is the list of its bytes, an `int` a number, and a fallible function returns an
-- `Option` or a `Result`. A method of a class is a function of the object's state that returns the state
-- after it. Operations keep the names of the source, with words joined by an underscore.
--
-- An engine is not modelled: each call of it has an argument that holds its answer, the status that it
-- returns and the callbacks that it makes meanwhile, and the theorems hold for every answer. So do they
-- for the answers of the engine registry and of `Profile::validate`, and for any id of `Uuid::generate`
-- that is not empty. A method runs as a whole between two callbacks, as under the tunnel's mutex; the
-- interleavings of two threads inside one call are not modelled, nor are the destructors.
--
-- The JSON library, the system's texts for its error codes and the pipe are parameters, each with its
-- documented behaviour as a hypothesis by name. A method of the route manager is a program that names the
-- calls it makes of the forwarding table and of `json::writeFile` and goes on with each answer; what is
-- shown of it holds for all answers. A pipe is the list of what its reads and writes find. The hash map of
-- the tunnel manager is a list in the order of iteration, and a run of the manager may change that order
-- at any time, as it may go on with a call or a callback of any tunnel that is held.
--
-- Loops are structural, but for these, which have fuel: `glob_loop` with `enough_fuel` rounds, that is
-- (length of the text + 2) * (length of the pattern + 1); `v6_loop` with one round for a byte of the text and one more (Literal/Fuel), since each round but the last passes a
-- colon, and `decimal_loop` and
-- `hex_loop` with one more round than the number, which every round divides. A rate, a `double` in the
-- source, is kept as an amount for an interval, so nothing is rounded.
--
-- Not modelled: the platform layer (sockets, adapters, drivers, the firewall, the registry, DPAPI), the
-- database and its statements, the logs, the profiles and their readers, the service host, the threads
-- and the security of its pipe and the client of it, the split-tunnel engine and the updater, the user
-- interface in C#, and the copy of SQLite.
mod Prelude
pub mod Core
pub mod Networking
pub mod Routing
pub mod Tunnel
pub mod Services
mod Examples
