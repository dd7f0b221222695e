-- ===== src/Lib.antt =====
-- A model of cks-loadtest, a load generator for the Buddy servers of Crowded Kingdoms: many
-- simulated clients that send signed actor updates over UDP and measure what comes back.
--
-- The program's parts. `Config` (src/Config.hpp, src/Config.cpp) is the runtime configuration. A
-- `Harness` (src/Harness.cpp) provisions clients through a GraphQL API (src/Provisioner.cpp) and
-- hands them to `Worker` threads (src/Worker.cpp). A worker owns its clients (src/SimClient.hpp): it
-- opens their sockets, sends their updates in the wire format of src/Wire.hpp, signed as in
-- src/Hmac.hpp, and takes inbound datagrams apart. What needs the API goes as a `ControlRequest` on a
-- queue that all workers share; the control thread answers with a `ClientUpdate`. All of them move
-- the counters of `Stats` (src/Stats.hpp, src/Stats.cpp), which windows ("rungs") cut into pieces.
--
-- The files. A function of the source has its name here in lower case with underscores.
--   Base, Platform    numbers, lists, bytes and words; what comes from outside the repository:
--                     floating point and OpenSSL, as records of operations and documented laws
--   Wire              src/Wire.hpp and src/Hmac.hpp: message codes and offsets, the actor update
--                     (Wire.ActorUpdate), capabilities, inbound messages, bundles. A buffer is a
--                     list of bytes and a write is `put`
--   Stats             src/Stats.hpp and src/Stats.cpp: the counters as a record, one function per
--                     method. A method runs as one step, and counters wrap at 64 bits
--   Config            src/Config.hpp and src/Config.cpp: the file (Config.File), the layers and the command
--                     line (Config.Settings, Config.Load) and the checks. An `int` is an integer
--   Control           the messages between workers and the control thread, and their queue
--                     (src/Worker.hpp)
--   Worker            src/Worker.cpp. Worker.Client is one client with what its worker shares with
--                     the other threads, Worker.Receive, Worker.Send and Worker.Lifecycle are the
--                     handlers for one client, Worker.Loop the loops over the clients and one round
--                     of `run`. System calls, clocks and the datagrams are arguments. What the worker
--                     asks of the client's movement is the interface Worker.Simulation
--   Graphql           src/GraphQLClient.cpp: the request and the reading of the answer, with libcurl
--                     and the JSON library as records of operations. Graphql.Action is what a call
--                     does that changes a state and returns or throws
--   Provisioner       src/Provisioner.cpp: retries, roster, sign-in, tokens, servers, and the threads
--                     that provision a range, which take turns. The texts of the errors that the
--                     program itself raises are names
--   Harness           src/Harness.cpp: the control thread's handling of a request, the distribution
--                     over workers, the adds, the rungs and the end of the run, with the API behind
--                     the interface Harness.Api
--   ControlServer     src/ControlServer.cpp: the routes and their guard
--   Placement         src/SimClient.hpp: the slot of a client in the cube, and the projection of its
--                     position to chunks
--   Movement          src/SimClient.hpp: the sparse placement, the walk, and the message of a client; it
--                     fills the interface Worker.Simulation. What the source draws with the standard
--                     library comes from the record Movement.Random
--   Tests             concrete instances at which the theorems are used
--
-- Fuel. The loop over a bundle runs on the length of the datagram plus one rounds; a round moves
-- the offset by two at least, and Wire.Bundle.Split proves that this is enough. The attempts of a
-- request run on three rounds, and Provisioner.Retry.Attempts proves that each ends in an answer. The direction of a
-- client is drawn until it is long enough; the draw after `retries` short ones is taken as it is, and
-- no theorem depends on that number.
--
-- Not modelled: the JSON form of the counters and the merge of the hosts, the fleet controller
-- (src/ctl.cpp), the HTTP library, the options that cxxopts parses, console output, starting and
-- joining of threads. Steps of different threads are not interleaved below the level of a method, or
-- of the provisioning of one client. Out of range indices, which the source leaves undefined, are
-- noted where they are given a value.
pub mod Base
pub mod Platform
pub mod Wire
pub mod Stats
pub mod Config
pub mod Control
pub mod Worker
pub mod Harness
pub mod ControlServer
pub mod Graphql
pub mod Provisioner
pub mod Placement
pub mod Movement
pub mod Tests
