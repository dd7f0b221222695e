-- ===== src/Worker.antt =====
-- src/Worker.cpp, src/Worker.hpp and the client's control fields of src/SimClient.hpp: one worker
-- thread. What the worker shares with the others, the counters and the control queue, is passed
-- along. System calls and clocks enter as arguments; a handler reads each clock once for one datagram.
pub mod Client
pub mod Simulation
pub mod Receive
pub mod Send
pub mod Lifecycle
pub mod Keeps
pub mod Loop
pub mod Gauges
pub mod Refresh
