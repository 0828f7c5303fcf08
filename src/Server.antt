-- ===== src/Server.antt =====
-- deep_inc/server: the parameter server. State has the structures of server.h and msg.h, Queue the
-- engine's queue of queue.h, Load the choice of an engine thread, Responses the answers, Handler the
-- request handler and Engine an engine thread of server.cc.
pub mod State
pub mod Queue
pub mod Load
pub mod Responses
pub mod Handler
pub mod Engine
pub mod Rounds
pub mod Start
