-- ===== src/Lib.antt =====
-- CyberMP: the protocol, the server, the client's network side and its work in the game's tick.
--
-- A client says hello to the server over UDP, gets an answer and, while it is connected, sends
-- snapshots of its player; the server keeps a session per peer, relays newer snapshots to the other
-- players, tells them of joins and leaves, answers pings, drops peers that fall silent and kicks
-- those that a script names. What the network thread of a client receives crosses to the game
-- thread by a task queue, a queue of events and a table of snapshots.
--
-- The files and the code they model:
--   Base: lists, options, tests, bytes, decimal numbers and sorting that the others share.
--   Wire: src/common/Serialize.hpp. Writer and Reader; Wire.Parse has the parsers without state that
--     the reader refines.
--   Proto: src/common/Protocol.hpp. Header, the eight messages, Encode, Decode, PeekHeader. A message
--     type is a record Format of its kind, flags, Write and Read; Proto.Spec.Lawful is what such a
--     type promises, and Proto.Lawful fills it for each message.
--   TaskQueue: src/common/TaskQueue.hpp.
--   Socket: src/common/Net.hpp, Net.cpp. Winsock is a record of functions on the state of the process.
--   Session: src/server/Session.hpp, Session.cpp, and net::Endpoint of src/common/Net.hpp.
--   Script: src/server/Script.hpp, ScriptHost.hpp, ScriptHost.cpp. A backend is a record
--     of functions; Script.Log is the log backend.
--   Lua: src/server/LuaBackend.cpp. Lua is a function from a call to its outcome and what it asks.
--   Server: src/server/main.cpp. Server.Startup is main before its loop, Server the handlers,
--     and one round of the loop.
--   NetClient: src/client/NetClient.hpp, NetClient.cpp. Connect, Disconnect and the sending of
--     hellos and pings; in NetClient.Handle the handling of a datagram, in NetClient.Run one turn of
--     Run, in NetClient.Game the calls of the game thread.
--   World: src/client/WorldSystem.hpp, WorldSystem.cpp. The bodies of remote players and the console's
--     switches; World.Aim and World.Drive are PumpRemotePlayers, World.Ticks the tick,
--     World.Console the console's spawns, connections and counts, and
--     World.Threads the ticks of several workers, step by step. The engine and the arithmetic on
--     floats are records of functions.
--   DebugApi: src/client/DebugApi.cpp.
--   NetTest: src/nettest/main.cpp. The rounds of pings, and in NetTest.Walk the walk.
--   Link: a client and the server together.
--   Tests: examples, with the data in Tests and one file for each part.
--
-- State is passed explicitly: a method takes the object and returns it with its result, and what a
-- thread does under one lock is one step. Numbers are natural numbers with the wrap-around of their
-- width written out; a float is its 32-bit pattern, since the protocol only copies its bits. A byte
-- string is a list of numbers, and theorems on received data assume that they are below 256. An
-- unordered map is a list of pairs in the order of insertion.
--
-- The loop over timed out peers (Server.drop_expired) is bounded by the number of sessions, since
-- each of its rounds removes one. The digits of a number (Base.Decimal) are taken on fuel 20, which a
-- number below 2^64 does not exceed. All other loops are recursion on a list or on a count.
--
-- Not modelled: clocks, signals, printing and threads as such, which are I/O (what they return is an
-- argument); winsock, Lua and sol2, the file system and the game's engine, which are not in the
-- repository (their calls are records of functions); the tables of players that a script gets, which
-- live in the interpreter; the plugin's entry points and DebugApi's Ping and Add, which are glue; the
-- texts that print floats (GetTickStats, GetPlayerPositionText); the unit tests.
pub mod Base
pub mod Wire
pub mod Proto
pub mod TaskQueue
pub mod Session
pub mod Script
pub mod Lua
pub mod Server
pub mod Socket
pub mod NetClient
pub mod NetTest
pub mod Link
pub mod World
pub mod DebugApi
pub mod Tests
