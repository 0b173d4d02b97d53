-- ===== src/Tests.antt =====
-- Concrete clients, stores and servers, and runs of the operations on them.
mod Fixtures
mod Store
mod Clients
mod Bus
mod Tokens
mod Prov
mod Cursors
mod Hist
mod Bolts
mod Databases
mod State
mod Run
mod Dir
mod HistCursors
mod Latest
mod Messages
mod AuthService
mod Things
mod StateClient
mod Web
