-- ===== src/Tests.antt =====
-- Concrete keys, connections and buffers, and the theorems of the library applied to them.
mod Data
mod Keys
mod Phases
mod Traffic
mod Peers
mod Versions
mod Connection
mod Buffers
mod Protocols
mod Handshake
mod Compression
mod Judged
mod Startup
mod Modes
mod Bounded
mod Token
mod Profile
