-- ===== src/Lib.antt =====
-- The QUIC key schedule and the CRYPTO streams of never_fox.
--
-- never_fox speaks HTTP/3 through a copy of Firefox's QUIC stack, of which the repository replaces
-- some files; these are its Rust code. This library models
-- native/h3/files/neqo/neqo-transport/src/crypto.rs (crypto.rs below), where a connection keeps its
-- keys and the bytes of its TLS handshake, and the TLS agent that it drives: agent.rs, lib.rs,
-- cert_compress.rs and parts of ssl.rs and constants.rs in native/h3/files/nss-rs/src.
--
-- The parts, from the inside out:
--   Types, Types/Words   the enums (Epoch, CryptoDxDirection, errors) and machine words
--   Nss                  what is called in nss-rs and version.rs: AEAD, header protection, HKDF
--   Dx                   CryptoDxState: one key, with its packet numbers and the uses it has left.
--                        Numbers: used, continuation, next; Limits: encrypt; Reads: decrypt;
--                        Same: what a key keeps; Uses: what encrypt takes; Opens: decrypt after
--                        encrypt
--   AppData              CryptoDxAppData: a key for application data with its next secret. Chain:
--                        its key updates; Header: its header protection; Uses: its limit
--   States               CryptoStates: all keys of a connection. Select: which key a packet uses;
--                        Initial: init, confirm_version, discard; Install: the set_... methods;
--                        Update: key updates and the overlap check; Sync, Rotate, Run: the phases of
--                        both sides; Start, Versions, Retry, Phase: how keys come into use;
--                        Traffic, Traffic/Kept: packets among the key updates; Traffic/Limit,
--                        Traffic/Reads: the uses of keys; Each, Traffic/Each: what holds of each
--                        key; Secrets, Connect, Peers: from the secrets of the handshake to a
--                        packet at the other end; Cycle: a key update between two ends
--   Streams              CryptoStreams: Buffers has the interface of the buffers and the packet;
--                        Write: write_frame; Chunks, Frames, Loop, Whole: what it writes; Spaces:
--                        which spaces have a stream; Bounded: how much is held
--   Crypto               Crypto: the agent (Crypto/Agent, as an interface), streams and keys
--                        together. Records: buffer_records; Keys, HandshakeKeys, Application,
--                        Order: installing and discarding keys; Setup: Crypto::new; SetupCalls,
--                        Profile: its calls;
--                        Handshake: handshake over the agent of agent.rs; Party: the methods for a
--                        client or a server; Token: what a resumption token holds
--   Alpn                 the list of protocols that set_alpn of agent.rs gives to NSS; Decode: a
--                        reader of such lists
--   Socket, Session      the calls that configure NSS, and what is read of a session
--   Tickets              the queue of resumption tickets of agent.rs; Last: what it keeps
--   Agent                the handshake of SecretAgent in agent.rs. Outcome: where it ends; Configure:
--                        its settings; Parties, Certificates: Client and Server; Does: the calls
--                        of a method; Fair, Fair/Steps, Judged: what NSS is told of a certificate;
--                        Bytewise: the handshake on bytes, close, tickets and exported keys; Modes:
--                        handshakes on records and on bytes
--   Compression          the callbacks of agent.rs for compressed certificates, and cert_compress.rs;
--                        Exact: what they accept
--   Startup              how lib.rs starts NSS; Once: what it does when NSS runs already, and
--                        when it is started twice
--   Base                 tests, lists, results with a state, and rules for what a method keeps
--   Tests                concrete instances, and the theorems applied to them
--
-- The methods of Crypto take secrets from the agent and hand them to CryptoStates, and the records
-- of the agent to CryptoStreams; CryptoStates makes, continues and drops values of CryptoDxState.
-- A method on `&mut self` is a function from the state to a result and the state, which comes back
-- after an error too (Base/Outcome). A method that returns a reference to a key returns the place
-- of that key (States.Slot). A panic is an outcome of its own.
--
-- The build is the release build: no debug assertion is checked, and u64 and usize arithmetic
-- wraps. Instants are numbers. Logging is left out. Versions are the three that crypto.rs
-- configures. Objects that NSS owns are handles, and every result of NSS is left open.
--
-- Fuel: the loop of write_frame has one unit for each byte that the packet has room for, and one
-- more; each round that goes on writes a frame, so this is enough. `bit_length` reads 64 bits of a
-- word of 64.
--
-- Not modelled: raw pointers; getters of a whole field, and what only prints; tables of constants
-- of the generated bindings; and the Python and C code of the repository. The encoder of neqo-common
-- and the transport parameters are not in the repository: the token is over their bytes.
-- send_stream.rs, recv_stream.rs and the packet builder are not in the repository: they are
-- parameters, with the laws that crypto.rs relies on in Streams/Buffers and Streams/Bounded.
-- So is the cell of the crate once_cell, with its documented laws in Startup.
pub mod Base
pub mod Types
pub mod Nss
pub mod Dx
pub mod AppData
pub mod States
pub mod Streams
pub mod Alpn
pub mod Tickets
pub mod Crypto
pub mod Compression
pub mod Startup
pub mod Session
pub mod Socket
pub mod Agent
pub mod Tests
