-- ===== src/Lib.antt =====
-- Verification of muka-ai-trim, a proxy pair that sends the bodies of AI requests as programs of
-- literals and references to blocks that the other side already stores.
--
-- Parts, in the order of a request. The agent's splitter turns a body into a program and the blocks
-- that the peer lacks (crates/muka-split/src/splitter.rs, in Splitter); spans come from the JSON
-- scanner (crates/muka-split/src/json.rs, in Json) or from content-defined chunks
-- (crates/muka-split/src/cdc.rs, in Chunks). Programs, blocks and their costs are in Program,
-- limits and statistics in Policy, digests in Digest. The codec puts frames, programs and blocks
-- on the wire (crates/muka-proto/src/codec.rs and varint.rs, in Codec and Varint; msg.rs in
-- Message). The peer keeps blocks in a store (crates/muka-store/src/lib.rs, in Store), expands a
-- program with `resolve`, asks for blocks with `missing_blocks` (crates/muka-split/src/program.rs,
-- in Resolve), and serves a connection frame by frame (`remote_end` and `rebuild` of
-- crates/muka-gateway/src/session.rs, in Session). It sends a Bloom filter of its blocks
-- (muka-store/src/lib.rs, in Bloom), which with the blocks just pushed (muka-split/src/presence.rs, in
-- Presence) is what the agent's side believes that the peer has. The agent's side of a connection is
-- `local_end` (session.rs, in Session/Local and Session/Reply); the choice of payload, the pool and the
-- attempts of a request are in Agent (muka-gateway/src/local.rs), settings in Config (config.rs),
-- counters and recent turns in Metrics (metrics.rs), the link's bytes in Io (muka-proto/src/io.rs) and
-- what is packed on it in Compress (muka-proto/src/compress.rs). The headers that the peer sends to the
-- model provider are in Upstream (muka-gateway/src/upstream.rs). Common has the shared tests, lists and
-- results; Examples has concrete runs.
--
-- How state corresponds. A struct is a record and an enum a data type; a `&mut self` method is a
-- function to the next state. `Reader` carries its buffer and position, and the decoders chain on
-- it in the monad of Codec/Decoding. `Builder::lit` is `flush`; `split_groups` is the loop over the
-- groups and the end of `split_body`, which is in Splitter/Body with the groups' choice in
-- Splitter/Candidates. The hash map of the store is an
-- association list under one lock, so an operation is one step; the clock is an argument. The loop
-- of `remote_end` is `remote_step` over the frames that arrive; its inner repair loop is a phase of
-- the state, and the upstream call an effect, taken to succeed. `local_end` is an upload, as the list
-- of its frames, and a step for each frame of the peer; what the reads and writes of the link meet and what the dials
-- give are arguments, a failing read or write and an agent that has gone away among them; a link that
-- neither delivers nor closes is left out. A panic of the Bloom filter or of a frame's header is `none`, and that of
-- a slice of a JSON string outside its buffer the error `panicked`.
--
-- Numbers are natural numbers with the wrap-around of a release build written out, `usize` being of
-- 64 bits. blake3, the zstd crate, and the JSON text of the control messages are
-- parameters.
--
-- Fuel. `resolve` runs on the number of rounds that its program can take within the depth limit; a
-- number is read in ten rounds; `missing_blocks` spends its limit; a scan runs on the length of the
-- buffer, each of its rounds taking at least one byte; a request makes two attempts at most.
--
-- The lookups that `rebuild` makes change only recency and counters, so it reads a fixed store and
-- `rebuild_reads` lists what it looks up.
--
-- Not modelled: the upstream's HTTP call and the relay of its response's body, TLS, the HTTP server
-- of the agent's side, the console's pages and the command line: I/O and calls of other libraries.
-- The zstd crate is a parameter: what packs (`zstd::bulk::compress`) and what reads a packed stream are
-- arguments of Compress (crates/muka-proto/src/compress.rs), with which Session packs and unpacks.
-- The JSON text of control messages is read and written by serde. Ratios are floats. Locks and
-- concurrent requests are left out: each operation is a step of its own.
pub mod Common
pub mod Varint
pub mod Digest
pub mod Program
pub mod Resolve
pub mod Json
pub mod Policy
pub mod Chunks
pub mod Splitter
pub mod Codec
pub mod Store
pub mod Bloom
pub mod Io
pub mod Compress
pub mod Message
pub mod Presence
pub mod Config
pub mod Metrics
pub mod Session
pub mod Agent
pub mod Upstream
pub mod Examples
