-- ===== src/Lib.antt =====
-- reiny: five parts of it. The link between two reiny processes over a byte stream, a state machine
-- that does no input or output of its own (crates/reiny-link/src/link.rs), with its wire format
-- (crates/reiny-link/src/wire.rs), over the static port contract of crates/reiny-core/src/lib.rs;
-- the bindings of modules, their reports and graphs (crates/reiny-core/src/bindings.rs and
-- bindings/report.rs); the step scheduler (crates/reiny/src/step and encoded.rs); and the state of
-- a job (crates/reiny/src/job).
--
-- The parts, and how they interact. The link: a frame is a header (magic, epoch, kind, endpoint
-- hash, sequence number), a payload and a CRC; on the wire it is COBS-encoded and ends in a zero
-- byte. A link keeps a send buffer, a receive buffer, its own declarations, the peer's table from
-- the Hello that both sides exchange, and the requests that it waits for. `feed` puts bytes into
-- the receive buffer, `next` takes the frames out of it and makes events of them, `drain` and
-- `drain_frame` take bytes out of the send buffer, `tick` tells the time, and `send`, `request`,
-- `reply` and `reply_err` queue frames.
--
-- The bindings: a host hands a module its bindings, the module reports the ports that it was
-- compiled with, and the host checks bindings, reports and the graph of all of them before it
-- starts anything. The scheduler: a graph of nodes is compiled into a plan, and
-- `advance_controlled` runs the nodes of a plan in order on the inputs of a request, and commits
-- the clock and the outputs that the next tick reads, or leaves a fault. A job is a snapshot behind
-- a lock, which its worker, its handles and its owner modify one at a time.
--
-- The files:
-- - Core: the port types of crates/reiny-core/src/lib.rs.
-- - Wire: wire.rs. Types has its constants, kinds and errors, Hash `type_hash` and `endpoint_hash`,
--   Frame `seal`, `parse`, `encode` and `decode_in_place`, Text the rules for names, Table the
--   entries of a Hello, Writer and EntryWriter and HelloWriter `hello_write`, Reader and
--   EntryReader and HelloParser `hello_parse`. Each has its lemmas in child modules. Codec is the
--   interface to the crates crc and cobs.
-- - Link: link.rs. State has its types, Lookup the searches in its tables, New the constructors,
--   Declare the declarations, Emit what queues a frame, Buffers the two buffers, Handshake
--   `validate_hello` and `on_hello`, Dispatch `dispatch`, Receive `next` and `tick`, Send the calls
--   that send, Read what reads a frame through its handle. Pending is about the table of requests.
-- - Bindings: Types and ReportTypes have the data, Names the rules for names, Contract the checks
--   of an address and a contract, Module `ModuleBindings::validate`, Report `validate_report`,
--   Graph `validate_graph`.
-- - Step: Types has the data of graph.rs and status.rs, Values value.rs and encoded.rs, Plan
--   plan.rs, Request request.rs, Execution execution.rs, and Clock, Node and Scheduler
--   scheduler.rs.
-- - Job: Types has the data of types.rs, State the operations of state.rs on a snapshot, and the
--   end of the task that `JobOwner::start` spawns, Owner the owner with its workers.
-- - Tests: a concrete codec, runs of the definitions, and the theorems at concrete inputs.
-- - Prelude: what the others share.
--
-- How state and operations correspond. A `&mut self` method is a function from the link to its
-- result and the link that it leaves; one that may fail returns a `Result`. A buffer is the list of
-- its bytes, a string the list of its UTF-8 bytes, an array of `Option` the list of its slots, and
-- a reference to a static port its place in the table. A `BTreeMap` is an association list in the
-- order of its keys, and a `Duration` its number of nanoseconds. An advancement is a function from
-- the scheduler and the executor's state to an outcome and both of them: a receipt, an error, a
-- future that is dropped, or a panic. Integers are natural numbers, and the wrap-around of `u8`,
-- `u16` and `u32` is written out where the source wraps.
--
-- Bounds and fuel. `feed` runs on fuel of two rounds for each byte and one more, since only a round
-- that finds the buffer full takes no byte, and the next one does; `next` runs on one round for
-- each byte received and one more, since a round that is followed by another takes a byte out.
-- `next_seq` tries the 256 sequence numbers there are. The loop that orders the nodes of a graph
-- has a round for each node, since each round takes one out, and the loop of `shutdown` one for
-- each worker, since each round takes a worker out or passes it, and one more. `N`, `FRAME` and the
-- buffers' sizes are parameters.
--
-- What is not code of the repository is a parameter: crc and cobs (Codec, with the laws IsCodec
-- that their documentation states), and prost (the length and the bytes of a message, and a
-- decoder). So are the executor of the nodes, any function that passes its own state on and tells
-- how a node ends, panics included, and how the host's `Commit` ends. Two panics at once, which
-- abort a process, count as one.
--
-- Not modelled: the texts of errors, getters of one field; engine.rs, host.rs and transport.rs of
-- crates/reiny-link, which drive a link over threads and devices; the waits on the channel of a
-- job; the rest of crates/reiny, the SDK on top of its engines; and the other crates.
pub mod Prelude
pub mod Bindings
pub mod Core
pub mod Wire
pub mod Link
pub mod Step
pub mod Job
pub mod Tests
