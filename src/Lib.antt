-- ===== src/Lib.antt =====
-- A model of sapvi, a node for private transactions: a virtual machine for zero-knowledge
-- programs, their binary format, a peer-to-peer network, and the wire format that both use.
--
-- The parts, and the files that model them:
--   Error            src/error.rs and src/net/error.rs: errors, and the outcome of a call, which is a
--                    value, an error or a panic.
--   Stream           readers and writers over memory: the bytes left to read, the bytes written.
--   Endian           src/endian.rs: `define_slice_to_le!` is `slice_to_le`, and so on.
--   Serial           src/serial.rs: `Codec` is the pair of the traits `Encodable` and `Decodable`;
--                    Ints, Signed, VarInt, Vec, Text and Addr hold its implementations under the names
--                    `encode_...` and `decode_...`; Wire has what the format promises.
--   Bls              src/bls_extensions.rs: the codec of a scalar.
--   Vm.Types         src/vm.rs: programs. Vm.Machine: `ZKVirtualMachine::initialize`, an operation as
--                    `step`, the loop as `run`; Vm.Circuit: `ZKVMCircuit::synthesize`, an instruction
--                    as `constrain`, the loop as `constrain_all`. Vm.Scalar: the scalar field.
--   Contract         src/lib.rs: `ZKContract` with its parameters, proving and verification.
--   VmSerial         src/vm_serial.rs: the decoders of operations, constraints and allocations;
--                    VmSerial.Format describes the bytes independently. VmSerial.Contracts: the
--                    decoder of `ZKContract` and the codec of `ZKProof`, with the maps of Maps.
--   Net.Async        src/async_serial.rs. Net.Messages and Net.Packet: src/net/messages.rs.
--   Net.Channel      src/net/channel.rs: the calls of a channel as steps on its flag, the bytes it
--                    has sent, its stop subscriber and a log of its calls on other objects; a call
--                    that panics there panics here.
--   Net.Dispatcher   src/net/message_subscriber.rs: `MessageDispatcher` with its subscriptions.
--                    Net.Subsystem: `MessageSubsystem`, and what a channel sets up in it.
--   Net.Hosts        src/net/hosts.rs; Net.Hosts.Overlap: calls of `store` from several tasks.
--   System           src/system: Subscriber, the broadcast of messages, and StoppableTask, where
--                    `Race` says which branch of `select!` completes first.
--   Net.P2p          src/net/p2p.rs and settings.rs: the pending and the connected addresses.
--   Net.Acceptor     src/net/acceptor.rs: the loop, on what the listener gives.
--   Net.Outbound     src/net/sessions/outbound_session.rs, session.rs and src/net/connector.rs: how a
--                    slot takes an address, connects, and registers the channel; Net.Outbound.Slots:
--                    all slots of a node, with the other sessions, as a step relation.
--   Net.Version      src/net/protocols/protocol_version.rs: a task is a step function on where it
--                    stands; Net.Version.Links joins two nodes, with runs in any order of the tasks.
--   Net.Protocols    protocol_ping.rs, protocol_address.rs and protocol_seed.rs of src/net/protocols,
--                    and seed_session.rs: loops over the list of what a subscription receives.
--   Service          src/service/reqrep.rs: requests and replies.
--   Crypto           src/crypto: Fr is fr_serial.rs, Schnorr schnorr.rs and util.rs, Note note.rs and
--                    diffie_hellman.rs, Coin coin.rs, Revealed and Proofs mint_proof.rs and
--                    spend_proof.rs. Group and Primitives are what these call of other crates.
--   Tx               src/tx.rs: transactions and their codecs; Tx.Unsigned: the encoding without
--                    signatures; Tx.Build: `TransactionBuilder`, a loop of `build` each a function;
--                    Tx.Verify: `Transaction::verify`, with `none` where a loop returns false.
--                    Tx.Complete, Loops, Outputs and Signing follow the builder to Tx.Sound.
--   Tests            runs at concrete inputs.
-- The operations and constraints of a contract are decoded by VmSerial, with the codecs of Serial;
-- Vm.Machine runs the ones and Vm.Circuit enforces the others. A message is encoded by a codec,
-- framed by Net.Packet, sent by Net.Channel, read by the other side's receive loop and handed to
-- the subscriptions by Net.Dispatcher. Tx.Build makes proofs, notes and signatures with Crypto and
-- encodes with the codecs of Serial what Tx.Verify encodes again to check the signatures.
--
-- Bounds. Numbers are unbounded with the wrap-around of the machine types written out; the host is
-- little-endian with 64-bit addresses, and counts of bytes written are assumed not to overflow. A
-- vector may hold up to isize::MAX bytes; to ask for more panics, and less is assumed to be there.
-- Lists are finite, and so are streams: a read past the end is the error of an ended stream. The
-- receive loop runs on fuel, one unit for a packet and one for the end, with a proof that enough
-- fuel ends it; all other loops recurse on their input.
--
-- Parameters. The scalar field (crate bls12_381), the constraint system (crate bellman), the
-- random numbers, the size of an address in memory and the TCP stream are arguments; what is
-- assumed of the first two stands in `IsScalars` and `IsSystem`. The Groth16 calls of a contract
-- and its two-way map (crate bimap, `IsBiMap`) are arguments too. So are the Jubjub group, the
-- hashes, the cipher and the prover of Crypto, under `IsJubjub`, `IsPrimitives` and `IsGroth16`;
-- the circuits of src/circuit stand behind the prover, and that their proofs are accepted is the
-- hypothesis `IsComplete`. The random generator is a count of draws, with the scalar of each draw
-- a parameter. A stream takes the bytes of a message or refuses them as a whole. What a task does
-- under a lock is one step; where several calls of one task are one function, no other task comes
-- in between, and Net.Hosts.Overlap, Net.Outbound.Slots and Net.Version have the orders of the
-- tasks.
--
-- Not modelled: setup and its files; logging and printing; executors and time; the inbound session
-- and the job manager of src/net; the graphical and command-line programs and the database, which
-- are input and output; the constraints of src/circuit, and lisp. src/crypto/merkle.rs is an
-- adapted copy of another project's tree.
pub mod Prelude
pub mod Error
pub mod Stream
pub mod Crypto
pub mod Endian
pub mod Serial
pub mod Vm
pub mod VmSerial
pub mod Bls
pub mod Contract
pub mod Net
pub mod System
pub mod Service
pub mod Tx
pub mod Tests
