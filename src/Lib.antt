-- ===== src/Lib.antt =====
-- A model of the core of the lokinet daemon: the link protocol between two routers, the table of
-- known nodes, and the small structures that they stand on.
--
-- Lokinet routers speak IWP over UDP. A session (llarp/iwp/session.cpp) does a handshake, seals
-- each packet, splits messages into fragments of 1024 bytes (llarp/iwp/message_buffer.cpp), sends
-- them until they are acknowledged, and hands each complete message to its link layer. The link
-- layer and the router above count what they see of other routers (llarp/profiling.cpp), and keep
-- nodes in buckets (llarp/dht/bucket.hpp). Threads pass work to each other in bounded queues
-- (llarp/util/thread/queue.hpp), records are written as bencode (llarp/util/bencode.cpp), names
-- are looked up by DNS (llarp/dns), and the daemon is configured by ini files (llarp/config/ini.cpp).
--
-- Base: the names that all share; lists, maps, bytes and differences of times. Base.Bytes has
-- `htobe16buf` and the other conversions of llarp/util/endian.hpp.
--
-- Iwp.Packet, Iwp.Acks, Iwp.Inbound, Iwp.Outbound: `CreatePacket`, the bitset of acknowledged
-- fragments, and the two message buffers. A method that changes the buffer returns it, and what it
-- sends; `std::bitset::set` and `test` out of range, and the read of the command of a packet that
-- has none, are the outcome `out_of_range`. Loops over a 16-bit index have fuel for the 8 fragments
-- that a message can have; for a larger message the outcome can be `unfinished`. Iwp.Agreement,
-- Iwp.Reassembly and Iwp.Delivery have their theorems.
--
-- Iwp.Session: the session as a record of its members. Each operation takes what it reads of the
-- outside as `Env` (the clock, randomness, the crypto library, the router's own keys) and returns
-- the session; datagrams, calls of the link layer and of completion handlers are appended to
-- `events`, and what `QueueWork` is given to `jobs`. State has the record, Crypt the sealing of
-- packets, Send `SendMessageBuffer`, `SendMACK` and `Pump`, Tick the timers, Receive the commands of
-- `HandlePlaintext`, Handshake the intro messages and `Recv_LL`. Frame, Fresh, Once, Acked,
-- Macks, Timers, Expiry, Untouched, Lims, Opening, Plaintext, Reachable, Total, Whole, Sealed and Auth have
-- their theorems. Within one call all draws of random bytes of one length give the same bytes.
--
-- Util: DecayingHashSet and DecayingHashTable with the clock as an argument; Codel, whose cells are
-- empty once their item was destroyed.
--
-- Util.QueueManager: llarp/util/thread/queue_manager.cpp, the ring of generations that threads share
-- without a lock. Steps has one step per atomic access of a call, with a program counter for each
-- thread; Threads composes steps of any number of threads in any order, and Exclusive has the theorem
-- on them. Util.Queue: llarp/util/thread/queue.hpp for one thread that runs alone, whose calls take
-- at most 4 steps of the manager (`alone`), since no other thread makes it try again; a call that
-- has not returned by then is `none`. The calls that block on a semaphore are not modelled.
--
-- Util.Buffer, Util.Bencode: `llarp_buffer_t` as what lies before its cursor, what lies behind, and its
-- size, and the readers and writers of bencode on it. A call gives a value and the buffer, or fails.
-- Util.Buffer.Access composes calls that write a text, and calls that read it.
-- `bencode_discard` and the loops over lists and dictionaries have fuel: each round reads a byte
-- at least, so the size of what is left is enough.
--
-- Config.Ini: `ConfigParser`, with files as their contents. Its containers have no order: a section is
-- how often it has each key with each value, and `Save` is given the order in which its iterations
-- visit the overrides.
--
-- Dns: Dns.Name has `EncodeName` and `DecodeName`, Dns.Message the messages of llarp/dns/message.cpp with
-- their questions and records. The loop of `DecodeName` has fuel: each round reads a byte of memory.
--
-- Profiling: the counters of llarp/profiling.cpp, 64 bits wide, and whom they tell to avoid.
-- Profiling.Codec: the file that they are saved to.
--
-- Dht: keys, their XOR distance, and buckets as lists in the map's order.
--
-- Consensus.Reachability: llarp/consensus/reachability_testing.cpp, with the queue of failing routers as
-- a list in the order of the times at which they are tested again.
--
-- Times are milliseconds as natural numbers that do not overflow; where the source takes a difference
-- that may be negative, the test it makes is written out. The cipher, the keyed hash and the
-- signatures are parameters: only Iwp.Session.Sealed asks something of them, in `CipherLaws`.
--
-- Not modelled: sockets and the event loop, the encoding of link intro messages and of
-- signed records, paths, hidden services, the DNS server and its replies, exits, RPC, QUIC, and the
-- configuration's options. A mutex makes each call of the structures that have one atomic.
mod Base
pub mod Iwp
pub mod Util
pub mod Dht
pub mod Dns
pub mod Profiling
pub mod Config
pub mod Consensus
