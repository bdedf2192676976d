-- ===== src/Lib.antt =====
-- A model of boardcommd, a daemon that passes messages between the programs of a board and between
-- boards, and of the theorems that its parts satisfy.
--
-- The program. Clients publish messages with a topic, or with a channel, to the daemon. The message
-- bus (src/daemon/message_bus.c) hands a message to the subscribers on this board whose pattern
-- fits its topic, and sends it to other boards by the transport that the router
-- (src/daemon/router.c) picks from the configuration (src/daemon/config.c). On a transport a
-- message is a frame with a checksum (src/daemon/protocol.c); one with more than 1392 bytes of
-- payload goes out as two fragments, which the receiving bus collects in a table of 16 slots
-- (src/daemon/fragment.c). A message that comes in from a transport is delivered, forwarded,
-- bridged to another transport, and acknowledged.
--
-- The files:
--   * Base: the library's names and the helpers that all modules share; Base/Tests the Boolean
--     tests, Base/Lists lists over the native numbers, Base/Memory bytes, little-endian words and
--     strings.
--   * Types: api/bc_types.h.
--   * Topic: src/daemon/topic_match.c. Topic/Sound says what matches.
--   * Crc: bc_crc32 of protocol.c, which is the loop of bc_file_crc32_update of api/bc_file.c.
--   * Protocol: src/daemon/protocol.c. Protocol/Layout has the bytes of the header; the proofs are
--     in Protocol/RoundTrip, Protocol/Accept (hostile bytes) and Protocol/Stream (partial frames).
--   * Fragment: src/daemon/fragment.c. Fragment/Slots is about the search for a slot,
--     Fragment/Invariant about the table, Fragment/Chunks and Fragment/RoundTrip about sending and
--     collecting, Fragment/Leak about slots that are not free again.
--   * Config: src/daemon/config.h and the functions of config.c that work on the record;
--     Config/Numbers has atoi, Config/Word the words of the file format. Config/Load has
--     bc_config_load, over the model of sscanf and fgets in Config/Scan. Config/Valid is about the
--     validation, Config/Bounds about what a file fills in, Config/SocketUid about one of its lines.
--   * Router: src/daemon/router.c; Router/Spec describes it by searches in lists.
--   * Ipc: src/daemon/ipc_protocol.h.
--   * Bus: the state of src/daemon/message_bus.c (with src/daemon/stats.c) and its small
--     operations. Bus/Send has the four functions that send, Bus/Deliver the delivery to clients,
--     Bus/Publish and Bus/Inbound the two entry points. The proofs: Bus/Subscriptions and Bus/Table
--     for the table of subscriptions, Bus/Local for the delivery, Bus/Verdict for the status of a
--     publication, Bus/Keeps, Bus/Flow and Bus/Accounting for what the operations keep.
--   * Shm: the rings of src/shm/bc_shm.c, in which a client and the daemon pass frames; Shm/Window is
--     about bytes in a ring, Shm/Queue about a ring as a queue, Shm/Write and Shm/Read about
--     the operations.
--   * Client: the bytes that wait to be sent to a client, of src/daemon/client_manager.c;
--     Client/Pending says what is kept of them. Client/Frame has the checks on the frames that a
--     client sends, with Client/Frame/RoundTrip, and Client/Dispatch what such a frame does, with
--     Client/Dispatch/Publish on the frames that the bus delivers. Client/Receive has the loops over
--     the receive buffer and over the ring, with Client/Receive/Serve and Client/Receive/Drain on
--     what they make of a list of requests, Client/Receive/Fuel and Client/Receive/DrainFuel on
--     their end, and Client/Receive/Stuck on a frame that stays. Client/Table has the list of clients
--     and what is written to them, with Client/Table/Deliver, and Client/Event the handlers of
--     events, with Client/Event/Close.
--   * Daemon: how src/daemon/main.c reads frames from a transport. Daemon/Stream is about a buffer of
--     frames, Daemon/Pieces about a stream that arrives in pieces, Daemon/Fuel about the end of the
--     loop.
--   * Reactor: src/daemon/reactor.c. Reactor/Table is about the table of descriptors.
--   * Endpoint: bc_parse_endpoint of src/transport/endpoint.h.
--   * Tcp: the state and the send queue of src/transport/tcp/tcp_transport.c, and in Tcp/Connect
--     the connection as a state machine, with its start in Tcp/Open. Tcp/Queue and Tcp/Flush are
--     about the bytes to send, Tcp/Invariant, Tcp/Handle and Tcp/Steps about the states that it can
--     come to, and Tcp/Retry about the timer.
--   * Uart: the device, the RS-485 line and the timer of src/transport/uart/uart_transport.c;
--     Uart/Send has what it sends and receives, Uart/Events how it is opened and what it makes of
--     events. The proofs are in Uart/Invariant, Uart/Flow and Uart/Steps for the variables, and in
--     Uart/Line and below for the line and the timer that the kernel sees.
--   * File: the packets of api/bc_file.c, which carries files in messages; File/Control is about the
--     control packets, and File/Send has the function that sends a packet. File/Receive is the
--     receiver: File/Receive/Steps has rounds of its loop, File/Receive/Whole and
--     File/Receive/Start are about a file that arrives whole, File/Receive/Safe about what is left
--     at the path, File/Receive/Jam about an END packet that comes too early. File/Transfer is the
--     sender: File/Transfer/Cache is about the chunks that it keeps, File/Transfer/Sent about what
--     it sends, File/Transfer/Nack about what it sends again.
--   * Api: the client library of api/bc_client.c. Api.antt reads and builds frames, Api/Send has the
--     functions that send. Api/Stream is about transfers in pieces, Api/Build and Api/Control about
--     what the daemon makes of the library's frames, and Api/Read about what the library makes of
--     the daemon's.
--   * Tests below each of them: runs at concrete inputs.
--
-- How the state corresponds. A C struct is a record with the same fields. A `char` array is the
-- string that it holds, without the NUL; a buffer with a length is the list of the bytes in use; an
-- array with a count is the list of the entries in use; a pointer into an array is an index, and
-- NULL is `none`; the descriptor -1 is `none`. A function that changes a struct returns the changed
-- record. Words of 16, 32 and 64 bits are natural numbers with their wrap-around written out, and
-- structs are copied to bytes in little-endian order, as on the boards that the daemon runs on. The
-- checks for NULL arguments that no caller passes are left out, but for the topic of a match and of
-- a subscription.
--
-- What other code does is a parameter: the `send` of a transport and the deliver function of the
-- bus are functions on a world `W` that return any status, and `emit` of bc_fragment_publish and
-- the reactor's bc_reactor_mod are such functions too, as are `close`, the timers and `malloc`. What
-- `send`, `recv`, `read`, `accept4` and `connect` reply is a list or an argument.
--
-- A ring of shared memory is written by one side and read by the other; a call of an operation is
-- one step of the model, and the size in the ring is the one that it was created with.
--
-- Fuel. Loops over arrays are recursion on the list; the loops of bc_fragment_publish and
-- bc_message_bus_remove_client recurse on the number of rounds left, which the C condition bounds
-- by the number of fragments and of subscriptions, and the loop of shm_write_frame on its 10000
-- rounds. The loops that call the kernel, of flush_client_tx, write_all, read_all, tcp_send and
-- others, recurse on a list of what the kernel replies; after the last reply they may not have
-- returned, which their results say. process_messages, drain_client_shm and
-- process_transport_frames recurse on rounds; the events that call them give one more than there
-- are bytes in the buffer or in the ring, since each round that goes on takes some bytes out
-- (Client/Receive/Fuel, Client/Receive/DrainFuel, Daemon/Fuel).
--
-- Not modelled: the listening socket of the client manager, the mapping of shared memory and the
-- connections of the client library, which are system calls; bc_fill_sockaddr_in; the transport
-- manager and the UDP and UDP-KCP transports, most of which is calls of sockets and of the vendored
-- library in src/transport/udp/kcp; that library; the log, which only prints, and the examples.
pub mod Base
pub mod Types
pub mod Topic
pub mod Crc
pub mod Protocol
pub mod Fragment
pub mod Config
pub mod Router
pub mod Ipc
pub mod Bus
pub mod Shm
pub mod Client
pub mod File
pub mod Api
pub mod Tcp
pub mod Uart
pub mod Reactor
pub mod Daemon
pub mod Endpoint
