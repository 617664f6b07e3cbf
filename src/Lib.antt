-- ===== src/Lib.antt =====
-- The chat server and client with peer-to-peer file transfer: a model of their code and what is
-- proved of it.
--
-- Parts and files.
-- Base, Base/Bools, Base/Lists, Base/Maps: shared names, Boolean tests on numbers, unsigned words,
-- lists, and std::map from strings to numbers. Base/Cases has case lemmas of options and sums.
-- Socket: TCP::read(), TCP::readn() and TCP::writen() of include/dog_socket.h, over the results of their
-- system calls. Socket/Exact is about what they move.
--   - Socket/System: the system calls as a record of functions on a world, and a process that they may
--     end. Socket/Address has the other functions of class Communication and class TCP over them, and
--     Socket/Kernel one such system for tests.
--   - Socket/Epoll: class Epoll. The interest list is what its calls of epoll_ctl() make of it.
-- Protocol: the messages of protocol/dataflow.h.
--   - Protocol/Structs: the structs Raw, their bytes and read_data(). Protocol/Bytes has numbers in
--     little-endian order and readers of bytes, Protocol/RoundTrip reads each struct back.
--   - Protocol/Dispatch: send_data(), and get_type() of protocol/gen_dataflow.h with the cases of each
--     program. Protocol/Framing is about streams of messages, Protocol/Cut about a message whose stream
--     ends within it.
-- Server: server/server.cpp and server/server_dataflow.cpp.
--   - Server/Environment: the database, the cipher, the sockets and the memory behind a string, which
--     are parameters; what a theorem needs of them it takes as a hypothesis.
--   - Server/Actions: the action() of each message and Epoll::visitor(). A message is an input, and
--     what is handed to send_data() is recorded in the state, newest first.
--   - Server/Sessions and Server/Closing are about the table `lookup`, Server/Mail about messages to
--     accounts that are not logged in, Server/Accounts about registration and recovery,
--     Server/Active about the list of active accounts, Server/Sending about everything that is sent,
--     and Server/Conformance about its types.
--   - Server/Loop: visitor() within class Epoll. Server/Start: main().
-- Client: client/client.cpp and client/client_dataflow.cpp.
--   - Client/Environment: what sockets, files and memory give, as parameters.
--   - Client/Actions: struct Global, the action() of each message and Epoll::visitor(). What is
--     printed is left out.
--   - Client/Commands: the commands of main(), with the words of the input as arguments, and its loop
--     over the input.
--   - Client/Threads: the turns of the two threads, that of the commands and that of the Epoll. A command
--     or an event is one turn. Client/Joined is about the table and the interest list over them, and
--     Client/Start has main().
--   - Client/Transfers is about the messages of two clients before a file is sent, and says what of
--     Client/Environment is FileUDP::len() and FileUDP::open_receive_port() of FileUdp/Ports.
--   - Client/Peers is about the connection between two clients, Client/Routes about where a
--     command sends its message, Client/Input about the whole input.
-- FileUdp: the reliable file transfer of protocol/file_udp.h and protocol/file_udp.cpp.
--   - FileUdp/Ack: struct DatagramACK. `update` is update(), `is_acked` isAcked(), `bottom_ack`
--     bottom_ack(). Naks and Entries prove facts of the entries and of the loops over them,
--     Invariant the representation invariant, Received states the abstract set of received numbers,
--     Refine relates the two, and Bottom is about the lowest missing number.
--   - FileUdp/Window: template class Window over any interval and cell type. A failed assertion of
--     operator[] or raw_ptr() is `none`. The vector is a function from its indices.
--   - FileUdp/Datagram: the constants, struct Datagram and the memory that fwrite() reads.
--   - FileUdp/Udp: UDP::recv() and UDP::recvfrom() on the result of a system call.
--   - FileUdp/Ports: class Jam, the rest of class UDP, and class Real_FileUDP, which opens the ports and
--     starts the threads. Ports/Binding is about the addresses.
--   - FileUdp/Receiver: receiver(). `step` is one round of its first loop and `linger` of its second,
--     `next` the one that the thread is at, `run` a sequence of rounds. Transfer states the invariant
--     of a transfer, Flush is about the write, Safety about a round, Runs about any number of rounds,
--     Tail, Hang and Short about the end of the loop.
--   - FileUdp/Reading: fread() into the cells of a window.
--   - FileUdp/Sender: sender(). `sender` is its beginning, `go_on` one round of its loop up to the
--     receiving call, and `hear` what it does with the result of that call. Memory is about fread(),
--     Source about the payloads that a file gives, Transfer states the invariant, ReadOn, Rounds and
--     Replies keep it, Keeping and Frame are about what a round leaves alone, Safety about every step, Progress
--     about the rounds between two receiving calls. Tracking and Missing are about the queue of lost
--     packets, Resent, Resending and Recovery about the round behind a time limit, Waiting about where
--     the thread stands behind a round and behind a reply, Late about a reply that comes behind a later
--     one.
--   - FileUdp/Link: the two threads and the network as a step relation. Packets may be lost, repeated
--     and reordered; replies may be lost and the last one repeated, but none overtakes another.
--     Receiving and Sending are about one end each, Invariant states what holds of both, Arrivals
--     and Steps keep it, Delivery is about what comes of the file. Live, Moves, Ready, Advance and
--     Completion are about how a transfer can go on.
--
-- Numbers. `unsigned` and `size_t` values are natural numbers; sums and differences that can wrap do
-- so modulo 2 ^ 32 or 2 ^ 64. Bytes are numbers that are only moved.
--
-- The loops of receiver(), readn() and writen() are run over a list of results of system calls, of any
-- length, and use no fuel. Only reading a whole stream of messages (receive_all of Protocol/Dispatch)
-- has fuel: one unit for each message and one for the end. The loops of sender() over its queue and over
-- the packets on their way count down as the code does.
--
-- The operating system is outside: each receiving call's result is an input, the bytes handed to
-- fwrite() and the replies handed to UDP::send() are outputs, and the calls of the wrappers go to a
-- record that is a parameter. A receiving call of a transfer gives what has come or times out; the error
-- of a port that refuses packets (ECONNREFUSED), when a receiver has closed its socket, is left out.
-- A word of the client's input is one that is shorter than the array that it is read into. A message
-- whose stream ends within it is read with zeros behind, and a type number that is cut short with what
-- was in memory, which is a parameter. Datagrams shorter than struct Datagram
-- and write errors of the file are not modelled. Logging is left out. reference/ and dirty_test/ are
-- not modelled: no program is built from them.
pub mod Base
pub mod Client
pub mod FileUdp
pub mod Protocol
pub mod Server
pub mod Socket
