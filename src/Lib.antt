-- ===== src/Lib.antt =====
-- hvnetpp is a network library in the manner of a reactor: an event loop per thread waits for
-- events of descriptors, and calls the owners of the descriptors back. This library models its
-- core as functions, and proves what they do.
--
-- Parts, and how they interact. A Channel stands for a descriptor: which events its owner waits
-- for, and which callbacks an event calls. The Poller keeps the channels known to epoll. An
-- EventLoop polls, lets the active channels handle their events, and then runs the functors
-- that other threads have queued for it, through a lock-free queue (MpscQueue over
-- CircularBuffer). A TimerQueue keeps Timers in order of expiration behind one timerfd. A
-- TcpConnection owns a channel, an input and an output Buffer, and a state; a TcpServer accepts
-- connections through its Acceptor, names them and keeps them.
--
-- Files:
-- - Prelude: tests, lists over native numbers, results of code that may abort, size_t, signed
--   integers.
-- - Buffer: include/hvnetpp/Buffer.h, src/Buffer.cpp. Buffer/Valid has the invariant of the
--   indices and the making of room; Buffer/Contents and Buffer/Input say what the methods do to
--   the readable bytes.
-- - Channel: include/hvnetpp/Channel.h, src/Channel.cpp; Channel/Dispatch is about handleEvent.
-- - Poller: src/Poller.cpp, and Channel::update and Channel::remove, which go through the loop
--   to it. Poller/Sync is about the agreement of channel, poller and kernel, Poller/History
--   about all channels together, Poller/Wait about poll.
-- - Timer: src/Timer.cpp, include/hvnetpp/TimerId.h, and howMuchTimeFromNow of
--   src/TimerQueue.cpp.
-- - PairSet: std::set of pairs, as the timer queue uses it.
-- - TimerQueue: src/TimerQueue.cpp. Owned has the invariant, Ops, Cancel, Expire, Reset, Fire
--   and Handle one operation each, Requests has the calls of EventLoop that set timers, Destroy
--   the destructor, Calls what the callbacks that handleRead runs ask of the queue, and
--   Calls/Outcome what becomes of each timer by it. History has the calls of several threads
--   with the functors pending between them; Sound, Lifetime and Race are about these, and
--   Returns adds the end of addTimer, which reads the timer after its functor is queued.
-- - TcpConnection: src/TcpConnection.cpp. Sound has the invariant; Send, Write, Moves (what
--   handleWrite does with the output), Steps and Receive are about the operations, Closing
--   about the close callback, Life about histories of them, Dispatch about handleEvent of the
--   connection's channel.
-- - CircularBuffer: createBufferMirror of src/CircularBuffer.cpp; Mirror says what it leaves
--   behind.
-- - MpscQueue: include/hvnetpp/MpscQueue.h, with the counters of src/CircularBuffer.cpp.
--   Tickets relates the memory to a row of numbered tickets, Fifo is about histories, where the
--   tail that a producer exchanges is less than 2 ^ 26 nodes past the head that it loaded, and
--   Wrap about the tail that has come round.
-- - UdpSocket: src/UdpSocket.cpp. UdpSocket/States is about its states and its descriptor on
--   the loop's thread, Anywhere about calls from any thread and the functors that they queue,
--   Callers and Crossed about startReceive and stopReceive on several threads.
-- - EventLoop: src/EventLoop.cpp. Plan and Refine (with Refine/Drain) relate the two stores of
--   functors to a plain row of them, Ends says when the functors end, Order is about the order
--   in which queued functors run, Rounds about quit, Threads about the constructor, the
--   destructor and the loop of each thread, Wakeup about the eventfd with several threads, from
--   a loop that is not called yet on and with the bound of MpscQueue/Fifo.
-- - Address: src/InetAddress.cpp, src/Resolver.cpp and the functions of src/SocketsOps.cpp that
--   work on addresses. Bytes reads back what is stored, Parse is about literals, Resolve about
--   getaddrinfo.
-- - TcpServer: src/TcpServer.cpp. Accept is about descriptors, Errno about error numbers
--   (accept of src/SocketsOps.cpp), Names about the names of connections; Serve is the server
--   with its connections, Entries its map, Start, Use and Close the steps, Life the histories.
-- - Sockets: the wrappers of src/SocketsOps.cpp over a kernel that has descriptors open,
--   Acceptor::listen (Listen), and the opening, binding and closing of a UdpSocket (Datagram,
--   Lifetime). The kernel is a record of its calls with their documented behaviour, which Tests
--   instantiates.
--
-- State is a record, an operation a function from the old state to the new one; a failed
-- assertion, a call of abort or an exception is a value of Result. What a system call returns
-- is an argument, with its documented behaviour as a hypothesis where a theorem needs it
-- (IsWrite, IsRead, the laws of Epoll). A callback is noted where it is called; what it does is
-- a later operation, but in TimerQueue and EventLoop, where a callback or a functor is the list
-- of the calls that it makes.
--
-- Numbers: size_t wraps at 2 ^ 64 and unsigned int at 2 ^ 32; a vector of bytes holds 2 ^ 63 -
-- 1 at most; instants are nanoseconds without bound. Fuel: print_int has 10 digits, enough for
-- every int; the loop of doPendingFunctors takes fuel, and EventLoop/Ends says when some fuel
-- is enough and when none is; all other loops are structural on a list of events or results.
--
-- Not modelled: logging, the wrappers of connect, read, readv and write, whose results are
-- arguments, the checks of the thread that a method runs on but for the loop's destructor, what
-- else the destructors of EventLoop and Poller close and free, the threads' memory order
-- (atomic operations are steps of an interleaving), and the demos.
mod Prelude
pub mod Buffer
pub mod Channel
pub mod Poller
pub mod PairSet
pub mod Timer
pub mod TimerQueue
pub mod TcpConnection
pub mod MpscQueue
pub mod TcpServer
pub mod UdpSocket
pub mod EventLoop
pub mod Address
pub mod CircularBuffer
pub mod Sockets
