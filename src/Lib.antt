-- ===== src/Lib.antt =====
-- Verification of evk, an event-driven network library: one EventLoop per thread polls file
-- descriptors, each tied to a Channel that dispatches what happened; a TcpConnection reads and
-- writes a socket through two Buffers as its Channel tells it to.
--
-- Prelude: numbers, lists, words of 64 bits, options and bits, as the source uses them.
-- Buffer: evk/buffer.h and evk/buffer.cc. A record with the storage as a list of bytes, the two
--   indexes, the capacity and the reserved prepend size; one function per method (Write is `write`,
--   grow is `grow` with its branches `reallocate` and `compact`, ReadFromFD is `read_from_fd`).
--   size_t wraps around at 2 ^ 64. Invariant holds the representation invariant; Grow, Writes,
--   Reads, Fd, Find and Endian the methods; Session the buffer against a queue of bytes.
-- Channel: evk/channel.h and evk/channel.cc. The interest mask and its operations (Events), and the
--   dispatch of HandleEvent (Dispatch).
-- TcpConn: evk/tcp_conn.h and evk/tcp_conn.cc. The record of a connection and one function per
--   handler; what a handler asks of the loop, of its channel and of callbacks is a list of requests
--   beside the new state. Rest and Stream are about SendInLoop, Drain about HandleWrite and
--   Shutdown, Sending and Lifecycle about the status, Run about any sequence of events.
-- EPoller: evk/epoller.h and evk/epoller.cc. The map from descriptors to channels and the index that
--   each channel keeps, under UpdateChannel and RemoveChannel; whether epoll_ctl succeeds, and what
--   epoll_wait reports, are arguments. Sync is about every descriptor of the map, Waiting about poll.
-- Poller: evk/poller.h and evk/poller.cc. The list that poll(2) is given, the map and the index of each
--   channel. Slots is about the list, InStep and Remove about RemoveChannel, Reenabled about a channel
--   that gets events again.
-- Registry: Channel::Update and Remove with EventLoop, EPoller and epoll_ctl behind them, over all
--   channels of a loop. The epoll instance is an interface (`Epoll`) whose laws say when epoll_ctl
--   succeeds. InStep ties masks, indexes, the map and the instance together; Commands is about one
--   operation, Sequence about any number, Teardown about the destructor of the loop and Lifetime
--   about a loop from its constructor on.
-- ServerStatus and ThreadPool: evk/server_status.h and evk/event_loop_thread_pool.cc. The pool of
--   loops and the turn that is next; a loop is a number, and StartLoop a parameter. Turns is about
--   many calls of GetNextLoop.
-- EventLoop: evk/event_loop.h and evk/event_loop.cc. One loop as the state that its own thread and
--   the others share; each step of its thread in Run, and each half of a call of QueueInLoop or Stop
--   on another thread, is a function. Interleaving puts them together as a relation, with any order
--   of the steps; Wakeup is about the functors and the eventfd, Ending about how Run returns,
--   LostStop about a Stop before Run.
-- LoopThread: evk/event_loop_thread.h and evk/event_loop_thread.cc. The thread's place in Run, its
--   status and the loop that it holds; each step of the thread and each half of StartLoop and Stop is
--   a function. Lifecycle holds the relation of all steps and its invariant, Stopping what StartLoop
--   returns and how Stop ends.
-- Duration and Timestamp: evk/duration.h, evk/timestamp.h and evk/gettimeofday.h. Integers of
--   nanoseconds, without bounds but where a uint64_t is converted; what the clock says is an argument.
-- TimerQueue: evk/timer_queue.cc and evk/invoke_timer.cc. The two sets as sorted lists (SortedSet),
--   the timers that live by address, and the time that the timerfd is set to. Keys holds the orders,
--   Invariant what ties the two sets together, with a module for each of Insert, Cancel and
--   GetExpired; Departure, Flight, Callbacks, Round and HandleRead follow the expired timers from
--   GetExpired through their callbacks to Reset; a callback is the list of what it adds and cancels.
--   Timespec is about what timerfd_settime is given.
-- Sock and Acceptor: evk/socket_ops.cc, evk/socket.cc and evk/acceptor.cc, where they test, compare
--   or hand on what the system returned. LOG_FATAL is taken to end the program.
-- InetAddress: evk/inet_address.h, evk/inet_address.cc and the addresses of evk/socket_ops.cc. The union
--   of the two kinds of address as one record; inet_ntop and inet_pton are an interface (`Inet`).
--   Decimal is about the print of a port, Laws about addresses printed and read back.
-- TcpServer: evk/tcp_server.cc. The map of connections (Assoc, an association list), with the loop of
--   each; Connections is about many connections and the removal of one. Life puts the server and its
--   connections together, with the jobs that wait in the loops: Handlers is about what a handler asks
--   for, Jobs and Phases about what waits for one connection, Running and Moves about the steps, Safety
--   about every state that they reach, and Destructor about the destructor of the server there.
--
-- A function returns `none` where an assert fails or the storage is accessed out of its bounds: the
-- Makefile builds with asserts on. Loops over bytes are structural recursion, so there is no fuel.
-- What the code asks of others is a parameter: the contents of a fresh block (`Allocator`, whose one
-- law is that the block has the size asked for), the results of write(2) and readv(2), the byte order
-- of the host, the epoll instance, the text of an address, and whether the caller is on the loop's
-- thread. A bound that a theorem puts on a size says that the arithmetic on size_t does not wrap.
--
-- The int next_conn_id_ of a server overflows at 2 ^ 31: behind that a function returns `none`.
--
-- Not modelled: Stop and Join of a whole pool; the initial callback, the name and the id of a
-- thread; the copy of LevelDB's Slice; logging; the functions on double; the bound of int64_t in
-- sums of times; the lifetime of shared objects, so that a message captured by reference is
-- taken as its bytes; and the functions that hand their arguments to a system call and no more.
pub mod Prelude
pub mod Acceptor
pub mod Assoc
pub mod Buffer
pub mod Channel
pub mod Duration
pub mod EPoller
pub mod EventLoop
pub mod InetAddress
pub mod LoopThread
pub mod Poller
pub mod Registry
pub mod ServerStatus
pub mod Sock
pub mod SortedSet
pub mod TcpConn
pub mod TcpServer
pub mod ThreadPool
pub mod TimerQueue
pub mod Timestamp
