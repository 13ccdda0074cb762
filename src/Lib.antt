-- ===== src/Lib.antt =====
-- zbluenet, a C++11 library for network servers: buffers, message framing, connections and
-- timers. Paths are from the repository's root; Z stands for zbluenet/zbluenet/src/zbluenet.
--
-- The parts and how they interact. A reactor's thread owns sockets and a TcpConnection for each.
-- When bytes have arrived, Reactor::onSocketRead appends them to the connection's read buffer, a
-- DynamicBuffer, and calls GameServer::onRecvMessage, whose loop takes frames off the buffer with
-- NetProtocol::recvMessage and hands each over as a NetCommand. In the other direction
-- NetProtocol::writeMessage encodes a message, Reactor::sendMessage sends it or puts it into the
-- write buffer, and onSocketWrite sends what waits. Messages are encoded by the macros of
-- exchange/macro.h. Timers wait in a TimerHeap, by the Timestamp at which they are due.
--
-- A TcpService accepts sockets and gives each to the NetThread with the fewest connections. It
-- hands commands to that thread through a MessageQueue, a ConcurrentQueue with a pipe, and the
-- thread's onNetCommand encodes and sends them through its reactor. The thread tells the service
-- of new and closed sockets and of messages through another queue, and the service calls its
-- handlers. On Linux the reactor and the service wait in an Epoller, which calls the callbacks of
-- the devices that are ready. A NetClientThread is a net thread that opens its one connection
-- again after a while when it is closed.
--
-- The files.
--   Base        shared names, lists, arrays, bits, words of 64 bits, and Outcome: a call returns,
--               or does what C++ leaves undefined.
--   Buffer      Z/dynamic_buffer.cc: `Buffer` is the storage with both indices, and each method
--               has a function of its name; Buffer/Integers holds the peeks, reads and writes of
--               integers. Invariant, Growth, Fifo, Runs and Integers/Laws hold the proofs.
--   Exchange    Z/exchange/macro.h: each macro is a function on a `Cursor`, with `none` for
--               `return -1`.
--   Protocol    Z/protocol/net_protocol.cc, net_command.h, Z/net/net_id.cc and onRecvMessage of
--               Z/server/game_server.cc. Frames states the format that recvMessage implements.
--   Connection  Z/net/tcp_connection.cc and sendMessage, onSocketWrite and onSocketRead of
--               Z/net/reactor.cc; Reading holds onSocketRead, Session its calls one after the
--               other with onRecvMessage as the callback.
--   Time        Z/timestamp.cc.
--   Timers      Z/timer_heap.cc, timer.h, base_heap_value.h and timer_id_allocator.h. Order is
--               about the vector, Valid about the timers in it, and Add, Remove, Expire and Check
--               about the operations.
--   Reactor     Z/net/reactor.cc and the timers of Z/net/io_service.cc: the maps of sockets,
--               connections and error timers. Sockets and Pairs are about the maps, Running
--               about what a running reactor keeps, and Delivery about sendMessage on them.
--   SocketIds   Z/net/socket_id_allocator.h.
--   Queue       Z/concurrent_queue.h; Messages is Z/net/message_queue.h and self_pipe.cc as a step
--               relation, and Order, Wakeups and Batches are about it.
--   NetThread   Z/net/net_thread.cc over the reactor. Encoding, Broadcasts, Commands, Loop and
--               Sessions are about its parts.
--   Service     Z/server/tcp_service.cc. Balance is about the choice of a thread, Delivery about
--               the way of a message through the queue to the socket.
--   Epoll       Z/net/epoller.cc and io_device.cc; Reactor is Z/net/epoll_reactor.cc, with the
--               callbacks of Z/net/reactor.cc, and Accepting is Z/net/epoll_acceptor.cc. Turn is
--               about a round of the poller, Stuck about bytes that wait.
--   Client      Z/client/net_client_thread.cc. Timer and Reconnect are about the timer that opens
--               the connection again, Loop about onNetCommand and Receiving about
--               onRecvMessage. Dispatch is Z/client/tcp_client_service.cc, and Commands
--               Z/client/tcp_client.cc.
--
-- Bounds and fuel. `size_t` wraps at 2 ^ 64, and a storage has at most 2 ^ 63 bytes. onRecvMessage
-- runs on one round for each readable byte and one more: a frame takes four. minHeapInsert runs
-- on a round for each place of the vector and one more, minHeapErase on one for each place: the
-- index halves or doubles. checkTimeout is given its fuel, and the sum of the milliseconds by
-- which timers are late is enough. The counter of timer ids has 63 bits: a loop over commands is
-- given room for one id for each sending that may fail, a client's for one more.
-- onClientNetCommandQueueRead runs on the number of commands that it may still read.
--
-- Outside the model are the system calls, whose answers are arguments; the message classes, which
-- `MessageApi` stands for; the callbacks of the program, which are arguments; allocation failure;
-- the start and the end of threads and the waiting of their loops; the select service, which
-- only Windows uses; socket addresses; logging.
pub mod Base
pub mod Buffer
pub mod Exchange
pub mod Protocol
pub mod Time
pub mod Connection
pub mod Timers
pub mod Reactor
pub mod SocketIds
pub mod Queue
pub mod NetThread
pub mod Service
pub mod Epoll
pub mod Client
