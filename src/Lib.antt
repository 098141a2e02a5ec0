-- ===== src/Lib.antt =====
-- The network gateway HPGateway/ of the repository, as executable models with their theorems.
--
-- The gateway is a set of layers, each called by the one below it. An event loop waits for descriptors
-- and runs the callbacks of their channels. A TCP connection has a channel, an input buffer and an
-- output buffer; it reports that it is up or down and hands its input to the codec, which cuts it into
-- packets. The gateway server gives a connection an id, keeps a session and the time of the last
-- message for it, answers heartbeat requests, and submits every other packet to its workers, which look
-- up a handler for the packet's command.
--
-- Files and the code that they model:
--   RingBuffer.antt      HPGateway/src/base/RingBuffer.h and HPGateway/src/net/Buffer.cpp (ReadFd).
--                        buffer, read_index, write_index are buffer_, readIndex_, writeIndex_.
--   Packet.antt          HPGateway/src/protocol/Packet.h, and the bytes of the packed header.
--   Codec.antt           HPGateway/src/protocol/Codec.h and Codec.cpp: on_message is OnMessage,
--                        send_packet and encode are SendPacket and Encode.
--   Sessions.antt        HPGateway/src/gateway/SessionManager.h and SessionManager.cpp.
--   Connections.antt     HPGateway/src/gateway/ConnectionManager.h and ConnectionManager.cpp.
--   Dispatch.antt        HPGateway/src/protocol/PacketDispatcher.cpp and
--                        HPGateway/src/business/MessageRouter.cpp.
--   Channel.antt         HPGateway/src/net/Channel.h and Channel.cpp.
--   TcpConnection.antt   HPGateway/src/net/TcpConnection.h and TcpConnection.cpp.
--   Server.antt          HPGateway/src/gateway/GatewayServer.h and GatewayServer.cpp: the handlers;
--                        Server/Lifetime.antt has Start, Stop, the heartbeat timer and the destructor.
--   EventLoop.antt       HPGateway/src/net/EventLoop.h and EventLoop.cpp: phases, functors, wakeups.
--   Poller.antt          HPGateway/src/net/Poller.h and Poller.cpp, the half for Linux.
--   LoopPool.antt        HPGateway/src/net/EventLoopThreadPool.h and EventLoopThreadPool.cpp.
--   Acceptor.antt        HPGateway/src/net/Acceptor.h and Acceptor.cpp, with the spare descriptor.
--   TcpServer.antt       HPGateway/src/net/TcpServer.h and TcpServer.cpp, with the functors that the
--                        loops still have to run; a connection's number stands for its name.
--   WorkerPool.antt      HPGateway/src/base/ThreadPool.h and ThreadPool.cpp, and
--                        HPGateway/src/business/WorkerPool.h and WorkerPool.cpp.
--   Config.antt          HPGateway/src/gateway/GatewayContext.h and GatewayContext.cpp. A number that
--                        `atoi` cannot hold in an `int` makes the reading `none`.
--   GatewayApi.antt      HPGateway/src/gateway/GatewayApiImpl.h and GatewayApiImpl.cpp.
--   GatewayStruct.antt   HPGateway/include/gateway/GatewayStruct.h: the bodies of the packets.
--   ApiClient.antt       HPGateway/src/api_cli/ApiClient.h and ApiClient.cpp; ApiClient/Receive.antt
--                        is its receiving half, ApiClient/Report.antt what it prints.
-- The second gateway, gateway/ of the repository, receives messages of ZeroMQ frames:
--   Frames.antt          gateway/common/message_utils.cpp, over ZeroMQ as a parameter.
--   Router.antt          gateway/src/RouterServer.h and RouterServer.cpp: the dispatch loop;
--                        Router/Lifetime.antt has Start, Stop and SendReply.
--   Publisher.antt       gateway/src/PubServer.h and PubServer.cpp.
--   Pool.antt            gateway/common/ThreadPool.h and ThreadPool.cpp.
-- Shared by all:
--   Common.antt          shared names, tests, lists, memory blocks and ordered maps.
-- The children of a component hold its proofs, and its Tests hold runs at concrete inputs.
--
-- Conventions. A function has the name of its method, in snake case. A method that can fail an
-- `assert`, or copy beyond a vector, returns an Option and is `none` there: the build does not define
-- NDEBUG. Sizes are 64-bit and wrap as size_t does. What a method does outside its object is a list of
-- actions or effects in their order; the answers of system calls and the clock are arguments. Each
-- method that holds a mutex from its first line to its last is one step.
--
-- Fuel. The codec's loop, and the gateway's OnMessage that calls it, run on fuel, one unit for each
-- pass. A pass takes a packet out of the buffer or is the last one, so more fuel than packets in the
-- input is enough, unless a header says that its packet has no bytes at all. The client's RecvAll runs
-- on fuel, one unit for each `recv`; it gets the number of bytes it waits for, which is enough, since
-- each `recv` brings a byte or is the last one.
--
-- Not modelled: logging, thread creation, wrappers of single system calls, the command-line programs,
-- the parts over Protocol Buffers classes, and the libraries under thirdparty/. Memory orders and the
-- parallel use of an object outside its mutex are not modelled either.
pub mod Common
pub mod RingBuffer
pub mod Packet
pub mod Codec
pub mod Sessions
pub mod Config
pub mod Connections
pub mod Dispatch
pub mod Acceptor
pub mod ApiClient
pub mod Channel
pub mod TcpConnection
pub mod WorkerPool
pub mod TcpServer
pub mod Server
pub mod Pool
pub mod Publisher
pub mod Router
pub mod EventLoop
pub mod Poller
pub mod Frames
pub mod LoopPool
pub mod GatewayApi
pub mod GatewayStruct
