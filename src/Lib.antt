-- ===== src/Lib.antt =====
-- chat_room: a chat server over HTTP with WebSocket push, and over a TCP protocol of its own.
--
-- The parts and their files. A definition carries the function's name in lower case with
-- underscores; a method takes and returns the object's record.
--   Buffer        src/common/buffer.{h,cpp}: the byte buffer of every connection. The vector is
--                 the field `storage`, the two positions are numbers; makeSpace doubles the capacity
--                 on fuel, one step for each bit of the requested length.
--   Packet        src/protocol/{message.h,packet.h,packet.cpp}: the framing of the TCP protocol.
--   Ws/Frame      src/server/ws_frame.{h,cpp}: WebSocket frames. `memory` is what stands from the
--                 pointer to the end of the allocation and `len` what the code is told, so
--                 that a read behind the end is an outcome of its own; the length_error of resize
--                 is another.
--   Ws/Sha1       src/server/ws_handshake.cpp: the SHA-1 object. Sha1/Round is processBlock.
--   Ws/Base64     src/server/ws_handshake.cpp: base64Encode.
--   Ws/Handshake  src/server/ws_handshake.{h,cpp}: computeAcceptKey.
--   TokenStore    src/server/token_store.{h,cpp}: session tokens.
--   Room          src/server/room.{h,cpp}: the last 200 messages, the users, and the subscriber.
--   Reactor       src/server/reactor.{h,cpp}: the table of callbacks and handleEvent; the calls of
--                 epoll_ctl are a list. Reactor/Loop is the loop over epoll_wait, for a number of
--                 rounds, over the state and the callbacks of any program.
--   Tcp/Users     src/tcp/user_manager.{h,cpp}: the connection of each name.
--   Tcp/World     src/tcp/connection.h and the objects of src/tcp/main.cpp: the connections by
--                 address (none is ever deleted), the users, the managed connections, the reactor.
--   Tcp/Handler   src/tcp/message_handler.{h,cpp} and Connection::close, whose close callback is the
--                 one of main.cpp. A handler's result is a new world or an exception.
--   Tcp/Io        src/tcp/connection.cpp (onRead, onWrite), src/tcp/connection_manager.cpp and the
--                 body of the accept loop. Each loop has as much fuel as there are bytes it can
--                 move, and one more.
--   Tcp/Main      src/tcp/main.cpp: the accept loop, with as much fuel as there are connections that
--                 wait, and one more; what the callbacks of the reactor do; the loop, for a number
--                 of rounds.
--   Tcp/Sessions  the agreement of the users with the connections' states.
--   Tcp/Reading, Tcp/Loops  that handlers and loops end, and what they do to the buffers.
--   Tcp/Delivery  who receives a broadcast.
--   Http/Request  src/server/http_request.{h,cpp}: the parser. A text is searched from its rest
--                 on; each loop has as much fuel as its text has bytes, and one more.
--   Http/Response src/server/http_response.{h,cpp}: responses and how they are printed.
--   Web/World     the objects of src/server/main.cpp: the HTTP and WebSocket connections by address,
--                 HttpServer::conns_, WsHub::conns_, the room, the tokens, the reactor. What stands
--                 in the memory of a deleted connection is a parameter (Host), since both close()
--                 functions read it; so are JSON, the files and the fresh SHA-1 object.
--   Web/Hub       src/server/ws_hub.{h,cpp}, and sendText, sendPing and close of
--                 src/server/ws_connection.cpp. The room's subscriber changes the sockets and may
--                 throw, so that the room is a Room (Run Sockets).
--   Web/Io        the loops over recv and send of the two kinds of connection. The loop over recv
--                 has as much fuel as the kernel has bytes, and one more.
--   Web/Socket    src/server/ws_connection.cpp: onRead, with a loop over frames, and onWrite.
--   Web/Connection  src/server/http_connection.cpp, with the close callback of
--                 src/server/http_server.cpp.
--   Web/Routes    src/server/http_handler.cpp: the routes under /api; Web/Numbers is stoll.
--   Web/Server    src/server/http_server.cpp: dispatch_, handleWsUpgrade_ and static files;
--                 Web/Accept is start, stop and onAccept_.
--   Web/Main      src/server/main.cpp: the objects, what the reactor's callbacks do, and the loop.
--   Web/Sessions  the agreement of the tokens with the users of the room.
--   Json          what the servers call of nlohmann::json, as a record of operations.
-- Common has what they share: byte strings, association lists, 64-bit sums, the segments of a list.
-- Tests runs the models at concrete inputs.
--
-- A call whose result is a Run ends in a result, in an exception that leaves it, or without fuel. The
-- theorems listed below show for the TCP loops over recv, packets and send, for the web loops over
-- recv, requests and frames, and for the WebSocket loop over send where send takes bytes at every
-- call, that the last does not happen; there is none for the accept loops. time(nullptr) is one number in a step.
-- recv, send and JSON are parameters; the theorems on the loops assume of recv that it writes no
-- more bytes than it is offered room for, and of send that it takes bytes from the front.
-- A size_t is a natural number with its wrap-around written out where the code can reach it. A
-- mutex makes the method it guards one step.
--
-- Not modelled: the arguments and signals of src/server/main.cpp (whether a signal has stopped the
-- reactor is a parameter), the sockets and signals of src/tcp/main.cpp, the log lines, and the
-- destructors of Reactor and HttpServer. An access to a deleted connection is undefined in C++; the
-- model reads what the parameter says is left in its memory (for a WebSocket never a negative
-- descriptor, on which ::close only fails). A read of tryDecode behind the buffer's
-- memory ends the run. src/third_party is a library; src/frontend, tests and tools are other
-- languages and tests, and build holds generated files.
pub mod Common
pub mod Buffer
pub mod Http
pub mod Json
pub mod Packet
pub mod Reactor
pub mod Room
pub mod Tcp
pub mod TokenStore
pub mod Web
pub mod Ws
pub mod Tests
