-- ===== src/Lib.antt =====
-- Verification library of the message broker.
--
-- The broker keeps exchanges, queues and bindings in one virtual host. A producer's message is
-- routed by the bindings of an exchange into the message stores of queues, consumers take it out
-- again, and a rejected message can go on to a dead letter exchange. A store keeps its durable
-- messages in a file too, from which a new object recovers them after a restart.
--
-- The parts, and the files that model them:
--   Common    helpers: tests on numbers, lists, byte strings (Text), and maps (Dict), which stand
--             for std::unordered_map. The order of a Dict stands for the order of iteration, which
--             the standard leaves open: results hold for every order. Common/Unordered is the
--             quotient that forgets it.
--   Proto     the messages of src/common/msg.proto and the exchange types of
--             src/common/protocol.proto.
--   Route     router::match_route of src/server/route.hpp. A position in a string is the suffix
--             that starts there. Route/Pattern is the specification, an inductive relation between
--             the segments of a key and of a pattern.
--   Queue     src/common/queue.hpp and src/common/queue.cpp: msg_queue, its mapper and manager
--             (Queue/Manager), and the text form of arguments (Queue/ArgsText).
--   Storage   queue_message of src/server/queue_message.hpp. Storage/Stream models the std::fstream
--             on the file: its bytes, the one position that reading and writing share, and the
--             failbit. Storage/Framing holds the record format; serializing a payload is the
--             parameter Codec, with IsCodec for what protobuf documents. Storage/Log sees the file
--             as a list of payloads, which the other modules relate to the messages in memory.
--   Platform  what the virtual host calls and the repository does not hold: exchange_manager of
--             exchange.hpp, router::match_headers, serializing, and whether a file opens.
--             HasExchangeLaws states what test/test_pubsub.cpp expects of the exchange manager.
--   Host      virtual_host of src/server/virtual_host.hpp and src/server/virtual_host.cpp: the state
--             and the operations on exchanges, queues and bindings; Host/Publish and Host/Consume
--             have those on messages. A function takes the state and returns the new one with the
--             result. A pointer to BasicProperties is an Option, and what the caller's object is
--             afterwards is part of the result.
--   Consumers src/server/consumer.hpp and src/server/consumer.cpp: queue_consumer, and
--             consumer_manager in Consumers/Manager. Callbacks are a parameter.
--   Channel   src/server/channel.hpp and src/server/channel.cpp: the handlers on the host, the
--             consumers, the responses sent, each with the connection it goes to, and the tasks
--             pushed; Channel/Opened has channel_manager, and Channel/Requests the choice of a
--             handler by request.
--   Connection  src/server/connection.hpp and src/server/connection.cpp: a connection with its
--             channels, and connection_manager in Connection/Manager. The clock is an argument.
--   Server    src/server/broker_server.hpp and src/server/broker_server.cpp: the callbacks, with
--             GET_CONN_CTX and GET_CHANNEL as with_connection and with_channel; Server/Messages has
--             the dispatch and the histories of events. Server/Lifting carries a predicate on the
--             broker from the handlers to all histories, and Server/Pooled runs the server with its
--             thread pool.
--   ThreadPool  src/common/thread_pool.hpp and src/common/thread_pool.cpp as step relations: Works
--             for the threads and the notifications, Calls for push and the destructor.
--   Http      src/server/management_http.hpp and src/server/management_http.cpp: handle_client on the
--             bytes that were read. snprintf is the text cut to its buffer.
--   Client    src/client/client.cpp: what a line of the command loop sends. Client/Responses has the
--             state of a client, its handlers of responses, a round of the command loop and one of
--             the thread that sends heartbeats. Client/Session runs lines against the server, and
--             Client/Heartbeat runs the whole client beside it, with the time.
--   Tests     a concrete serializer and exchange manager, and the theorems applied to concrete
--             inputs.
--
-- Every operation runs to its end before the next begins. That is an assumption: write_persistent,
-- invalidate_persistent, recovery, get_stats and compact of the store hold its mutex, as the
-- operations of the managers hold theirs, but insert, remove and front of the store hold none, and
-- the virtual host has none. The theorems on tasks in the thread pool name the condition. The
-- constructors make their directories; the path of a queue's file is taken to be fixed by its
-- name, and no other program writes it. Text is a list of bytes. Sums on uint64_t and the length
-- as a uint32_t wrap around as written (% 2 ^ w).
--
-- Loops over a string or a file run on fuel: match_segments and set_args take one more round than
-- the text has bytes, and recovery and get_stats one more than the file has, which is enough since
-- every round takes at least one byte; the theorems on them need no hypothesis on the fuel. The
-- number in to_string has at most twenty digits.
--
-- The callbacks of the server run one after the other, as in its event loop. A task of the broker
-- may run at any point between them: an event of its own, whose queue need not be in the list of
-- tasks. In Server/Pooled a task runs when a thread of the pool comes back from it, the tasks are
-- those that the callbacks push, and no task overlaps another task or a callback. Client/Session
-- lets the server answer a line before the next is typed. In Client/Heartbeat what a client sends
-- arrives at once, and the delay of a heartbeat is counted before it is sent.
--
-- Every loop over a message's words in the client runs on one round more than the message has
-- bytes. In a pool that was stopped, steps_left bounds the steps of the threads, if each task
-- ends.
--
-- Not modelled: src/server/main.cpp, start and the print functions of the server, start and run of
-- the management server, the set-up, the default address and the help text of the client. They are
-- input and output over muduo and sockets around the operations that are modelled here.
-- binding_args of the client's bind is left out, since the message has no such field.
--
-- The line __connection_manager->refresh_connection(conn) stands below the macro GET_CONN_CTX,
-- outside of every function. It is modelled as the end of the macro: the document on feature 7 in
-- docs says that every request refreshes its connection.
--
-- The ratio that get_stats reports is kept as its two counts. The deletion of properties that
-- basic_publish allocates itself is left out, as is logging.
mod Common
pub mod Proto
pub mod Route
pub mod Queue
pub mod Storage
pub mod Platform
pub mod Host
pub mod Consumers
pub mod Channel
pub mod Connection
pub mod Server
pub mod ThreadPool
pub mod Http
pub mod Client
mod Tests
