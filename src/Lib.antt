-- ===== src/Lib.antt =====
-- Yarc, a client of Redis in C++: its protocol, its clients and the routing in a cluster.
--
-- The program. A client turns a command into a tree of protocol data, prints this to a socket and
-- parses what the server answers (Source/yarc_protocol_data). SimpleClient keeps one connection:
-- a request goes from the list of unsent ones to that of sent ones and, with its response, which
-- a thread of its own reads, to that of served ones, where Update calls its callback
-- (Source/yarc_simple_client). ClusterClient keeps a SimpleClient for each node of a cluster,
-- learns which node handles which slots, routes a command by the hash slot of its key, and
-- follows the redirections of the cluster (Source/yarc_cluster_client).
--
-- The files. Base has the shared names, tests, lists, integers and bits. DynamicArray is
-- Source/yarc_dynamic_array.h, with loops over the elements in Loops. Protocol is
-- Source/yarc_protocol_data with the reading half of Source/yarc_byte_stream: Data the classes,
-- Number the decimal numbers, Reader the helpers that read, Fields the map of a MapData, Parser
-- and Printer the Parse and Print methods, Lossy where these do not match, Typing the shape of
-- what is parsed, HashSlot the slot of a command, Command the words of ParseCommand, Elements and
-- Buffers the accessors of an ArrayData and of a BlobStringData on their DynamicArray. Crc16 is
-- Source/yarc_crc16.cpp, with a division by bits in Table, Halves and Division. ConnectionPool is
-- Source/yarc_connection_pool. SocketStream is Source/yarc_socket_stream: Calls what the
-- operating system gives to it, Opened and Incoming about connections and what is read from them.
-- SimpleClient is Source/yarc_simple_client: the operations, Update with its loops and early
-- returns, Steps, what whole operations make of a client one after the other, Threads, the single
-- steps of its two threads in any order, Matching and Round, what its loops come to,
-- Transactions, SyncTransaction and Cancelled. ClusterClient is Source/yarc_cluster_client: Slots
-- the ranges and their coverage, Nodes the nodes and ProcessClusterConfig with Address of
-- Source/yarc_socket_stream, Requests the state machines of a request and of the client, Queue
-- the list of requests with transactions and Update. LinkedList is Source/yarc_linked_list.h with
-- Source/yarc_thread_safe_list.h on a heap of nodes (Nodes), and what its operations make of the
-- list that the nodes stand for: Linked the chain of nodes, Insert, Added, Removed and Found.
-- Reducer is Source/yarc_reducer.cpp on these lists. Cluster is Source/yarc_cluster.cpp: AddSlots
-- and the shares of the masters, with Covered, Shares and Fits about them, Ids the ids that
-- CLUSTER NODES tells and the commands to the slaves, Migration with Commands and Migrated, and
-- Choice the choice of a migration at random, with RandomNumber of Source/yarc_misc.cpp. PubSub
-- is Source/yarc_pubsub.cpp, with Ascending about its map. ByteStream is Source/yarc_byte_stream
-- beside the parser's view of it: Chunks and Strings. A function has the name of the source's in
-- lower case, with the class in front where two have one name; a helper that stands for a part of
-- one says which part. Examples applies the theorems to concrete inputs.
--
-- The correspondence. A stream is the list of the bytes that it still delivers before it fails,
-- with errno beside it. A parser gives a value, a failure (a return of false), `hung` where a
-- loop of the source never ends, or `out_of_fuel`. Values of the C library and the machine
-- (strtod, the text of %f, what realloc leaves in memory, the range of long) are the fields of
-- Platform, and getaddrinfo is a parameter. A Client is the state that its threads share. A whole
-- step on it is a round of a loop or a call, which no other one interrupts; in Threads, what its
-- two threads do at the same time is split into the single operations on a list or on the
-- semaphore, and only one thread of the application uses the client, since its counters have no
-- lock; the fields `printed`, `calls` and `push_calls` record what the client wrote and called. A
-- callback of a request is a function to a Boolean, and what it does to the client is a step of
-- its own. A request of the cluster client returns its actions as values. A migration asks nodes
-- by functions that stand for MakeRequestSync and MakeRequestAsync of their clients, since the
-- answers are the server's. Of a system of sockets, each call is a function on its state, and
-- what the code relies on is a record of laws. A pointer to a nested value is a number, and what
-- a delete deletes is a list of these. A callback of a request of the cluster client is a number.
--
-- Bounds and fuel. The parser's calls cost a unit of fuel each, and three times the bytes at hand
-- and three more are enough, since every call reads a byte at the third call at the latest. The
-- loop of SetCount has 33 rounds, enough to double 1 past 2 ^ 32. The loop that combines slot
-- ranges has as many rounds as ranges, since each round takes one away. AddSlots has a round for
-- each slot at most, as each command lists one at least; ReadBufferNow one for each byte and one
-- more, on a stream that reads a byte at least or fails; Find and ReduceList one for each node
-- and one more. A count is reduced modulo 2 ^ 32 and a port or slot modulo 2 ^ 16 as the source
-- converts them. The loop of Connect has as many as it takes for `select` to answer or for the
-- clock to pass the timeout, which need not go on in each round; the loops that look for a node
-- at random have as many as it takes for a number to hit one.
--
-- Not modelled. Memory that is freed or leaked, but for the nodes of lists and the elements of
-- arrays; the sizes of buffers, except those of ParseCommand, WriteFormat, AddSlots and the
-- migration; overflow of the counters of requests; the clock, but for its ticks in Connect;
-- MakeRequestSync, whose callback writes to local variables of the call; several threads of an
-- application on one client; the floating point of RandomNumber; threads and processes. Of the
-- program's parts, the processes of a test cluster, accessors that read or write one field, and
-- the test programs are left out.
pub mod Base
pub mod DynamicArray
pub mod Protocol
pub mod Crc16
pub mod ConnectionPool
pub mod SimpleClient
pub mod ClusterClient
pub mod LinkedList
pub mod Reducer
pub mod Cluster
pub mod PubSub
pub mod ByteStream
pub mod SocketStream
pub mod Examples
