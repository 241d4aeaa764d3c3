-- ===== src/Lib.antt =====
-- Ironhide: the two ends of a service function chain. An ingress takes packets of clients,
-- prepends a header of the chain and sends them along it; an egress takes them off the chain and
-- sends them to their servers; answers go back the same way. Both register their connections with
-- a service named roulette, over HTTP and JSON, and ask it for the hops of a chain.
--
-- Paths below are from the root of the repository.
-- - Base: Boolean tests, lists, texts as lists of bytes with the decimal numbers of std::to_string
--   and std::stoul, results of code that throws, and `Exec`, code that changes a state and may
--   throw.
-- - Wire: little-endian words and memcpy between objects of known sizes. A copy that reads or
--   writes out of an object is the error `fault`.
-- - StdMap: std::map as a list of pairs that is searched, and changed, along the comparison.
-- - Packet: src/utils/packetutils.cpp. Headers has the structures of the kernel's headers,
--   Retrieve the functions that read them (retrieve_ip_header, udp_packet_header_size and so on),
--   Checksum csum, Forge forge_ip_udp_pkt on a buffer, its first 28 bytes the two headers.
-- - Sfc: src/endpoint/utils. Header is sfcheaderstruct.h with its memory, Utilities
--   sfcutilities.cpp, FixedLength sfcfixedlengthheader.cpp.
-- - Db: src/db. Address and UrlBuilder are db/utils, Query and Query.Builder the classes of
--   dbquery.h, Roulette.Client the five requests of DBQuery, Roulette.Replies what they read off
--   the replies. libcurl, jsoncpp and the service are the parameter Roulette.Backend.
-- - Entry: src/endpoint/connectionentry.cpp, with operator== (entry_eq) and operator< (entry_lt).
-- - Classifier: src/classifier/classifier.cpp.
-- - Endpoint: src/endpoint/endpoint.cpp, the maps of connections and of remote ids, and their
--   changes together with the requests to roulette.
-- - Socket: the calls of the operating system, logged with their answers, which the parameter
--   Kernel gives by all that was called before; Socket.Held reads off the log the sockets that are
--   open, the messages that were sent and the sockets that were asked for and that are connected.
-- - Client: src/client. Client itself and Client.Loop have the loop over the results of
--   getaddrinfo, Udp and Tcp the two classes, Udp.Delivery and Tcp.Delivery what happens where the
--   system does as it is asked.
-- - Process: the endpoint and the log, on which the handlers work. Process.Kept has Invariant, a
--   property of endpoints that the changes by handlers leave in place; Ingress.Kept,
--   Ingress.Tcp.Kept, Ingress.Chain.Kept and Egress.Kept are about the handlers of any such
--   property, and Process.Served is one of them.
-- - Hop: what the handlers of both ends share: the header for the first hop (hop_header), the
--   entry that a header names (chain_entry), and the sending (forward).
-- - Ingress: src/endpoint/ingress.cpp. Ingress itself is manage_entering_udp_packets, Ingress.Tcp
--   manage_entering_tcp_packets, and Ingress.Chain manage_pkt_from_chain.
-- - Egress: src/endpoint/egress.cpp, the three handlers; a thread that manage_pkt_from_chain
--   starts is a Task, which run_task runs. Egress.Steps is the machine of packets that arrive and
--   tasks that wait.
-- - Journey: a packet and its answer through both ends, composed of the handlers of Ingress and
--   Egress: Answered over UDP, Conversed over TCP. Journey.Others is what else the ingress may do
--   meanwhile, a TCP connection with its first packet, its later packets and its end as steps of
--   their own.
-- - Log: src/utils/log.cpp, with the lines that it has written.
-- - Server: src/server, the members of Server and the loop that `stop` ends; Server.Udp and
--   Server.Tcp are ServerUDP and ServerTCP, each round with its calls of the system.
--   Server.Opening is about what comes before the loop, Server.Rounds about the loop. A run is
--   followed for a finite list of rounds, each with whether the server is stopped in it.
-- - ThreadPool: src/server/utils/threadpool.h; ThreadPool.Steps has what one thread does between
--   two points at which another may run, as steps, and ThreadPool.Executor is
--   asynctaskexecutor.cpp.
-- - Start: src/main.cpp, and start of both ends: which servers listen where, with which handler.
--
-- An Endpoint calls the client of Db for each entry that it adds, updates or deletes, and keys its
-- maps by Entry; the client builds its URLs with UrlBuilder from an Address and a Query. A server
-- hands each packet or connection to a thread that runs a handler of the Ingress or the Egress;
-- the handler asks the Classifier for the chain and Db for its hops, and sends over Hop and
-- Client.
--
-- Machine integers are natural numbers with the modulus written at each narrowing. Loops are
-- recursive on their list, or on the finite stream of what a socket gives; `decimal` is on 19
-- units of fuel, which gives the twenty digits of any number below 2 ^ 64. The steps of a thread
-- pool need no fuel: that they end is proved by a bound on their number. The machine is
-- little-endian and char has 8 bits.
--
-- The handlers run one after another, but for the steps of a TCP connection, which Journey.Others
-- has one by one: that the threads which run them share the maps of the endpoint without a lock is
-- outside the model. What is read of uninitialised memory is a parameter (the buffer that a packet
-- is forged in, and the buffers of the UDP server); memory that is freed is not tracked, but for
-- the arguments of the servers.
--
-- An exception is one constructor of Error, its message left to Db.Exceptions. The calls of the
-- log are left out of the functions that make them, as nothing reads what they write.
--
-- Not modelled: the help text and the futures of the thread pool. The functions of the chain
-- between the two ends are other programs: Journey assumes of them what Carries says. inet_addr
-- and inet_ntoa are parameters.
pub mod Base
pub mod Wire
pub mod Packet
pub mod Sfc
pub mod Socket
pub mod Client
pub mod StdMap
pub mod Db
pub mod Entry
pub mod Classifier
pub mod Endpoint
pub mod Process
pub mod Hop
pub mod Ingress
pub mod Egress
pub mod Journey
pub mod Log
pub mod Server
pub mod Start
pub mod ThreadPool
pub mod Tests
