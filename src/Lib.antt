-- ===== src/Lib.antt =====
-- vUbercool: an HTTP server for very many sites, with an embedded DNS server.
--
-- The DNS server (src/dnsd) takes a datagram, reads its header and questions, looks the names up in
-- its zones and writes a reply of at most 512 octets with compressed names. The HTTP server (src/httpd)
-- keeps the connections of each thread in a ConnectionMgr, chooses a site by the host's name
-- (src/daemon/VhostManager.cpp) and lets a host (src/hosts) serve it. Both count what they do in
-- Statistics (include/Statistics.h), which a manager sums up (src/daemon/StatisticsManager.cpp).
--
-- Octets are natural numbers, and a buffer is the list of them. 16, 32 and 64-bit fields wrap around
-- where the source stores them. The exceptions of the DNS server are the values of Dns/Outcome.antt. The
-- replies of the HTTP server are those of a build with USE_BOOST_IOSTREAM.
--
--   Base           lists, Boolean tests, 16-bit masks, decimal numbers; Base/Tree holds the trees that
--                  boost::property_tree reads
--   Dns/Header     MessageHeader of src/dnsd/Message.h
--   Dns/Reply      CreateErrorReply and the header of an answer, src/dnsd/DnsDaemon.cpp
--   Dns/Labels     LabelHeader of src/dnsd/Message.h, names in queries
--   Dns/Question   Question, and the first loop of ProcessQuestions
--   Dns/Names      ToFraments, WriteDomainName, SearchForDomainName, ReverseCompare and
--                  AddLabelForCompression of src/dnsd/Message.h; Names/Decode holds the meaning of
--                  names after RFC 1035, against which the writer is compared
--   Dns/Records    AnswerBase and the record types of src/dnsd/Message.h
--   Dns/Zones      src/dnsd/Zone.h, with the zones in a store and pointers as indices
--   Dns/Config     SetupZones, AddZones and AddZone of src/dnsd/DnsDaemon.cpp
--   Dns/Sections   ProcessQuestion, Store, ProcessNsAuthZone and ProcessNsZone of src/dnsd/DnsDaemon.cpp
--   Dns/Daemon     ProcesssQuerey, ProcessQuestions and what the receive loop sends
--   Dns/Receive    the receive loop of src/dnsd/DnsDaemon.cpp, from one wait to the next, with its query
--                  buffer, which keeps the octets of earlier datagrams, and UpdateStats
--   Stats          the counters and AddStat; Stats/Service is the manager with its tasks: AddStat, GetStats
--                  and the log timer
--   Http/Connections   ConnectionMgr of src/httpd/HttpDaemon.cpp
--   Http/Daemon    HttpDaemonImpl of src/httpd/HttpDaemon.cpp: the acceptors, the connections of all threads
--                  and their housekeeping, as a list of events in any order
--   Http/Config    HttpConfig and the version of include/vUbercool.h; Config/Parse is ParseHttpConfig of
--                  src/daemon/main.cpp
--   Http/Request   HttpRequest of src/httpd/HttpRequest.h and HttpRequest.cpp
--   Http/Parser    the grammar of src/httpd/HttpRequestParser.h, over the tokens of its lexer
--   Http/Lexer     HeaderLexer of src/httpd/HttpRequestParser.h, its states and patterns, and requests as
--                  the octets that a client sends
--   Http/Vhosts    GetHost of src/daemon/VhostManager.cpp, and the checks and the hit counter of
--                  src/hosts and include/Hosts.h; Vhosts/Store is the file that the manager maps
--   Http/Hosts     what the hosts of src/hosts write, and the choice between them
--   Http/Reply     CurrentReply of src/httpd/HttpDaemon.cpp; Reply/Framing reads a reply as a client does
--   Http/Session   Connection of src/httpd/HttpDaemon.cpp: ProcessRequests and ParseRequest, from one
--                  wait of the coroutine to the next, with the events that end a wait as data
--   Tests, and the modules Tests below the parts   runs on small inputs
--
-- Fuel and bounds. The loop over the labels of a query's name has 256 rounds, as `size_` must not
-- pass 255 and each round adds at least one. The loop of GetSoaZone has two rounds: it ends in
-- these or never, which is the error endless_loop. A comparison with a name of the reply has the
-- length of the reply; names that the server has written do not lead back. The ways from a zone
-- to the root have one step more than the zone's index, as a zone is created after its parent. A
-- repetition of the request grammar has one round more than there are tokens, as each round takes
-- one. The lexer has one round more than there are octets, as each token takes one.
--
-- Parameters: the match against the pattern of legal labels (boost::regex), the comparison of
-- labels (boost::iequals), the byte order of the machine, boost::lexical_cast, is_regular_file
-- and the content of files, the lexer that boost::spirit makes of the patterns of HeaderLexer and
-- how far it has read in the buffer (that its tokens are those of the longest matches, after the
-- manual of lexertl, is the hypothesis IsLexertl of Http/Lexer/Requests), the compressors of
-- boost::iostreams and strftime, how boost::property_tree finds a child by its name and converts
-- its text, and the copies of warlib/boost_ptree_helper.h. The tokens of the lexer are told
-- apart, as if no two of them had the same id, and the date that the replies of a thread share is
-- a member of the reply.
--
-- Not modelled: sockets, timers and threads (but for the order of their events), logging, the
-- assertions (WAR_ASSERT, which compile to nothing), the reading of the configuration files into
-- trees, a file that cannot be mapped, the way from the mapped memory of the hosts to the file,
-- the command line and the start of the threads.
pub mod Base
pub mod Stats
pub mod Dns
pub mod Http
mod Tests
