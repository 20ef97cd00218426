-- ===== src/Lib.antt =====
-- AIengine, a packet inspection engine: a model of the parts that keep state for each flow, and of
-- the matching of names.
--
-- The engine reads packets, finds the flow that each belongs to, follows the flow's protocol and
-- looks for signatures. Flows and the records that hang on them come from pools of objects. A TCP
-- segment drives the state machine of its flow. The names that the application protocols see (a
-- host, a queried domain) are looked up in trees of domain names.
--
-- - Prelude: shared names. Numbers are natural numbers; a counter of w bits is its bit pattern and
--   wraps (Prelude/Words); a text is its list of bytes (Prelude/Text); signed numbers are in
--   Prelude/Int.
-- - Cache: src/Cache.h and src/StringCache.h, the pool. Cache/Inv states what is valid and which
--   calls keep it, Cache/Stack is about clients that give objects back in reverse order,
--   Cache/Faults about those that do not.
-- - Anomaly: src/AnomalyManager.h and src/AnomalyManager.cc, the kinds of anomaly and their
--   counters.
-- - Flow: src/Flow.h and src/Flow.cc, the fields of a flow and reset; Flow/Reuse says what is left
--   of a flow after it.
-- - IpSet: src/ipset, sets of addresses and their manager; IpSet/Lookup is about what is found.
-- - Forwarder: src/FlowForwarder.cc, the choice of an analyser for a flow, with checkers and
--   analysers as parameters; Forwarder/Attach is about it.
-- - Release: src/CacheManager.cc, the return of a released flow's records to their pools;
--   Release/Pools is about the pools after it.
-- - Tcp: src/protocols/tcp. Tcp/States holds the tables of TCPStates.h, Tcp/Info the record of
--   TCPInfo.h, Tcp/Compute the method TCPProtocol::computeState. Tcp/Machine names the states and
--   gives the diagram that the method is compared with, Tcp/Trace is about sequences of segments,
--   Tcp/Connection about connections from the handshake to the close. Tcp/Flows has getFlow,
--   Tcp/Process and Tcp/Dispatch have tcpChecker and processPacket, which join the pools, the
--   table, the release and computeState. Tcp/Ready, Tcp/Opening, Tcp/Serving and Tcp/Sessions are
--   about getFlow, Tcp/Steps, Tcp/Closing and Tcp/Whole about processPacket.
-- - Packet: src/Packet.h and src/RawPacket.h. Address: src/IPAddress.h, with the hash of a flow;
--   Address/Symmetry is about the two directions of a conversation.
-- - Table: src/flow, the table of flows (FlowManager) over an interface to the container,
--   FlowIndex. Table/Order is about lists of entries, Table/Timers about updateTimers, Table/Owned
--   and Table/Kept about what keeps flows apart, Table/Removed about removeFlow, Table/Refresh
--   about updateFlowTime; Table/Sorted is a container that satisfies the interface.
-- - Mux: src/Multiplexer.h and src/Multiplexer.cc, the passing of a packet up through the layers;
--   the packet functions may forward packets of tunnels; Mux/Ends says that it ends.
-- - Udp: src/protocols/udp. Udp/Process has processPacket; Udp/Sound and Udp/Whole are about it.
-- - Names: src/names, the tree of DomainNode.h with addDomainName and getDomainName of
--   DomainNameManager.cc. Names/Path sees the tree as a map from paths to nodes, Names/Lookup and
--   Names/Shadow compare the search with it, Names/Split is about the tokens.
-- - Frequency: src/protocols/frequency/PacketFrequencies.h, the first bytes of a flow.
--   Frequency/Payload says what it holds.
-- - Learner: src/learner/LearnerEngine.cc, which makes a regular expression of such records.
--   Learner/Aggregate is about the counts, Learner/Choice about the value of a place, Learner/Regex
--   and Learner/Ascii about the texts, Learner/Learned about the whole.
-- - Dns: src/protocols/dns. Dns/Message has the state and the reading of names, Dns/Query the
--   queries, Dns/Response the responses and processFlow; Dns/Extract, Dns/Wire and Dns/Account are
--   about them. The names are objects of a pool of Cache, and are looked up in managers of Names.
-- - Smtp: src/protocols/smtp. Smtp/Address cuts addresses out of commands, Smtp/Commands has the
--   handlers of MAIL and RCPT, Smtp/Session the table of commands and processFlow; Smtp/Extract and
--   Smtp/Account are about them.
-- - Pop: src/protocols/pop. Pop/Line cuts the name and the domain out of a USER command,
--   Pop/Commands has the handler, Pop/Session the table of commands and processFlow; Pop/Extract
--   and Pop/Within are about the texts, Pop/Account about the counters, Pop/Whole about sequences
--   of payloads.
-- - Imap: src/protocols/imap. Imap/Login cuts the name and the domain out of a LOGIN command,
--   Imap/Commands has the handler, Imap/Session the table of commands and processFlow; Imap/Extract
--   and Imap/Short are about them.
--
-- A dereferenced null pointer and a read outside a table are values (fault, none), so is the
-- exception of a substr behind the end of a text (fault), and theorems say when they do not occur.
-- Most loops are over lists or counts that are known when they start, so they are structural
-- recursion. The loop of the learner that shortens the expression has the length of the text as
-- fuel, which is enough as it moves on in each round; those that read a name of a DNS message have
-- 127, as they stop at the offset 128 and start at 1. Code of other libraries is a parameter:
-- boost::split in Names, with what it is taken to do in the record Splits of Names/Split;
-- boost::format in Learner, with PrintsHex of Learner/Ascii, and the order in which an
-- unordered_map gives its pairs, with IsOrder of Learner/Choice; the printing of numbers and of
-- addresses; the multi_index container in Table, with the laws of FlowIndex. The forwarding through
-- the multiplexers has a rank of the layers as fuel.
--
-- Not modelled: output and statistics, the bindings to scripting languages, the build options for
-- metrics, and the input from files and devices.
pub mod Prelude
pub mod Cache
pub mod Anomaly
pub mod Flow
pub mod IpSet
pub mod Forwarder
pub mod Release
pub mod Tcp
pub mod Names
pub mod Frequency
pub mod Learner
pub mod Dns
pub mod Smtp
pub mod Packet
pub mod Address
pub mod Table
pub mod Mux
pub mod Udp
pub mod Pop
pub mod Imap
