-- ===== src/Lib.antt =====
-- smqueue: the queue manager for short messages between a GSM base station and SIP. Datagrams come in
-- over SIP, wait in one list sorted by the time at which something is next to be done for them, are
-- looked up in a subscriber registry, rewritten, packed and sent on until they are answered.
--
-- Parts, files and sources (paths from the root of the repository):
--   Prelude: shared names. Fault has the results of code that may use a null pointer or a freed object
--     (`fault`), and the rules by which a property of a result follows a chain of calls (`Holds`). Bytes,
--     Int, Strtol and Decimal are the parts of the C library that the code uses.
--   State, State/Timeouts: the states of a message and the table of timeouts, smqueue/smqueue.h and
--     smqueue/smqueue.cpp.
--   Sip: the fields of a parsed SIP message, and the services from outside.
--   Message: short_msg and short_msg_pending, smqueue/smqueue.h. Message/Tag: set_qtag. Message/Validate:
--     validate_short_msg. Message/Accept and Message/Complete: an independent description of the messages
--     that it accepts. Message/Checks: the tag. Message/Node and Message/Carried: what parsing and
--     validating leave alone.
--   Queue: time_sorted_list, SMq::set_state and the searches by tag. Queue/Order, Queue/Find and
--     Queue/Nodes: sortedness, search and the nodes of the list.
--   Smq: the class SMq. Smq/Originate: originate_sm, bounce_message, register_handset. Smq/Lookup: the
--     three lookups. Smq/Pack: the packing of smqueue/smsc.cpp. Smq/Commands with Register and Smsc: the
--     short codes of smqueue/smcommands.cpp and smqueue/smsc.cpp. Smq/ShortCode: handle_short_code.
--     Smq/Response: handle_response. Smq/Timeout: process_timeout. Smq/Threads: main_loop, the loop of
--     smqueue/SmqWriter.cpp, and respond_sip_ack. Smq/Phrases: the codes and their phrases.
--   Smq/Saved: the queue in a file. Smq/Address: addresses as text, smqueue/smnet.cpp. Smq/Stream and
--     Smq/Stream/Extract: std::ifstream. Smq/Saved/Records, RoundTrip, Restored and Overflow: what is read of
--     what was written.
--   Smq/Held: no step of the manager makes two messages share a list node; what the reader hands to the
--     writer (Received), and the acknowledgements that refer to a message that is gone (Threads, Acks),
--     and what a response does to the message that it answers (Answers).
--     Smq/Moves: the state machine of a message as a relation, that process_timeout keeps to it (Steps),
--     and the stages in which it goes on (Stages).
--   Codec: the SMS codec, apart from the manager: the outcomes of a parser, and frames as bit vectors with
--     an index. Codec/Fields and Codec/Payload: the reference description of a frame, a list of fields and
--     the bits behind them. Codec/Digits: semi-octet digits, GSM/GSML3CCElements.cpp. Codec/Elements: layer 3
--     elements, GSM/GSML3Message.cpp. Codec/Relay and Codec/Connection: the RP and CP messages of
--     SMS/SMSMessages.cpp. Codec/Validity: the validity period there, and the time stamps of
--     GSM/GSML3MMElements.cpp. Codec/Transfer: addresses, user data, SUBMIT and DELIVER units.
--     Codec/Text: the 7-bit text, with the alphabet of GSM/GSMCommon.h and GSM/GSMCommon.cpp.
--   Examples: a concrete manager, bit vectors as arrays, and the theorems at them.
--
-- How they interact: the reader (Smq.Threads.receive) validates a datagram and puts it at the front of
-- the list; the writer (writer_step) acknowledges it and, when told to or after a while, runs
-- process_timeout, which takes one step for the message at the head of the list. A step hands the
-- manager, a record `Smq`, on; the clock, the registry, the configuration, random numbers and the
-- outcome of mail, HTTP and sockets are a record `World` that the step takes.
--
-- Pointers and iterators: a message has the number of its list node, and an iterator is such a number.
-- A null pointer is `none`, reading one is `fault`, as is an iterator whose node is in no list. `Holds P m`
-- says that P is true of the result where m returns, and nothing where it faults.
--
-- Bounds: the loop of read_queue_from_file has fuel, one unit for each turn, and gives `none` where it is still
-- running; one unit for each saved message and one more are enough where the times fit. Every other
-- loop of the model is structural, over a list or a text. Times are
-- natural numbers of milliseconds and counters do not wrap. Characters are codes. A step of a thread is
-- taken as a whole: process_timeout holds the lock on the list throughout, the reader locks it for the
-- insertion and the dump separately.
--
-- Parameters: libosip (parsing and printing of messages), the subscriber registry of NodeManager and
-- CommonLibs, and the sockets. Nothing is assumed of them. The manager takes the coding of transfer units as
-- a parameter, too, of which it relies on nothing. The codec takes the bit vectors of CommonLibs, a record
-- `BitVectors` whose laws say what reading, writing, copying and turning round bits inside a vector do, and
-- say nothing of an access behind the end; and the calendar of the C library. The reading of the saved queue
-- and of addresses takes getaddrinfo and getnameinfo.
--
-- Not modelled: the length that is kept beside a text, apart from the cut that it makes where a text is
-- printed; a state out of range, which reading a queue back may keep (Smq/Saved takes it for a fault);
-- logging; the sockets of smqueue/smnet.cpp; the POSIX message
-- queues and the life of the threads; the configuration table and main; of SMS/ and GSM/,
-- calling party numbers, timers and units that nothing makes; the test programs and packages.
pub mod Codec
pub mod Prelude
pub mod State
pub mod Sip
pub mod Message
pub mod Queue
pub mod Smq
pub mod Examples
