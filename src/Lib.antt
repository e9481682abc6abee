-- ===== src/Lib.antt =====
-- logspine: a model of the logging library, with theorems on its parts.
--
-- The program: an application asks a registry for loggers. A logger tests the level, builds an event
-- of the message, the fields, and the diagnostic context of the thread, within limits, and hands it
-- to a dispatcher. The synchronous dispatcher calls each sink in turn; the asynchronous one puts the
-- event into a bounded queue. A sink formats the event as text or JSON and writes or sends it; the
-- network sinks retry.
--
-- The parts, with the code from the repository's root:
--   Level, Event     include/logspine/level.hpp, field.hpp, log_event.hpp and src/level.cpp,
--                    src/field.cpp: the data. A text is its list of bytes, a double its bit
--                    pattern, a level any byte.
--   Json             src/json.cpp: escaping, values, events as JSON lines and as plain text. The
--                    functions append to the output as the code does. Json/Syntax is an independent
--                    description of JSON: documents and a reader after the grammar, on fuel of one
--                    more than twice the bytes of the text, as two steps read a byte at least.
--   Decimal          `std::to_string` and zero padding, on fuel of the number itself, which is at
--                    least the number of its digits.
--   Mdc              src/mdc.cpp: the context of one thread as a list of fields.
--   Dispatcher       include/logspine/dispatcher.hpp and sink.hpp: what a logger asks of a dispatcher
--                    and a dispatcher of a sink, as records of functions on a state.
--   SyncDispatcher   src/sync_dispatcher.cpp, over a store of sinks that the list may share.
--   AsyncDispatcher  src/async_dispatcher.cpp. AsyncDispatcher/Enqueue has the calls of producers and
--                    AsyncDispatcher/Worker the worker thread, over the bounded list that the queue
--                    implements. Each loop takes a list of rounds, which say which of its attempts
--                    fail because they overlap the call of another thread, and what other threads do
--                    to the dispatcher meanwhile. AsyncDispatcher/Threads has any number of callers
--                    and the worker, with a step relation in which their accesses interleave in
--                    any order; there a ghost log has the items by the numbers of their pushes.
--   Logger           src/logger.cpp and the macros of include/logspine/logspine.hpp.
--                    Logger/Lines has a logger on a synchronous dispatcher with a console sink.
--   Registry         src/registry.cpp; a shared pointer to a logger is an index of a heap.
--   MpscQueue        include/logspine/detail/mpsc_queue.hpp, with 64-bit positions that wrap. Its
--                    loops take one outcome of the weak compare-and-swap for each round. MpscQueue/Holds
--                    describes a queue of at least 2 slots, as the asynchronous dispatcher makes it,
--                    and MpscQueue/OneSlot is about one with a single slot.
--                    MpscQueue/Concurrent has any number of threads whose calls overlap: each
--                    shared access is one step of a relation, and sees what the last one left. A
--                    ghost log has the item of each position.
--   Net              src/net/socket.cpp for POSIX, over a record of system calls. The loops that an
--                    interrupted call repeats take fuel, and their theorems give it: one more than
--                    the bytes to send and the interruptions that are still to come. Net/Disabled
--                    has the clients of a build without a network.
--   Compression      src/zlib_helper.cpp, over a record of the calls of zlib. Its loop takes fuel, one
--                    more than the bytes that zlib writes.
--   Sinks/Gelf       the GELF payload of src/sinks/network_payloads.cpp, and the datagrams and the
--                    write of src/sinks/gelf_udp_sink.cpp.
--   Sinks/Retry      the delivery loop that the network sinks of src/sinks share. It recurses on the
--                    retries that remain.
--   Sinks/Tcp        src/sinks/tcp_json_lines_sink.cpp on that loop, over a TCP client.
--   Sinks/Otlp       src/sinks/otlp_http_sink.cpp: the payload and the request, on that loop.
--   Sinks/Console    src/sinks/console_sink.cpp, on the text written to the two streams.
--   Sinks/File       src/sinks/file_sink.cpp with its rotation, over a record of the calls on files.
--   Sinks/Elastic    src/sinks/elastic_bulk_file_sink.cpp, on the content of the file.
--   Prelude          what the modules share.
--
-- Parameters: what a double is printed as, the calendar, thread ids, the clock, the system calls on
-- sockets and files, the calls of zlib, and filters and formatters. The network sinks take a client as a
-- parameter; Sinks/Tcp/Sockets, Sinks/Otlp/Sockets and Sinks/Gelf/Sockets put those of Net there.
-- Where a theorem needs more of a parameter, it has a hypothesis: OpenLaws, StreamLaws and
-- DatagramLaws say what the system's calls do to sockets and to what is sent, FileLaws what the calls
-- on files do where none of them fails, DeflateLaws what zlib documents of `deflate`.
--
-- Not modelled: weaker orders of the accesses than the one of an interleaving, the branches for
-- Windows, and what the machine does when memory runs out.
pub mod Prelude
pub mod Level
pub mod Event
pub mod Decimal
pub mod Json
pub mod Mdc
pub mod Dispatcher
pub mod SyncDispatcher
pub mod AsyncDispatcher
pub mod Logger
pub mod Registry
pub mod MpscQueue
pub mod Compression
pub mod Sinks
pub mod Net
