-- ===== src/Lib.antt =====
-- libpagekite (libpagekite/*.c): the tunnel protocol and the connections of the PageKite client.
--
-- The program. A front-end relay and this library hold a tunnel, over which the data of many streams goes
-- in frames: a length in hexadecimal digits, CR LF, and a chunk, which is header lines, an empty
-- line, and data. pkproto.c reads frames from a buffer and calls back with each chunk, and writes frames.
-- pkconn.c reads and writes sockets through two buffers per connection. pkmanager.c connects
-- streams to local servers: it looks a kite up for a request, and writes a server's data into the tunnel
-- as frames. pkblocker.c works for the manager on threads of its own, and chooses the relays.
--
-- The files.
-- - Base: the libraries' names, C's tests and integers, lists on native numbers, bytes and text. Numbers
--   are natural numbers where the source has sizes of memory and counters; an `int` or `long` that can be
--   negative or wrap is an integer, with each conversion written out (to_int, to_long).
-- - Libc: sscanf() with %lx, %d and %ld, and sprintf() with %zx and %d, as the C library documents them.
-- - Utils: zero_first_crlf() and its kin, strcaseindex(), printable_binary() and
--   murmur3_32() in pkutils.c.
-- - Proto.Chunk, Proto.Header, Proto.Parser: the structures and the parser of pkproto.c. A pointer into the
--   parser's buffer is an offset into a memory that may go on behind the buffer. A function of the source with several stages is a function for each stage,
--   and the last one of them has its name. Proto.Parser.Invariant says what the parser keeps.
-- - Proto.Format: the functions of pkproto.c that write messages. Proto.Stream joins them with the parser.
-- - Proto.Kite: the text of a request for a kite, pk_prepare_kite_challenge() without a secret and
--   pk_parse_kite_request(). Proto.Sign: the signatures of requests. Proto.Response:
--   pk_parse_pagekite_response(), the answer to the handshake.
-- - Conn: struct pk_conn, its reset, and pkc_read(). Send: pkc_raw_write(), pkc_flush(), pkc_write() and
--   pkc_report_progress() of pkconn.c, for any socket; Send.Socket says what a socket's write() does.
-- - Manager: pkm_find_kite(), pkm_parse_eof() and pkm_write_chunked() of pkmanager.c. The last one also
--   tells how far sprintf() writes into the output buffer, with its NUL. Manager.Flow: the
--   sending window, as pkm_chunk_cb() and pkm_flow_control_tunnel() change it.
-- - Streams: the table of streams in pkmanager.c, and pkm_find_be_conn(). Streams.Alloc: pkm_alloc_be_conn().
--   Streams.Io: pkm_update_io() for a stream and for a tunnel, with pkm_flow_control_conn() and
--   pkm_flow_control_tunnel(). Streams.Io.Status reads a status word bit by bit.
-- - Tunnels: the table of tunnels. Tunnels.Choose: pkb_choose_tunnels() of pkblocker.c, which chooses the
--   relays to use. Tunnels.Disconnect: pkm_disconnect_unused() of pkmanager.c. Tunnels.Frontends:
--   pkm_add_frontend_ai() and pkm_lookup_and_add_frontend(). Tunnels.Dns and Tunnels.Refresh:
--   pkb_check_kites_dns() and pkb_check_frontend_dns() of pkblocker.c.
-- - Events: the slots of events in pkhooks.c. Events.Steps: the calls of all threads as a step relation, and
--   the states they lead to. A call is one step.
-- - Jobs: the pile of jobs for the blocking threads in pkblocker.c. Jobs.Bag: the calls in any order.
-- - Tests: tests of the source that run on the model, and an example for each theorem with conditions.
--
-- Parameters. The chunk callback of the parser takes a state and the chunk, and may change both;
-- KeepsFrame is that it leaves the frame and the counters alone, as the callbacks of the library do. The
-- socket's write() takes the state of the world; IsSocket is that it sends a front of the bytes,
-- one of them at least, or fails and sends nothing. malloc() tells if it succeeds.
-- getaddrinfo() is any function from names to addresses, and SHA-1 any function from bytes to bytes.
-- WritesReturn is that pkc_write() returns on this socket, which pkc_write-Returns shows of every socket
-- whose interrupts are bounded. What the manager asks of libev and of the operating system is a list of actions.
--
-- Fuel. pk_parser_parse_new_data() calls itself on fewer bytes than the buffer held, so its fuel is one more
-- than those. The loop of pk_parser_parse() takes a byte a round, so it has one round more than there
-- are bytes, and so has the loop of pk_parse_pagekite_response(). The loops of pkc_flush() have the bound of
-- the source, 1000 rounds without progress. The loop of pkc_write() that repeats an interrupted
-- write has no bound in the source; its model gives `none` when the rounds run out.
--
-- Not modelled: the connection to a relay, the TLS handshake (the model is a build without
-- OpenSSL), the event loop's callbacks, the timer and the set-up of the manager, the update of dynamic DNS,
-- the blocking threads' loop and the pings, the front-end relay, logging, libev, SHA-1, the threads' locks,
-- the bindings and the programs on top.
-- Memory canaries and log lines are left out.
pub mod Base
pub mod Libc
pub mod Utils
pub mod Proto
pub mod Conn
pub mod Send
pub mod Manager
pub mod Tunnels
pub mod Events
pub mod Jobs
pub mod Streams
pub mod Tests
