-- ===== src/Lib.antt =====
-- The greylist daemon of x-grey. A mail server asks it, one datagram per message, whether a
-- message from an address, a sender and a recipient is to be accepted, refused or put off; the
-- first mail of a triple is put off, and accepted when it comes again after the embargo.
--
-- Parts, and the files that model them:
--
-- Prelude, Order, Sorted: shared. Run is a computation that returns or faults; a fault is a
--   failed assert, a read or write outside an array, or a second free. Order has the comparisons
--   of strings, Sorted the arrays that are kept in order.
-- Bisearch: common/bisearch.c. Its fuel is the number of elements, which is enough since the
--   length falls in each round.
-- Tuple, Pool: server/tuple.c, the triples in memory. A pointer into g_pool is a slot;
--   g_tuplespace is a list of slots. Pool has tuple_search, tuple_add, tuple_allocate and
--   tuple_expire, Pool/Purge, Pool/Counters and Pool/Full the sweep and a full pool, Pool/White
--   the file of whitelisted triples, written (Pool/White/Told, Pool/White/Written) and read again
--   (Pool/White/Load, Pool/White/RoundTrip), and Pool/Dump the reports of the triples.
-- IpTree: server/iplist.c, the rules for addresses, as a tree, the reader of their file, and the
--   writer with the report (IpTree/Dump); IpTree/Packing has the octets of a path of bits. The
--   bits of an address are the list of tests in the order in which ip_match makes them.
-- EmailDomain: server/emaildomain.c, the four sorted lists of addresses and domains, with what
--   server/gld.c does to one of them, the reader of their files, and the writer
--   (EmailDomain/Dump); EmailDomain/Line, EmailDomain/Restore and EmailDomain/RoundTrip read what
--   was written.
-- Server: server/gld.c, greylist_sanitize_req, type_greylist and type_tuple_remove on the globals
--   of the daemon (Server), cmd_mcp_tofrom (Server/Lists), server/signals.c (Server/Alarm,
--   Server/Housekeeping, Server/Children) and GlobalsInit of server/globals.c, up to the reading
--   of the files (Server/Start) and that reading, with save_state of server/signals.c
--   (Server/Files). Server/Saved and Server/Restart are a daemon that starts with the files of
--   another; Server/Stop is a pass of check_signals, Server/Stopped the one that ends the daemon.
--   Server/History is a daemon over a sequence of requests and alarms.
-- Daemon: server/gld.c, the main loop on one datagram, with the other administrative requests.
-- Monitor: server/gld.c, the loop of main that starts the daemon again; fork always gives a
--   child.
-- Client: check_greylist of postfix/pfc.c and sendmail/smc.c, as far as they are the same, and
--   send_reply of server/gld.c; what comes of a packet is a parameter. Client/Exchange puts a
--   client and the main loop of the daemon together.
-- Postfix: postfix/pfc.c, process_request with its buffer and check_greylist. The fuel of the
--   loop on lines is the number of bytes, which is enough since each line takes one at least.
-- Sendmail: sendmail/smc.c, the callbacks of the milter over one connection.
-- Control: control/gld-mcp.c, the commands (Control, Control/Words), the files of addresses and
--   the switch on a command (Control/Files), and the replies of numbers (Control/Replies).
-- Options: the four files globals.c, the command line and the settings. Text/Times has the
--   lengths of time of common/util.c, in ten-thousandths of a second, in which a year of the
--   sources is a whole number. The fuel of read_dtime is the number of bytes and one, which is
--   enough since each round but the last takes one.
-- Crc: common/crc32.c, and the signature of packets in server/gld.c.
-- Names, Text, Protocol: common/globals.c, common/util.c and common/greylist.h.
-- Tests: runs at concrete inputs.
--
-- How state and time are modelled: the globals are records that the operations take and return;
-- what time(NULL) returns is an argument. Counters are natural numbers without wrap-around,
-- except where one may fall below 0. Memory is always given. In the checks of a tuple a text
-- without a NUL ends with its array; elsewhere such a read is a fault. A negative int is its
-- 32-bit pattern. The timeouts are whole seconds. split takes at most one round per byte, which
-- is enough since each round but the last takes one.
--
-- Numbers of the C library: strtoul with base 10 and %d are in Text/Number; printing takes at
-- most one round more than the number, which is enough since each round divides it by ten.
--
-- The files: a file is its lines; writing one that can be opened replaces it, and nothing is
-- written in part. A child that handle_sigalrm forks is kept as the state it is to save, beside
-- the files of the process itself; what both leave, when they write at once, is not modelled.
--
-- Not modelled: sockets, processes, log lines, the errors of writing to an open file; the forks
-- of daemon_init; the prompt and the pager of the control program, and the layout of what it
-- prints; the library libmilter, which drives the callbacks. The functions of the library
-- cgilib6, which is not in the repository, are parameters.
pub mod Bisearch
pub mod Client
pub mod Control
pub mod Crc
pub mod Daemon
pub mod EmailDomain
pub mod IpTree
pub mod Monitor
pub mod Names
pub mod Options
pub mod Order
pub mod Pool
pub mod Postfix
pub mod Prelude
pub mod Protocol
pub mod Sendmail
pub mod Server
pub mod Sorted
pub mod Tests
pub mod Text
pub mod Tuple
