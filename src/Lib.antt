-- ===== src/Lib.antt =====
-- Verification of the meteostation's API, core/api/zejf_api: the library in C that the server
-- (core/devices/ZejfMeteo) and the sensor boards share, and of the server itself. A device keeps the
-- hours of samples that it has, a table of the devices that it can reach, and queues of packets;
-- packets travel as lines of text over interfaces (USB, TCP), and carry samples, requests for samples
-- and routing information. The server takes lines from a serial port and from TCP clients, keeps the
-- hours in files, and runs the library from its threads under one lock.
--
-- Which file models which part:
--   Defs        core/api/zejf_api/inc/zejf_defs.h and zejf_settings.h: the error codes, the
--               constants, and a record of the macros that each device sets for itself.
--   LinkedList  core/api/zejf_api/src/linked_list.c, the queue under all others, over an explicit
--               heap: one map for each field of a node, and a map of the nodes that are allocated.
--               Following NULL or a freed node is a fault. Heap has the commands, Ring what a ring of
--               nodes is, Push, Remove and Destroy the theorems. list_push takes what malloc returns
--               as an argument, NULL included.
--   Hour        core/api/zejf_api/src/zejf_data.c, the functions on one DataHour. Serial is the file
--               format (hour_serialize, hour_deserialize), Valid the invariant of an hour, RoundTrip
--               and Canonical the two directions of the round trip, Read one round of the reading
--               loop. A float is its 32-bit pattern; the targets are little-endian. The read position
--               of hour_deserialize is the bytes that are left.
--   Routing     core/api/zejf_api/src/zejf_routing.c. The table is the list of its first
--               routing_table_top entries; Interface objects live in a store that entries point into.
--               Sweep says what the removal loop does, Check is routing_table_check and the table
--               part of interface_removed, Update the distance-vector step, FreeId the search for a
--               free device id.
--   Protocol    core/api/zejf_api/src/zejf_protocol.c: packets, their checksum, and their text. Scan is
--               what sscanf finds in a printed packet, RoundTrip the way out and back, Accept what an
--               accepted packet guarantees. Strings are byte lists without the terminator.
--   Network     core/api/zejf_api/src/zejf_network.c and network_send_routing_info of zejf_routing.c:
--               the rx and tx queues as lists from the tail to the head, next_packet as a place in the
--               tx queue, and a record Platform of the functions that each device defines. Tx has the
--               transmission and the expansion of broadcasts, Send the theorems on accepting and
--               sending everywhere, Valid and Transmit the invariant, Drain and Broadcast what becomes
--               of the tx queue, Removed the loop of network_interface_removed.
--   Store       core/api/zejf_api/src/zejf_data.c, the hours in memory: datahour_get, hour_add,
--               data_get_val and data_save over a list from the tail to the head; a pointer to an
--               hour is its place. Evict is about which hour is dropped, Bounds is the invariant.
--   Info        core/api/zejf_api/src/data_info.c: Announce says who is sent a sample, Learn what an
--               entry learns of a message. Writing and reading floats is a parameter.
--   Device      what needs the hours and the network together: data_log of zejf_data.c (Sample is about
--               the sample it writes) and the queue of core/api/zejf_api/src/data_request.c (Requests;
--               RequestText is the text in which a request travels).
--   DataCheck   core/api/zejf_api/src/data_check.c: Count is about the loop of calculate_data_check,
--               Receive about the text of a check, Rounds about the loop of run_data_check.
--   Api         the entry points that involve all parts: received packets (network_catch_packet,
--               network_process_rx), zejf_init and zejf_destroy, interface_removed. Steps has the life
--               of a device as a relation of steps over every entry point; the Valid modules of the
--               parts, Received and Removed show what each step keeps. LogText is about the text
--               of a sample, and Travel about its way from one device into the hours of another.
--   Server      core/devices/ZejfMeteo/src: Lines is read_client of server.c, against a plain splitting
--               of the stream; Clients its table of clients; Reader is run_reader of serial.c; Process
--               what serial.c defines for the library, with its timer and sender, whose turns are steps
--               of Api; Wire the way of a message from server to server; Interfaces is
--               interface_manager.c, Files zejf_data_loader.c over the calls of the system; Commands
--               is the command line of zejf_meteo.c, whose commands are turns of Process too.
--   Common      shared tests, lists, machine words, option chains, and unsigned numbers as printf and
--               scanf write and read them.
--
-- Loops. The loops over arrays and lists are structural recursions. destroy_loop takes a number of
-- rounds, for which the number of nodes is enough; removal_loop is given the length of the table,
-- after which its index is past the end; probe is given a round for each of the 64536 ids that may be
-- assigned, after which it is back at its start. removed_loop is given the length of the queue, in
-- which it goes round once; the loops that fill the tx queue get a round for each slot they may use.
-- hours_loop gets a round for each hour to check, parse_loop one for each byte of the buffer, and
-- sender_loop the 10000 rounds to which the code counts.
--
-- Not modelled. Allocations succeed, but in LinkedList and where a client is refused. The counts of an
-- entry and of an hour are the lengths of their lists and do not wrap, nor does the counter of the uids
-- of interfaces. Log output is left out. Floats are bit patterns, which printf and scanf write and read
-- as parameters say; the place of a moment in its hour, computed in double, is a parameter too. Threads,
-- sockets, poll, the terminal and the settings of the server are outside, since they are calls of the
-- system; so are the sensor firmware in C++, the drivers, which are register accesses
-- and floating-point formulas, the receiving callback of the boards, which follows a null pointer at
-- the end of each segment, the copies of FatFs and the SD driver, and the Java viewer.
pub mod Common
pub mod Defs
pub mod Hour
pub mod LinkedList
pub mod Routing
pub mod Protocol
pub mod Network
pub mod Store
pub mod Info
pub mod Device
pub mod DataCheck
pub mod Api
pub mod Server
