-- ===== src/Lib.antt =====
-- The diagnostic core of a virtual ECU (src/ and include/): UDS services (ISO 14229) over ISO-TP
-- (ISO 15765-2). A request reaches uds_process_request (src/uds.c), which finds a handler in a table
-- and runs it on the ECU state (src/vecu.c); the state holds the identifier table
-- (src/did_table.c), the trouble code memory (src/dtc_mem.c), the SecurityAccess machine
-- (src/security.c), the engine telemetry (src/app_engine.c) and the owner name. src/threads.c brings
-- requests from the transport through a bounded queue (src/queue.c) to the dispatcher, and takes an
-- ECU whose tester is silent back to the default session; src/main.c starts and ends them, and
-- src/isotp_kernel.c is the transport. src/isotp.c, over src/can_io.c, cuts messages into CAN frames
-- and puts them together again.
--
-- Files:
-- - Base: numbers, words, bits and lists that all parts share, and Base/Machine for a sequence of
--   calls of a component beside the same calls of what it stands for. Queue/Calls, Dtc/Calls and
--   Did/Calls use it.
-- - Types: include/uds_types.h, with a module for each enumeration.
-- - Clock: vecu_now_ms, and what one call reads from the kernel.
-- - Security: security_init, security_request_seed, security_send_key, security_is_unlocked, and
--   what s3_thread_main and h_ecu_reset do to the state. Security/Inv has the invariant,
--   Security/Access single calls, Security/LockOut sequences of calls.
-- - Dtc: dtc_mem_*, with Dtc/Stored for the list that the array stands for.
-- - Did: did_table_*, with Did/Lookup for the list of entries.
-- - App: app_engine_* and the read callbacks; App/Coolant.
-- - Vecu: vecu_init, the owner name callbacks, session and tester-present time; Vecu/Owner.
-- - Uds: Reply has the helpers and the return convention of the handlers; Sessions, Faults,
--   Identifiers and Access the handlers; Dispatch the table and uds_process_request. The other
--   files of Uds/ are proofs, named for what they are about.
-- - IsoTp: Frame, Send (isotp_send and what it calls) and Recv (isotp_recv and what it calls).
--   Segments has the frames as the sender makes them; Layout has the frames of a message as
--   ISO 15765-2 has them, without the sender's offsets, and Clearance what ends the wait for flow
--   control, without its loop. The other files of IsoTp/ are proofs: Sent and Written are about the
--   sender, Lost about a frame that is missing, Parts, Steps and Intact about frames in any order.
-- - Queue: uds_queue_*, with Queue/Fifo for the list that the ring stands for and Queue/Order for
--   sequences of calls.
-- - Uds/Sections: the handlers again, cut where they take a lock. Simple, Data, Keys and Request
--   are the handlers and uds_process_request; Whole compares them with those above, Sound,
--   SafeWrites and Safe are about what they keep while other threads run in between, Each about
--   what holds of every section, Keyed and Guarded about which of them unlock the ECU and which
--   write the owner name.
-- - Sockets: the system calls that the sockets make; KernelIo is isotp_kio_*, CanIo is can_io_*.
-- - Threads: the loops of src/threads.c as turns over the state, the socket, the queue and the
--   flag; Threads/Process has main and on_signal of src/main.c and the schedules. Dispatching
--   and Interleaving are about the shared state, Counts, Turns, Stopping, Ending and Shutdown
--   about the end of the process, Wakeup about its wait for a signal, ReadError about a failing
--   read(), Timer and Unlocked about the S3 timer, Unlocking and Race about SecurityAccess while
--   the other threads run. Service is a server that takes one request at a time; Sequential and
--   Arrivals compare the dispatcher and the receive thread with it, InOrder the whole process.
--   Lifetime is about what main destroys, Findings and OwnerWrites about the owner name.
--   Threads/Fixtures has the states of the tests.
-- - Client: client/diag_tool.py and client/dtc_names.py. A command is an action that calls the
--   methods of the package udsoncan, prints, and may end with an exception; Client/Codecs has the
--   coders and the key algorithm, Client/Dtcs the names of the trouble codes, Client/Commands the
--   commands and main. Client/Documented says what the package's methods send and how they read
--   the responses; Client/Ecu is the ECU at the other end of the connection, which runs
--   uds_process_request on each request. Calls, Access and Values are about single calls of the
--   package against this ECU, Flags describes the line of a trouble code by the bits of its status,
--   and the other children are about the commands; Client/Fixtures is a package that does as
--   documented.
-- - The modules Examples and AccessExamples apply the theorems to concrete states and messages.
--
-- State is passed explicitly. A function that runs under one mutex is one step, and a mutex carries
-- no data. Bytes and words are numbers with their wrap-around written out. A pointer with a length
-- is a list; NULL arguments are left out. The response buffer is the list of the bytes written, and
-- its capacity a number that the handlers look at where the source does.
--
-- The kernel is a parameter: the readings of the clock, what getrandom gives (Clock.Env), the frames
-- that the bus brings with the clock readings that follow them (IsoTp.Frame.Event), which writes to
-- the bus succeed, and what it answers to the calls on a socket. The order in which the threads run
-- is a list of turns, and a statement about all orders ranges over such lists; where a turn would
-- block, it leaves the thread where it is. The clock readings of a request are given when it is
-- taken from the queue. Floating point is a parameter too (App.Doubles), and so is the package that
-- the client calls (Client.Udsoncan), with its documented behaviour as hypotheses
-- (Client.Documented.Documented).
--
-- Fuel: the loop that sends consecutive frames has a round for every byte of the message, and each
-- frame takes at least one byte. A poll of the S3 thread makes at most five calls, and Threads/Timer
-- runs it for as many. The turns that Threads/Shutdown asks for are those of the longest round of
-- each loop, with all the sections of a request. The loop of the monitor command runs for as
-- many rounds as it is given keys. All other loops are recursions over a list or a count.
--
-- Not modelled: the terminal messages, what mutexes and condition variables do inside, failures of
-- pthread_create and sigaction, how the Python client parses its arguments, opens the connection and
-- lays out its screen, tests and build files.
pub mod Base
pub mod Types
pub mod Clock
pub mod Security
pub mod Dtc
pub mod Did
pub mod App
pub mod Vecu
pub mod Uds
pub mod IsoTp
pub mod Queue
pub mod Sockets
pub mod Threads
pub mod Client
