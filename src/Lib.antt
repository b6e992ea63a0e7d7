-- ===== src/Lib.antt =====
-- Verification of the C programs of the course on operating systems (Operating-systems/), the
-- repository's code in its main language. Each program is a component of its own; what it calls
-- (system calls, threads, semaphores, floating point, random bytes) is a parameter or a step rule.
--
-- Parts, files and code:
-- - SocketServer: Operating-systems/lab10/zad1. Protocol is clientUtil.h. Server is server.c: the
--   globals are the record `Server`, and each function is an action on it that ends, ends the process
--   or waits for the mutex; `os k e` says whether the k-th system call succeeds. loginClient,
--   logoutClient, remove_client, close_socket, check_name, connectFun and message keep their names;
--   `ping_round` and `terminal_round` are one round of the loops of ping_procedure and
--   terminal_procedure, and `pong_client` is the PONG case of message. Table is the specification, a
--   list of clients with distinct names. Calculator is client.c, and Wire relates the bytes that the
--   client writes to those that the server reads. The three threads meet at `clients_mutex` only, so
--   a handler that finds it free runs alone; one that finds it taken is `blocked`.
-- - DatagramServer: Operating-systems/lab10/zad2, the same server over datagrams. The functions of
--   server.c keep their names and take the rest of the handler where one follows; `os k d` says
--   whether the k-th `sendto` succeeds. Table is the specification, Handlers the handlers against it,
--   and Sessions any sequence of datagrams, rounds of pings and orders. Calculator is client.c.
-- - MessageQueue: Operating-systems/lab6/zad1. new_client, delete_client, mirror_fun, errorSend, calc
--   and time_fun of server.c act on the table of client queues, and `dispatch` is the switch of main.
--   Calc is what calc answers to a statement. Client is client.c: connect, parse_command and the
--   message of one round of main. Session puts client and server together.
-- - PosixQueue: Operating-systems/lab6/zad2, the same server over POSIX queues. It shares Calc
--   and the search for a free entry with MessageQueue. Descriptors, Serving, Newcomers and Shutdown
--   follow the queues that it opens. Client is client.c, and Visit puts client and server together.
-- - Pipeline: Operating-systems/lab5/zad1/main.c. extract_subcommands, get_pipeline, reset_vars and
--   exec_recursion keep their names, and `interpret` is main on the contents of the file,
--   where `opens k` says whether the `fopen` of round k succeeds. Parsing is
--   about lines, Sequence about the processes of one line, Session about files, Ending about the fuel.
-- - CLibrary: what these programs use of the C library's functions on strings (strcmp, strtok, atoi,
--   fgets and the numbers of sprintf), and how printing and reading numbers and words fit together.
-- - LineBuffer: Operating-systems/lab9. The critical sections of producer and consumer are functions
--   on the circular buffer. Monitor (zad1, a mutex and condition variables) and Semaphores (zad2) are
--   step relations over states that count the threads at each place of the code; Progress is about
--   their runs to the end.
-- - RecordFile: Operating-systems/lab2/zad1/main.c. A file is the sequence of its whole records;
--   sortSys, sortLib, copySys, copyLib and generate are actions on it.
-- - Barbershop: Operating-systems/lab7/zad1. Fifo is the queue of the waiting room in barbershop.h,
--   Protocol the loop of barber.c and clientProc of client.c over the semaphores, as a step relation
--   that counts the processes at each place of the code. Room and Seats are its further invariants, and
--   Progress is about the states in which no process can go on.
-- - ImageFilter: Operating-systems/lab8/zad1/main.c, the filter and its threads; the threads write
--   different columns, so each runs as a whole, in any order of the threads. Files is image_to_arr
--   and write_output on image files.
-- - Signals: Operating-systems/lab4. Requests is zad2/main.c, a parent that grants no permit until
--   enough children have asked: the globals are the record `Parent`, handler_USR, handler_CHLD,
--   handler_REAL, handler_INT and removeChildFromArr are functions on it, and Requests.System is the
--   parent with childProcedure of its children and the pending signals, as a step relation: the four
--   assignments of a round of main and the rounds of killEmAll are steps of their own, between which
--   signals are handled, and handler_USR is cut at each `waitpid`. handler_CHLD runs as a whole, children
--   have numbers above 255, and a run is followed up to a write in front of `children`. Order
--   is about the permits, Children about `n`, and Kills about killEmAll. Counting is zad3/main.c, likewise, for its three types of sending; a
--   handler of the child may be cut off by the one that ends it, in front of its count or behind it. A standard signal
--   that is pending already is lost; a `waitpid` of a handler may return at any time, since the handlers
--   are installed without SA_RESTART.
-- - BlockArray: Operating-systems/lab1/zad3a, the array of text blocks of blockManagement.c, its search
--   for the closest character sum, and the loops of main.c that fill, empty and replace blocks.
--   Orders is the loop of main over the words of the command line.
-- - Prelude: names, tests, lists, integers and the window of a ring that the parts share.
--
-- Bounds and fuel: a C `int` that stays a small count or index is a natural number, one that may
-- fall below zero an integer, and neither overflows in the sizes at hand, but for two places: calc of lab6 is undefined in the
-- model where a number does not fit an `int`, and the theorem on the closest sum of BlockArray has the
-- bounds as its hypothesis; `uint8_t`, `uint16_t` and
-- bytes wrap. Counted loops are recursions on the rounds left. The loop of ping_procedure gets as
-- many rounds as there are clients, which is enough because each round either passes a client or
-- removes one. The loop of the pipeline interpreter gets one round for each character of the file.
-- A `char` of RecordFile is signed.
--
-- Not modelled: socket set-up, the signal handlers of the servers, options and configuration files,
-- time measurement, and memory allocation (strings are values; where an allocation is too small the
-- model keeps the text, except that a text which does not fit `mtext` of lab6/zad1/client.c is not
-- sent). What text `printf` makes of its arguments is left open, as that of a double by `%lf`. The
-- servers of lab6 are not followed behind an access outside their table of clients. A
-- program that a pipeline runs is a function from its input to its status and output, and it reads
-- what the pipe holds when it starts. The other labs, and the projects in Java and Python, are not
-- modelled.
pub mod Prelude
pub mod CLibrary
pub mod Signals
pub mod SocketServer
pub mod DatagramServer
pub mod MessageQueue
pub mod PosixQueue
pub mod Pipeline
pub mod LineBuffer
pub mod RecordFile
pub mod Barbershop
pub mod ImageFilter
pub mod BlockArray
