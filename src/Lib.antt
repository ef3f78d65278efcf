-- ===== src/Lib.antt =====
-- Verification of the C programs of this repository. Each program stands in a folder of its own and
-- shares no code with the others; five of them are modelled.
--
-- Jeux, a server for tic-tac-toe games (hw5). A client invites another; an accepted invitation owns
-- a game; players are registered by name and rated.
--   * Jeux/Run.antt: runs that return, wait for ever or fault, and the semaphores (`P`, `V`) as
--     counts. The model runs one thread at a time.
--   * Jeux/Store.antt: objects by address, for pointers that are shared or freed.
--   * Jeux/Game.antt: hw5/src/game.c, every function. Child modules: Moves (game_apply_move),
--     Winner (game_is_over), Invariant (histories of calls), Lifetime (references), Text (parsing
--     and printing).
--   * Jeux/Invitation.antt: hw5/src/invitation.c, every function, over a store of games. Child
--     modules: States (the states that calls lead through), Closing (inv_close).
--   * Jeux/Player.antt: hw5/src/player.c, every function. Child module: Rating.
--   * Jeux/PlayerRegistry.antt: hw5/src/player_registry.c, every function, over a store of players.
--     Child modules: Lookup (preg_player_exists), Register (preg_register).
--   * Jeux/ClientRegistry.antt: hw5/src/client_registry.c, every function. Child modules: Waiting
--     (creg_wait_for_empty, the number of clients), Counted (the count against notEmpty), Lookup
--     (creg_lookup, creg_all_players).
--   * Jeux/Protocol.antt: hw5/src/protocol.c; rio_readn and rio_writen of the vendored
--     hw5/src/csapp.c are parameters. Child module: RoundTrip.
--   * Jeux/Server.antt: hw5/src/server.c, the service of one client over the two registries, for a
--     list of packets. Child modules: Users, Replies, Login,
--     Connection (the loop with Jeux/Protocol.antt), Interleaved (several services, one whole round
--     at a time).
--   * Jeux/Main.antt: hw5/src/main.c; what the service threads make of the registries up to SIGHUP is
--     an argument. Child module: Terminate.
--   The clients (hw5/include/client.h) are in the repository as a binary archive only: their type
--   and the functions called on them are parameters. The arithmetic of `double` and `pow` is the
--   parameter `Doubles`. Malloc, Calloc and sem_init are taken to succeed, and a fresh address is an argument.
--
-- Dtmf, a generator and detector of dial tones (hw1).
--   * Dtmf/Audio.antt: hw1/src/audio.c, every function; a stream is the list of its bytes. Child
--     module: RoundTrip.
--   * Dtmf/Args.antt: validargs of hw1/src/dtmf.c and the scanners it calls. A null pointer that is
--     read and the overflow of a `long` make the run undefined, a verdict of its own. Child modules:
--     Ranges (the settings that are left), Values (numbers, and two lines that go wrong).
--   * Dtmf/Generate.antt: dtmf_generate and its helpers. Child module: Samples (how many are written).
--   * Dtmf/Goertzel.antt: hw1/src/goertzel.c, every function.
--   * Dtmf/Detect.antt: dtmf_detect and its helpers; the loop runs on fuel, for which the bytes of the
--     stream and one more are enough. Child module: Ends.
--   * Dtmf/Main.antt: hw1/src/main.c. Child module: Ends.
--   * Dtmf/Copies.antt: check_string_equality and string_copy, which no other function calls.
--   The doubles and cos, sin and pow of the library are parameters (SoundMath, ToneMath).
--
-- Legion, a manager of daemons (hw4).
--   * Legion/Daemons.antt: the table of hw4/src/cli.c with legion_register, legion_unregister,
--     legion_start and legion_stop; the answers of the system calls (pipe, fork, read, kill, waitpid,
--     the signals) are arguments, and the calls of the `sf_` functions are a list of events. Child
--     modules: Names and Unique (the names), Steady (what starts and stops keep), Log (the events
--     against the table), Stuck (daemons that no command reaches).
--   * Legion/Commands.antt: legion_check_args, legion_quit and legion_logrotate, with the elements of
--     argArr as they are, NULL and dangling ones included. Child modules: Kept (what every command
--     keeps, from what the operations keep), Dispatch, Missing.
--   * Legion/Parse.antt: legion_parse_args; a line is the list of its bytes without the newline.
--     Child modules: Buffer, Printed (lines that are printed from fields).
--   * Legion/Child.antt: the child of legion_start between fork and execvpe. Child module: Buffers.
--   * Legion/Logs.antt: the log files that legion_logrotate moves. Child module: Rotation.
--   * Legion/Session.antt: run_cli, the signal handlers and the main of hw4/src/main.c, for a list of
--     what arrives while getline waits. Child modules: Ledger, Loop.
--   * Legion/Status.antt: legion_status_all.
--
-- Sfmm, a memory allocator (hw3), every function of hw3/src/sfmm.c that is called. The addresses of
-- the lists and of the heap, `sf_magic` and the success of `sf_mem_grow` are the parameter `Machine`.
--   * Sfmm/Memory.antt: memory as a function from addresses to 64-bit words, and the words of a block.
--   * Sfmm/Lists.antt: the free lists and sf_coalesce. Child modules: Ring and Unlink (a list as a
--     doubly linked ring), Table (all ten lists), Removal, Search, After (what sf_coalesce keeps).
--   * Sfmm/Alloc.antt: sf_malloc and the first page. Child modules: BlockSize, Quick, Endless.
--   * Sfmm/Release.antt: sf_free, sf_realloc and the quick lists. Child modules: Quick (the
--     lengths), Stack (the blocks of the quick lists), Resize.
--   A walk along a list runs on fuel, since a list that is not well formed may have no end; more fuel
--   than a well-formed list has blocks is enough. The two loops over a block size end within 16 and
--   40 rounds. A read or write outside the heap, which C leaves undefined, is one of the memory there.
--
-- Finddup, a finder of files with the same contents (hw2).
--   * Finddup/Contents.antt: the checksum of a file, with hw2/src/crc32.c, and fullcmp.
--   * Finddup/Scans.antt: the list of files and scan1, scan2 and scan3 of hw2/src/finddup.c. The
--     search of scan2 runs on the number of files as fuel, since each round takes one.
--   * Finddup/Names.antt: the file of names and getfn. Child module: ReadBack.
--   * Finddup/Order.antt: comp1.
--   * Finddup/Main.antt: finddup_main, with its options, composed of these. Child modules: Printed,
--     Single (no name is there twice).
--   * Finddup/Compare.antt, Division.antt (the checksum), Moves.antt, Output.antt and Duplicates.antt
--     (the scans): what is proved of them.
--   `qsort`, the results of `getopt_long`, the answers of `lstat`, the contents of the files and the
--   entry behind the last file are arguments. The messages to the standard error are left out, and so
--   is what is compiled with DEBUG only.
--
-- Prelude.antt passes on the library's names; its children hold integers (Int), the decimal text of
-- `sprintf` (Decimal, on fuel n + 1, which suffices since n / 10 < n), laws of the bit operations
-- (Bits), C strings (Strings) and results that may be missing (Options). Counts and ratings of type
-- int are unbounded integers; the words and samples of Dtmf/Audio keep their 32 and 16 bits. All
-- loops but those of Sfmm, scan2 and dtmf_detect are recursions on lists or texts.
--
-- Not modelled: rounds of Jeux that overlap in time; the accuracy of the tones of Dtmf; what
-- Legion prints but for the table of daemons; debug output, and the main functions of hw0 and hw3,
-- which are input and output or a fixed run only; the vendored hw5/src/csapp.c and hw2/src/getopt.c.
-- Some memory is taken to be long enough where the sources do not check it: errMsg of legion_stop, the
-- paths of legion_logrotate, and the line that fullcmp copies the names of the files to. `fopen` of
-- NULL, which dtmf_generate calls without a noise file, is taken to return NULL.
pub mod Prelude
pub mod Jeux
pub mod Dtmf
pub mod Legion
pub mod Sfmm
pub mod Finddup
