-- ===== src/Lib.antt =====
-- rdnstun answers the packets of a tun device as if chains of hosts stood behind it: a traceroute
-- to an address of a chain shows the hosts of the chain one after another.
--
-- `Base`: numbers, lists and memory. Memory is the function from offsets to bytes; a pointer is
-- the memory from an offset on (`at`). The machine is little-endian. Fixed-width integers are
-- natural numbers with the wrap-around written out.
-- `Utils` models utils.h: `argtoi`, with `strtol` of the C library on the bytes of a string.
-- `Inet` models inet.h and inet.c: `cksum_continue`, `cksum_finish`, `cksum_append`
-- (`_inet_cksum`), `membcmp`, `is_network` and `shift`. `none` is a shift that C leaves undefined.
-- `Inet.Sum` and `Inet.Checksum` are about the checksum, `Inet.Bitwise` about `membcmp`.
-- `Host` models host.h and host.c: `Host.V4.reply` is `FakeHost_reply`, `Host.V6.reply` is
-- `FakeHost6_reply`. The packet and its length are passed in and out; the code between the labels
-- `append_header`, `no_append` and the end is `append_header`, `no_append` and `fill_cksum`. The
-- bytes of a packet behind its length are whatever the buffer holds.
-- `Chain` models chain.h and chain.c: `find`, `array_find`, `reply4`, `reply6`, `compare_chains`,
-- `shift_chain` and `copy_chain`. Arrays that end by a null entry are lists with that entry; a read
-- past the end is `fault` or `none`. The loop of `find` runs down the TTL, so no other fuel is
-- needed. The host's address is written by `Host`, the routes are compared by `Inet`.
-- `Parse` models `HostChain_init` in chain.c: the text of an option to a chain. `pton` stands
-- for `inet_pton` of the C library and `junk` for fresh memory; `bad` is behaviour that C leaves
-- undefined. `init` is what follows the allocations, `init_call` the function with their
-- answers. It reads numbers with `Utils` and tests networks with `Inet`. `Parse.Text` has what
-- it uses of strings, and `Parse.Messages` the texts of `HostChain_strerror`. `Parse.Grammar` is
-- the syntax of an option, as the usage gives it, with what its items mean, and `Parse.Spell` is
-- about the parser on it; `Parse.Hosts` and `Parse.Listed` are about the texts that list
-- addresses.
-- `Options` models the options of `main` in rdnstun.c: `handle_all` runs over those that
-- `getopt` gives, with what the allocator answers, and `prepare` makes the arrays of chains of
-- them. The state is in `Options.State`. The copies of -E go through `copy_chain` and
-- `shift_chain` of `Chain`, -4 and -6 through `Parse`. `Options.Collected`, `Options.Served`,
-- `Options.Routed`, `Options.Traceroute` and `Options.Traceroute6` are about the whole way of a
-- packet, from the text of the option through `Parse`, `Chain` and `Host` to what `Tunnel`
-- writes.
-- `Memory` follows the blocks that `main` and the functions of chain.c allocate and free: it runs over
-- the same options as `Options`, and its state is the list of live blocks (`Memory.Allocator`).
-- `Iface` models iface.c and the rest of `main`: `run` opens the device, starts the threads and closes
-- the device. The state is the list of open descriptors; the system's answers are the input.
-- `Tunnel` models the function `rdnstun` of rdnstun.c, which passes each packet of the device to
-- `Chain` and writes the answer. `loop` takes one `Round` of input for each `poll`.
-- `Tunnel.Messages` has what `rdnstun` logs in a round, through the macros of `Log`.
-- `Threads` models the threads of rdnstun.c and the flag `rdnstun_shutdown`: `run_all` runs a schedule,
-- a list of `Tick`s, each a round of `Tunnel` on one thread, the creation of a thread or the signal.
-- `Threadname` models threadname.c, with the functions of the pthread library as parameters, and how
-- rdnstun.c names its threads.
-- `Log` models log.h and log.c: `log` is `Logger_log_func`, with `event_init` and `destroy` for the two
-- ends of an event. An `Output` is what is written, and how the call ends. `Log.Events` has `LOGEVENT`
-- with its blocks, the handler of SIGSEGV among them, and `Log.Macros` the macros that are inlined.
--
-- A module with a name that ends in `Examples` applies the theorems of a part to concrete
-- packets, chains and strings.
--
-- Not modelled: the debug messages of host.c and chain.c, the text of the usage, the questions
-- put to the user while a debugger is awaited, the constants of color.h but for those of
-- `logger_init`, and the macros of macro.h, which are read expanded.
pub mod Base
pub mod Utils
pub mod Inet
pub mod Host
pub mod Chain
pub mod Parse
pub mod Tunnel
pub mod Options
pub mod Iface
pub mod Log
pub mod Threadname
pub mod Threads
pub mod Memory
