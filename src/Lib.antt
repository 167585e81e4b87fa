-- ===== src/Lib.antt =====
-- A model of the Rust bindings for DPDK and of their example programs.
--
-- The crate `rte` (rte/src) wraps the C library: most of its methods call one C function and turn
-- its return code into a result. The examples (rte/examples) are programs over it with logic of
-- their own. The C functions, bound in rte-sys, are outside the repository's Rust code. They are the
-- record `Dpdk.Dpdk`: what a call answers is a function of the history, the list of all calls made
-- before it. A method is a computation of the monad `M`, which logs its calls and ends with a value,
-- a panic or an exit. So a theorem about all of `Dpdk` holds for every behaviour of the library.
--
-- The files:
--   Prelude, Outcome, Dpdk     shared notation, lists and integers; panics and bounds checks; the calls
--   Errors                     rte/src/errors.rs: `AsResult`, `rte_check!` as `rte_check` over a call,
--                              `rte_check_value` over a variable, `rte_check_non_null` over a pointer
--   Text                       of the standard library: `from_str_radix`, `split`, printing a number
--   Ether                      rte/src/ether.rs: `EtherAddr`; Types (frame types, the VLAN calls)
--   Lcore                      rte/src/common/lcore.rs: `next_id`, `foreach_lcores`, `index`; Roles has the
--                              roles and sockets
--   Launch                     rte/src/common/launch.rs: the calls, and in Context the boxed argument
--   Spinlock                   rte/src/common/spinlock.rs: `Lock` and its guard
--   Ethdev                     rte/src/ethdev.rs: `EthDevice for PortId`, `EthConf`, `TxBuffer`; Rss
--                              (`RssHashFunc`); Info (device information, speeds and offloads)
--   Bond                       rte/src/bond.rs: `BondedDevice for PortId`
--   Kni                        rte/src/kni.rs: `KniDevice`
--   Utils                      rte/src/utils.rs and rte/src/macros.rs: null checks; Strings: `as_cstring`,
--                              `to_cptr!` and the memory behind them; Callbacks: `CallbackContext`
--   Eal                        rte/src/common/eal.rs: `init`, `cleanup`, `exit`
--   Device, Devargs            rte/src/common/dev.rs and devargs.rs: devices, hotplug, their arguments
--   Cycles                     rte/src/common/cycles.rs: the waits, in 32 bits
--   Log                        rte/src/common/log.rs: types, levels and the calls
--   Malloc, Memory             rte/src/common/malloc.rs and memory.rs: allocations, and references
--   Bitmap                     rte/src/common/bitmap.rs: the calls, over the functions of the C library
--   Keepalive                  rte/src/common/keepalive.rs: the states, the callbacks and the calls
--   Version                    rte/src/common/version.rs: the version text
--   Build                      rte-build: Cpu (the flags of the processor), Libs (the libraries that are
--                              linked, the target) and Flags (what the compiler and Cargo are told)
--   Cmdline                    rte/src/cmdline.rs: `CmdLine` and its statuses; PortList; Tokens; Insts
--                              (`inst`, `new`, the boxed handler); Scope (the life of a command line);
--                              Macros (the token macros); Lines (instructions)
--   Mbuf                       rte/src/mbuf.rs: addresses; Flags; Pool (the checked calls); Sharing (`Clone`
--                              and `Drop` as steps on a buffer's handles and its reference count); Segments
--                              (`into_raw`, `prefree_seg`); ExtBuf (`ExtSharedInfo`); Plain (the other calls)
--   Mempool                    rte/src/mempool.rs: `get`, `put`; Drained (taking all objects); Walk (the
--                              callbacks over objects and pools); Create (`create` and its callbacks);
--                              Caches (caches, look-up)
--   Examples.Args, .Ports      what the examples share: `prepare_args`, the enabled ports, their links
--   Examples.L2fwd             rte/examples/l2fwd/main.rs: Options (`parse_args`), Pairs and Queues (two
--                              loops of `main`), Init (set-up and close of the ports), Main (`main`,
--                              composed of these)
--   Examples.Kni               rte/examples/kni/main.rs: Config (`parse_config`), Ports (set-up and
--                              callbacks), Ports.Alloc (`kni_alloc`, `kni_free_kni`), Main
--                              (`main`, composed of these)
--   Examples.Bond              rte/examples/bond/main.rs: Frames (`strip_vlan_hdr`, the body of
--                              `lcore_main`), Ports (set-up), Commands (`CmdActionResult`), Prompt (the
--                              instructions) and Main
--   Examples.Ethtool           rte/examples/ethtool/main.rs: the frames of a port in `slave_main`; what is
--                              received and sent in a round is an input; Commands: `lock_port` of
--                              rte/examples/ethtool/ethtool.rs and the commands of ethapp.rs;
--                              Ports: `setup_ports`, and `slave_main` over all ports; Main: `main` and the
--                              command line of ethapp.rs; Listings: the commands over all ports; Prompt: the
--                              instructions; Session: a line at the prompt
--   Examples.Cmdline           rte/examples/cmdline/main.rs: the object list (Objects: its laws), Completion
--                              (the token operations), Commands (`add`, `show`, `del`), Spec (the same
--                              commands on a finite map, a function of names), Refinement and Main
--                              (`help`, `quit` and `main`)
--   Tests                      runs at concrete inputs
-- A function has the name of the source's function; a loop or a block of `main` has a name for what it
-- does. Numbers are natural numbers, with the wrap-around or the overflow panic of their width written
-- out where a value can reach it; a return code is an integer. A list of 32 entries stands for an array
-- over ports (RTE_MAX_ETHPORTS), one of 128 for an array over cores (RTE_MAX_LCORE), and an index out
-- of bounds is a panic.
--
-- Fuel: the loop of `next_id` takes a number of rounds; 128 are enough where it ends at all. Every
-- other loop is a recursion on its list or its count.
--
-- C code with a state of its own is a record of functions over that state, with what its manual says
-- as a second record that the theorems take: `Spinlock.SpinLaws`, `Mbuf.Sharing.MbufLaws` (the reference
-- count), `Mempool.GetLaws` (the objects that a core can reach). Memory that Rust and C code share is
-- explicit where its lifetime matters: a list of boxes or strings, each live or freed, an address being
-- a place in it. In Cycles, whether the build checks for overflow is a parameter.
--
-- Not modelled: what is printed and logged, signals, the C loops that forward packets, and the contents
-- of packet buffers, but for the frames of the bond example, which are lists of bytes. The dumps, clocks
-- and random numbers of rte/src/common, memzone.rs, ring.rs, `lastseg` and `from_indirect` of mbuf.rs,
-- the example helloworld, `drvinfo` of ethtool, the generation of the bindings, and the bindings
-- themselves in rte-sys are left out. What C code finds behind a pointer of `to_cptr!` is freed memory
-- (Utils.Strings); the calls of `Dpdk` hold the text that was meant. The order in which the
-- object map is iterated is that of its list. The lock functions of the C library, its choice of the
-- instruction for a line, the test for the end of a token, and of Rust's libraries the UTF-8 test, the
-- text of an address and the option parser, are parameters.
pub mod Prelude
pub mod Outcome
pub mod Dpdk
pub mod Errors
pub mod Text
pub mod Ether
pub mod Lcore
pub mod Cycles
pub mod Log
pub mod Ethdev
pub mod Launch
pub mod Spinlock
pub mod Bond
pub mod Kni
pub mod Cmdline
pub mod Mbuf
pub mod Mempool
pub mod Examples
pub mod Build
pub mod Utils
pub mod Version
pub mod Eal
pub mod Malloc
pub mod Memory
pub mod Bitmap
pub mod Device
pub mod Devargs
pub mod Keepalive
pub mod Tests
