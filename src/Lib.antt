-- ===== src/Lib.antt =====
-- Verification library of EclipseCode, embedded C modules for queues, timers, buttons and their
-- drivers. It models code under CommonSource, CustomizedModule and [T]LogicLab; a path below starts
-- at the repository's root.
--
-- The program's parts and their interaction. Three modules lend out nodes by number, and the caller
-- keeps its own data beside them: the loop queue (CommonSource/MulLoopQueue/loop_queues.c), a ring
-- of node numbers with a busy flag for each; the single linked list (m_list_node.c beside it), which
-- borrows its nodes from an array; and the priority queue (m_priority_queues.c), whose nodes hang in
-- ten chains by their priority, over a table with a bit for each priority, in which the leading
-- zeros of a word (CommonSource/AppCommon.c) find the first. They share the result codes and the
-- null test. The flash handler and the test benches are their clients.
--
-- Files and code:
-- Prelude and its children hold Boolean tests, lists that stand for C arrays, the moduli of the
--   machine words, the bits of words, the codes of CommonSource/AppError.h, and calls through a
--   pointer.
-- LoopQueue models loop_queues.c. `ListManager` is `sListManager` with the cells that it points to,
--   and `initialize`, `first_in`, `first_out`, `realse_buf` are the functions behind the null test;
--   `simple_queue_first_in` and its like are the functions of loop_queues.h. Spec has the FIFO with
--   busy flags, Inv the invariant, Refine the refinement, Release what happens to busy nodes.
-- ListNode models m_list_node.c. A pointer to a node is its place in the array `Space`, the null
--   pointer is `none`. Edit has the functions that add and take nodes at the ends, Place those that
--   work at a place, and Api the functions of m_list_node.h with their null tests. Cells, Chain and
--   Inv relate the array to the sequence of its nodes; Adds, Insert, Removes, Pull and Values prove
--   what each function does to it; Spec has the bounded sequence, and Sequence the refinement.
-- LeadZero models `GetLeadZeroCount` of AppCommon.c and its table.
-- PriorityTable models the table of m_priority_queues.c. Bit has what its functions do to each bit,
--   Highest the search for the first bit, Order the invariant, Sequence any sequence of changes.
-- PriorityQueue models the rest of m_priority_queues.c: Chains has `NodeTailAdd` and `NodePullAway`,
--   Queue the functions of the queue behind the null test, Api those of m_priority_queues.h. Nodes
--   and Walk have lists of nodes and the loops along them, Inv the invariant; Entry and Removal keep
--   it, Enter and Push go through the branches of an insertion, Pull, Release and Leave through those
--   of a removal. Spec is the step relation, Calls and Refine the refinement, Init the queue after
--   `mPriorityQueueInitialize`.
-- StateMachine models CommonSource/StateMachine/StateMachine.c, which runs tables of functions that the
--   modules with states hand it. Simple has `SimpleStateMachineRun`, Hops `StateMachineRun`, Range and
--   Targets the states that each can end in. The fuel of `simple_loop` is the number of tests of the
--   loop's condition, one more than its rounds.
-- BitOperation models CommonSource/Math/bit_operation.c, the bits of one and two bytes; Number has
--   `GetBinaryBitNumber` with its table.
-- ButtonModule models CustomizedModule/ButtonModule/ButtonModule.c, what each button keeps and its
--   flags; Actions has the eleven functions of the states for the simple engine of StateMachine, and
--   Counters what `TimeManager` keeps. Monitor has `ButtonStateMonitor`, with the calls back to the
--   user as a list of reports, Turns the run of one action, Pushed the turns of a pushed button and
--   Held many of them, Siblings the turns of the other buttons, Told the reports, Rounds one round of
--   all buttons, and Delivered the rounds while one of them is held down.
-- Lcm models CommonSource/Math/lcm_gcd.c, over whose result the timers of AppTimer start again.
-- Command models CommonSource/FileOperation/command.c, over the ring of LoopQueue; Hex has what
--   `CharToHex` reads.
-- RandomNumber models CommonSource/Math/random_number.c.
-- PowerSaving models [T]LogicLab/TB_PowerSaving: the parent has the factors of PenState.c and the
--   inputs of PowerSaving.c, Decide the decisions, Steps the loop that Connected, Disconnected, Quiet,
--   ShutDown and ChargeWhenShutDown share, Basic the basic states. Scripts has the functions of
--   PowerSaving.c that scripts call, over the inputs of Scene and with the Generators, Conditional
--   `ConditionalDoAsCommand` of [T]LogicLab/ScriptsCommandModule/HexCommand.c, and Loops the command
--   that loops. Checks, Next, Entered and Follow show what state follows which.
-- AppTimer models CommonSource/IrqAndTimer/app_timer.c: an `AppTimerEntry *` is a number, and the
--   entries are a function of it. Created has what rows of `AppTimerCreated` leave, Hooks one tick, Spec
--   the endless clock, Refine the runs and Start the runs behind `AppTimerModuleStart`.
-- SystemTimer models the timer entries of user_irq.c in the same folder; Period has when they are called.
-- TimeManager models TimeManagerExtern.c there; Places has the searches among its
--   ten places, Inv the invariant, Turns a turn of the places, Handle the
--   start, a place taken and given back, and the ticks.
-- Flash models CustomizedModule/FlashReadWrite/FlashEventHandle.c in its default configuration, a client
--   of LoopQueue, PriorityQueue and StateMachine. Operations and SectorOperations have its requests,
--   Api the functions of FlashEventHandle.h, Checks the tests of addresses, Requests what the three
--   plain requests keep, Sectors the requests by sector.
--
-- Bounds. A counter of type `uint16_t` keeps its wrap-around written out. Loops are structural
-- recursion on the number of rounds left, which the code bounds as well; only `simple_loop` runs on
-- fuel, and a theorem says that it is enough. An out-of-range read of an array has a default value,
-- and an out-of-range write changes nothing; the invariants of the queues, the list and the table of
-- priorities say that neither happens.
--
-- Not modelled: printing and the debug callbacks, which the default configuration compiles out,
-- threads, locks, sleeping and files, which are system calls, and the test programs; of the pen,
-- `onTick` and NewPenState.c, which use an older interface of the simple engine. Of the priority
-- queue, `PriorityTableGetLowest` and `GetCurrentUsedPriorityScope`, which only read. A function
-- `DoesBreak` answers by the state and the counter alone: one that keeps a state of its own, or works on
-- the table through its pointer, is left out.
pub mod Prelude
pub mod LoopQueue
pub mod ListNode
pub mod LeadZero
pub mod PriorityTable
pub mod PriorityQueue
pub mod StateMachine
pub mod BitOperation
pub mod ButtonModule
pub mod Lcm
pub mod AppTimer
pub mod SystemTimer
pub mod TimeManager
pub mod Flash
pub mod Command
pub mod RandomNumber
pub mod PowerSaving
