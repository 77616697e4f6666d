-- ===== src/Lib.antt =====
-- A verification library of the BCP accelerator of the CDCL SAT solver: the Amaranth hardware
-- under src/hardware/ that takes over unit propagation, its host interface, its driver in C, and the
-- propagation and backtracking of the solver in C.
--
-- The program. Software writes clauses, watch lists and assignments into three memories, and then
-- starts the accelerator on a literal that has become false. The watch list manager streams the
-- numbers of the clauses that watch the literal; the prefetcher reads each clause; the evaluator
-- compares its literals with the assignments, one in each cycle; implications of unit clauses go
-- into a FIFO, and a conflict is latched. A counter of clauses in flight says when the run ends.
--
-- How hardware is modelled. A module has a record of its registers (State), of its input ports
-- (Inputs) and of its output ports (Outputs). `outputs` gives the combinational outputs, and `step`
-- the registers after a clock edge; modules are composed as the code wires them. A signal of one bit
-- is a Bool, a wider one a natural number; an assignment to a signal of fewer bits keeps the low
-- ones (`low_bits`). Signals that a state does not drive are 0. The language's memory primitive is
-- `Memory`: reads beyond the depth give 0 and writes there are lost. Registers start at their reset
-- value, but the theorems hold from any state that meets their hypotheses. Inputs of a module are
-- taken to fit their ports only where a theorem says so. A run is a
-- recursion on the list of the inputs of its cycles.
--
-- The files:
--   Base, Memory: tests, words of bits, lists, and the memory primitive.
--   ClauseMemory (src/hardware/memory/clause_memory.py), WatchListMemory
--     (src/hardware/memory/watch_list_memory.py), AssignmentMemory
--     (src/hardware/memory/assignment_memory.py): `step` is `elaborate`.
--   ClauseEvaluator (src/hardware/modules/clause_evaluator.py): `latch`, `accumulate` and `result`
--     are the states IDLE, EVAL and OUTPUT. ClauseEvaluator.Verdict describes the answers,
--     Run and Answer follow the state machine, Session takes clauses one after another,
--     and Semantics reads answers as logic.
--   ImplicationFifo (src/hardware/modules/implication_fifo.py), for every depth, against the
--     bounded queue of ImplicationFifo.Queue.
--   WatchListManager (src/hardware/modules/watch_list_manager.py); WatchListManager.Front wires it
--     to its memory as src/hardware/modules/bcp_accelerator.py does.
--   ClausePrefetcher (src/hardware/modules/clause_prefetcher.py); ClausePrefetcher.Fetch wires it
--     to the clause database in the same way.
--   BcpAccelerator (src/hardware/modules/bcp_accelerator.py): the whole pipeline with its control.
--     Flow and Invariant follow the counter of clauses in flight, Opening the first cycles of a run,
--     and Single a run on a list of at most one clause from start to end.
--   HostInterface (src/hardware/communication/host_interface.py): `accept`, `receive`, `exec_outputs`
--     and `shift_out` are the states CMD_WAIT, PAYLOAD_RECV, CMD_EXEC and the two senders.
--     HostInterface.Commands has the commands of the protocol, Packets what is sent back, Session
--     sequences of commands, and Started the start of a run.
--   UartTransmitter (src/hardware/communication/uart_tx.py), for every divisor, and UartReceiver
--     (src/hardware/communication/uart_rx.py), whose theorems are at the divisor 12 that
--     src/hardware/top.py gives it; UartReceiver.Errors has lines with faults, and Blocks
--     and Heard take any run apart into rests and frames.
--   BcpTop (src/hardware/top.py): the receiver, the host interface, the accelerator and the
--     transmitter between the two pins, and the heartbeat of the LED; BcpTop.Session follows
--     commands from the receive pin to the memories, BcpTop.Start a start from there to the
--     accelerator, and BcpTop.Transmit what is sent to the transmit pin.
--   JtagHostInterface (src/hardware/communication/jtag_host_interface.py): Port is the clock
--     domain of the chain and Core the system's, with `synchronise`, `process`, `clear_pulses` and
--     `fsm_in` in the order of the code, over the registers of Core.Registers. The signals of the
--     JTAGG primitive are inputs. Words and Scan follow the shift registers, Requests has the
--     words of the commands, Stages to Stores follow a word to the write ports, and Life, Answers
--     and Start the run.
--   BcpTopJtag (src/hardware/top_jtag.py): the JTAG host interface and the accelerator.
--   Cdcl (src/software/CDCL.c, src/software/CDCL.h): the state of the solver. An array is a function of
--     the index, without its capacity; the scores of the variables are left out. Cdcl.Propagate is
--     propagate, whose places in the code are taken apart in `visit` (the body of the loop over a list)
--     and `walk` (the loop); Watches to Walk follow the clauses and the models over it, Guard to Settled the
--     watched literals, Bounds the length of the trail, and Formed the states that adding clauses leads to. Cdcl.Backtrack is backtrack, followed by Restore and Unwind.
--   UartDriver (src/software/hw_interface.c): `init_bytes` is what hw_init writes, which
--     UartDriver.Commands reads as commands and UartDriver.Upload follows into the memories;
--     `hw_propagate` is hw_propagate, with UartDriver.Answers on one report, UartDriver.Rounds on
--     all of them, and UartDriver.Written and UartDriver.Exchange on every byte.
--   Tests: runs on small inputs, and the theorems at concrete inputs.
--
-- Two clocks. The JTAG host interface has two clocks without a fixed relation: a run is a sequence of
-- edges of either, in any order. A register that one domain reads from the other is read as it
-- stands at the edge; the electrical behaviour of a signal that changes at the edge is not modelled.
--
-- Parameters of the source at their default: 8192 clauses of at most 5 literals, 512 variables,
-- 1024 literals, watch lists of at most 100 entries. The depth of the FIFO is a variable.
--
-- Loops in C. propagate and backtrack have fuel, and so has the driver (src/software/hw_interface.c), for
-- the packets of a run and for the runs; the theorems say how much is enough. The list that propagate
-- cuts in place is put back when the loop over it is left; nothing is added to it meanwhile. The
-- numbers are natural numbers, what goes over the serial port is two lists of bytes, and reads that
-- would wait for ever end a run of the model as such.
--
-- Not modelled. The rest of the solver in C: conflict analysis, the scores and the
-- search of src/software/CDCL.c, the JTAG driver
-- src/software/hw_interface_jtag.c and the command line src/software/main.c; of the UART driver, the
-- system calls. src/hardware/communication/jtag_host_interface legacy.py: a copy of
-- jtag_host_interface.py, byte for byte. The JTAGG primitive of the chip: its signals are inputs.
-- Package files, test benches and build products.
pub mod Base
pub mod Memory
pub mod ClauseMemory
pub mod AssignmentMemory
pub mod WatchListMemory
pub mod ClauseEvaluator
pub mod ImplicationFifo
pub mod WatchListManager
pub mod ClausePrefetcher
pub mod BcpAccelerator
pub mod HostInterface
pub mod UartTransmitter
pub mod UartReceiver
pub mod BcpTop
pub mod JtagHostInterface
pub mod BcpTopJtag
mod Tests
pub mod Cdcl
pub mod UartDriver
