-- ===== src/Lib.antt =====
-- A verification library of the RISC-V emulator: a hart with its devices, as executable functions,
-- and theorems about them.
--
-- The emulator runs one hart (src/cpu) on a bus (src/bus.rs) that holds the guest's RAM and four
-- devices: a timer (src/clint.rs), an interrupt controller (src/plic.rs), a UART (src/uart.rs) and a
-- block device (src/virtio_blk.rs). The loader (src/loader.rs) puts a program into the RAM. The loop
-- of src/main.rs steps the hart: an instruction is fetched through the address translation
-- (src/cpu/mmu.rs), decoded (src/cpu/decode.rs) and executed (src/cpu/execute.rs); traps and
-- interrupts go through the control registers (src/cpu/csr.rs). Every 1024 steps the devices have
-- their turn and their interrupt lines go into mip. With --jit, blocks of machine code
-- (src/jit.rs) stand in for steps and call back for loads and stores.
--
-- The files, by the part that they model. Functions keep the source's names; `new` is the
-- constructor of each part.
--   Clint, Plic, Uart: the devices; a method is a function from the device to its result and the
--     device afterwards. What the UART prints is the list `out`. Timer, Select, Claim, Regs, Query,
--     Gate and Receive below them hold the proofs.
--   VirtioBlk: the registers of the block device; VirtioBlk/Queue: process_queue and do_request.
--     The backing file is a parameter, the record `Disk` of seek, read_exact and write_all over a
--     type of files, of which nothing is assumed. Registers, Frame and Drain hold the proofs.
--   Ram: the bytes of the guest's memory, as a list; Bus: the address map, load and store.
--     Bus/ByteMemory describes the RAM as a map from addresses to bytes, and sequences of requests.
--   Csr: the registers, trap entry and return. `read` and `write` are split at the addresses from
--     0x100 to 0x1FF, S-mode's.
--   Mmu: the TLB, check_perms and translate, whose arms are hit, walk and leaf.
--   Decode: the instructions and the immediates; Decode/Full and Decode/Compressed: decode and
--     decode_rvc, the former with the arms of its opcodes in Integer, Memory and Control.
--   Cpu: the hart, deliver_trap and check_interrupts; Cpu/System: the system instructions of execute.
--     Trap, Interrupts, Registers and Return below it hold the proofs, Invariant the invariant.
--   Execute: mmu_load, mmu_store and how an arm of execute ends; Execute/Alu: the values of the
--     integer instructions; Execute/Float: OP-FP and the fused multiply-add on bit patterns, whose
--     formats and classes are in Execute/Float/Formats;
--     Execute/Memory: loads, stores, LR, SC and the AMOs; Execute/Full: execute, an arm for each of
--     the instructions; Execute/Step: step. The arithmetic, the roundings and the casts of f32 and
--     f64 are the host's: a parameter, the record `Floats`, of which nothing is assumed; what the
--     source does on the bits (classes, signs, comparisons, boxes) is written out.
--   Machine: the loop of src/main.rs without --jit, and the turn of the devices. What the host
--     supplies in a turn, the bytes from standard input and the time passed, is an argument of each
--     round.
--   Jit: jit_load8 to jit_store64 by their widths, rvc_j_imm and rvc_b_imm.
--     Jit/Asm: the instructions of the `dynasm!` blocks, as a language of which a block is a list,
--     and Jit/Asm/Run: what they do to the host's registers, its stack and the hart. They have the
--     meaning that the manuals of x86-64 give them; the callouts leave numbers of which nothing is
--     known in the registers that a call may change.
--     Jit/Emit: the emitters, Jit/Arms: the arms of compile by instruction, Jit/Compressed:
--     emit_rvc, Jit/Compile: the cache and compile. Straight, Jumps and LoadsStores put the code of
--     an instruction beside execute, Blocks the code of a block; Shapes, Arithmetic, WordArithmetic,
--     MoreArithmetic, Division, WordDivision, Accesses, Callouts and Relocation hold their lemmas,
--     Returns, Chain, Bounds and Cache the proofs on compile.
--   Machine/Compiled: the loop with --jit: cached blocks, compilation after a step, and the flags
--     that drop the cache.
--   Loader: load_elf, on what goblin's parser finds in the file.
--   Dtb: build_dtb of src/dtb.rs, over the writer of vm-fdt, which is a parameter, the record
--     `FdtWriter`; Dtb/Recorder: a writer that records the calls.
--   Base: what they share: tests, lists, machine words, bits, and results.
-- A module Tests in each part applies the theorems to concrete states.
--
-- Numbers are natural numbers: a word of w bits keeps its wrap-around written out as % 2 ^ w, and an
-- i64 is the pattern that it has as a u64. A call that may fail ends in `ok`, `err`, `panic` or
-- `hang` of Base/Effect, with the state that it leaves; `panic` is an index out of range or an
-- unreachable!, and additions that only overflow in a debug build wrap. An attempt of an
-- instruction that ends in `err` carries the cause and the value of the trap to deliver.
--
-- Bounds. The loop of process_queue runs until the guest's ring is drained, which the guest decides,
-- so `drain` takes a number of rounds and ends in `hang` when they are used up; every definition that
-- may store takes that number. The ring is at most 65535 entries ahead of the device, and the loop
-- stops at the round that finds it empty, unless the guest's own requests move its index. The
-- descriptor chain is cut at 16 as in the source, the page-table walk at the depth that satp gives,
-- and the scan of the interrupt controller at 63. The loop of src/main.rs has no end; `run`, and
-- `loop` with --jit, make as many rounds as there are supplies. `compile_from` takes fuel for its
-- turns, 128, and counts the instructions as the source does: no block has more than 128.
--
-- Not modelled: the encoding of the assembly into bytes by dynasm and the memory that holds them; the
-- bytes that vm-fdt makes of the device tree; the command line, the terminal and the threads of
-- src/main.rs; the tracer, the dumps and whatever only prints.
mod Base
pub mod Clint
pub mod Plic
pub mod Uart
pub mod Ram
pub mod VirtioBlk
pub mod Bus
pub mod Csr
pub mod Mmu
pub mod Decode
pub mod Cpu
pub mod Execute
pub mod Machine
pub mod Jit
pub mod Loader
pub mod Dtb
