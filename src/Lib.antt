-- ===== src/Lib.antt =====
-- The machine-mode firmware of the Rocket chip on the KC705 board: the
-- proxy boot loader of bbl/ that runs beneath a RISC-V kernel, and the
-- drivers of driver/ that the first stage loads it with.
--
-- How the parts interact. A trap from the kernel reaches the firmware with
-- the cause, the pc and the saved registers. An illegal instruction goes to
-- `illegal_insn_trap` of bbl/mtrap.c, which fetches the instruction word,
-- dispatches on its opcode, and calls a routine of bbl/emulation.c; a
-- misaligned access goes to `misaligned_load_trap` or
-- `misaligned_store_trap` there. A routine reads the saved registers through
-- the macros of bbl/mtrap.h and ends in one of three ways: the trap returns
-- (0), the instruction is handed back as illegal (-1), or the access it made
-- faults and the nested trap is redirected to the kernel. A machine call goes
-- to `mcall_trap` of bbl/mtrap.c; a device request waits in one of two queues
-- that are linked through the supervisor's own messages. The memory of a
-- loaded program is mapped by bbl/vm.c, whose regions own the files of
-- bbl/file.c that they are read from.
--
-- Files and code.
--   Emulation/State: the hart that a trap handler sees: the saved registers,
--     tp, mepc, the control registers and memory (bbl/mtrap.h, struct and
--     macros), and the three ways a handler ends.
--   Emulation/Decode, Emulation/Encoding: the instruction fields of
--     bbl/mtrap.h (GET_RS1, IMM_I, GET_PRECISION) and the match and mask
--     words of bbl/encoding.h.
--   Emulation/Memory: unpriv_mem_access and get_insn of bbl/mtrap.h.
--   Emulation/Csr: fcsr, frm and fflags in tp, emulate_read_csr,
--     emulate_write_csr and emulate_system.
--   Emulation/MulDiv: emulate_mul_div and emulate_mul_div32.
--   Emulation/Misaligned: misaligned_load_trap and misaligned_store_trap.
--   Emulation/Float: the floating-point routines of bbl/emulation.c;
--     Emulation/Float/Access: the float loads and stores;
--     Emulation/Float/Convert: the conversions to and from integers.
--   Emulation/Trap: illegal_insn_trap and its table.
--   Mcall: the machine calls and the device queues of bbl/mtrap.c.
--     Mcall/State: the messages of bbl/sbi.h and the queues of hls_t;
--     Mcall/Queues: mcall_respond, mcall_dev_resp, io_irq_service;
--     Mcall/Calls: mcall_dev_req, the other calls and mcall_trap;
--     Mcall/Traps: trap_from_machine_mode.
--   Files: the file table of bbl/file.c, over the FatFs library.
--   Vm: virtual memory, bbl/vm.c.
--     Vm/Pte: page table entries; Vm/State: the page allocator and the
--     mapped regions; Vm/Walk: the walk through the tables; Vm/Pages: page
--     faults and munmap; Vm/Mapping: mmap, brk and mprotect;
--     Vm/Init: vm_init, __map_kernel_range and pk_vm_init.
--   Console: the formatted output of bbl/console.c, whose numerals are those
--     of Base/Numerals.
--     Console/Line: printk, on the UART of driver/uart.c.
--   Strings: bbl/string.c.
--   Driver/Elf: the loader of driver/elf.c.
--   Driver/Printing: the formatter, putchar and printhex of driver/syscalls.c.
--   Driver/Calls: handle_trap of driver/syscalls.c and its system calls.
--   Driver/Diskio: the SD card protocol of driver/diskio.c, with the bus of
--     driver/spi.h taken as a parameter.
--   Driver/Spi and Driver/Uart: driver/spi.c, which fills that parameter, and
--     driver/uart.c, over the registers of Driver/Device.
-- The modules below these hold their theorems, and are named for what they
-- prove; Base holds the arithmetic of words that they share.
--
-- The build that is modelled is the 64-bit one whose compiler target has no
-- FPU and no compressed instructions: floating-point values stay in the
-- saved float registers, fcsr in tp, and an instruction is four bytes long.
-- Words are numbers below 2^64 with the wrap-around written out. Division
-- that C leaves undefined gives its own result, and so do the negation of
-- the least number and a store before the buffer of the console. The overflow
-- of a long in atol and of the wide product of MULHU wraps around.
--
-- Parameters. The operations of the SoftFloat library are a record that the
-- routines take. What the control registers hold after a trap inside machine
-- mode is a parameter. The SD card and the bus it is on are a function from
-- their state and a byte to their state and the byte that comes back.
--
-- The functions of FatFs are a record, and the ramdisk of the machine calls
-- another. There is one hart in the queues, the files and the virtual memory,
-- where locks have no effect, and flush_tlb and populate_mapping have none.
-- The messages of the supervisor do not overlap, and user pages hold no page
-- tables. The theorems on the queues are about messages that are sent while
-- they are in neither queue: the code does not test that, and a message that
-- is sent twice would make its queue a cycle. The image of an ELF file lies
-- apart from the memory that it is loaded into.
--
-- Bounds and fuel. The emulation has no loops. The loops of memset and memcpy
-- run on the stores that are left, those of strlen and strcpy on a number of
-- rounds, of which the length of the string and one are enough, the loop over
-- the requests runs on the size of their queue, and the walk on the levels of
-- the tables. The loops over pages have a round for each page of their range.
-- The loop of %s in the console has one for each character and each value of
-- its position.
-- The formatters run on the characters of the format; in driver/ on a number
-- of rounds, of which the format's length and one are enough. The loops that
-- poll a register of a device are bounded by a number of reads, and have no
-- result when it is not enough. The polling loops of the disk
-- driver count down a timer that the source sets, and recur on it. Its loop
-- that skips zeros after a block is written has no bound in the source: it
-- takes the number of bytes it waits for as an argument, and has no result
-- when the card sends more zeros than that.
--
-- Not modelled: the 32-bit branches; supervisor_vm_init of bbl/vm.c; what
-- bbl/console.c prints when it stops the machine; the loading in bbl/; the
-- start of a program of driver/; the assembly; and softfloat/ and
-- driver/ff.c, copies of other projects' libraries.
pub mod Base
pub mod Driver
pub mod Emulation
pub mod Console
pub mod Files
pub mod Mcall
pub mod Strings
pub mod Vm
