-- ===== src/Lib.antt =====
-- A verification of the core of the MSX emulator in C.
--
-- The program: src/z80.c executes instructions against a bus of callbacks; src/msx.c supplies the
-- bus, decodes slots and ports and advances the devices (video, sound, disks, serial lines,
-- clock); the cartridges of src/cartridge.c sit in the slots and, with the Konami SCC mapper,
-- hold the sound chip of src/scc.c; src/psg.c is the machine's own sound generator, src/rtc.c its
-- clock and src/ata.c an IDE disk, which the bus reaches through src/sunrise.c; src/paste.c
-- types a text on the keyboard; src/main.c and src/overlay.c are the front end.
--
-- Z80.antt and below: src/z80.c and src/z80.h, the whole processor. `Cpu` is the struct `Z80`;
--   `Bus` is `Z80Bus`, its callbacks as functions on a context that is passed along; a routine is
--   a function from a `Machine` (registers and context) to a value and a machine, written in `do`
--   blocks in the order of the C statements. Each `switch` is a list of labels and routines, in
--   pieces that are appended: Main/Loads, Main/Accumulator, Main/Registers and Main/Flow for
--   z80_step_impl, Ed/Registers and Ed/Block for exec_ed, Xy/Memory and Xy/Halves for exec_xy,
--   ExecCb for exec_cb. The pointer `u16 *xy` is an `Index`, a getter and a setter. Step is
--   z80_step with the tables of Tables. Ram is what a program relies on when it runs in RAM: reads
--   change nothing and a write changes one byte. Laws and below hold the theorems; Tests holds
--   runs on a small memory.
-- Scc.antt and below: src/scc.c and src/scc.h, the wavetable sound chip; its samples are signed
--   and use the integers of Base/Integers.
-- Cartridge.antt and below: src/cartridge.c and src/cartridge.h, the mappers of a cartridge.
-- Psg.antt and below: src/psg.c and src/psg.h, the sound generator.
-- Rtc.antt and below: src/rtc.c and src/rtc.h, the clock. Chip is its registers, a function of block
--   and register, and their digits; Calendar is advance_time and what it calls, with its local
--   variables as the record `Time`; Ports is power on, reset, the counting of cycles and the two
--   ports; Record is the 84 bytes of the saved state and the checks on them, Persist the load and the
--   save with the two files of a directory as the state and the answers of the host as an argument.
-- Ata.antt and below: src/ata.c and src/ata.h, the IDE disk. Device is the struct and the helpers on
--   it, Sectors the transfer of one sector to and from the image, Identify the answer to IDENTIFY,
--   Mount power on, reset and the image files, Execute the switch of ata_execute with one function
--   for each command, Transfer the data port and the task file. The image is a function from sectors
--   to bytes, and `Host` is what fseek, fread, fwrite, fflush and fclose answer.
-- Sunrise.antt and below: src/sunrise.c and src/sunrise.h, the interface between the disk and the
--   bus. Device is the struct, the control register, the ROM and the calls that pass on to the disk;
--   Access is the window in memory, its data words and its registers.
-- Keyboard.antt and below: Matrix is msx_keyboard_press and its relatives in src/msx.c, Paste the
--   queue of src/paste.c, one call of paste_tick per frame, with the table of Keymap.
-- Base.antt and below: Boolean tests, words, bits, lists and integers that the parts share.
--
-- Conventions. A number is a natural number with the wrap-around of its C type written out. The
-- register pairs are unions of two bytes and a word; the bytes are stored and the word is
-- computed with the low byte first, as on a little-endian host. Operands of one C expression run
-- from left to right. The overflow of an `int` sum, which C leaves undefined, wraps around in 32
-- bits. z80_step reads the environment once and keeps the answer: the answer is the
-- argument use_tables. The result of malloc is an argument of msx_cartridge_install and of
-- paste_start. Pointers that are null are not modelled: each routine tests for them first and returns.
--
-- Loops. No instruction loops, a repeating block instruction executes once per step. A while loop
-- of src/scc.c or src/cartridge.c recurs on a fuel that its definition computes from the loop's own
-- bound (the counter, or the count of banks), and a theorem says that it ends by its test. A loop
-- over an array recurs on the list, and one over a number of ticks or samples on that number. The
-- loop over days of src/rtc.c has the days that are left as its fuel: each round takes at least
-- one. The loop of src/paste.c over characters has the characters that are left as its fuel.
--
-- Not modelled: the devices and the front end named in the first paragraph, besides the parts
-- above; message output; host files, but for what src/rtc.c and src/ata.c make of their answers.
pub mod Base
pub mod Z80
pub mod Scc
pub mod Cartridge
pub mod Psg
pub mod Rtc
pub mod Ata
pub mod Sunrise
pub mod Keyboard
