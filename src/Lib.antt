-- ===== src/Lib.antt =====
-- SlopOS: the data structures and algorithms of the kernel's own crates, modelled in antt.
--
-- SlopOS is a small operating system in Rust. Its kernel (kernel/src) keeps the state that this
-- library models in crates without dependencies, each a set of structs with methods that take
-- `&mut self` and return `Result`:
--   * crates/vfs: absolute paths, the mount table, and the descriptor table of a process;
--   * crates/process: the process table. A slot of it owns a descriptor table, and its file methods
--     pass a call on to that table;
--   * crates/ipc: local stream sockets. A descriptor of the kind LocalSocket holds a socket's index
--     and generation, and the kernel takes the call from there to the socket table;
--   * crates/elf: the reader of the programs that a process is started from;
--   * crates/acpi and crates/pci: the firmware's tables and the devices on the buses, which the kernel
--     looks through when it starts;
--   * kernel/src/shared_memory_service.rs: pages that processes share by handle. A descriptor of the
--     kind SharedMemory holds the handle;
--   * ebpf: the filters that the kernel runs on packets. It verifies a program once and interprets it
--     then without further checks of its registers and jumps.
--
-- A method on `&mut self` is a function that takes the state and returns the result and the state
-- that it leaves, also beside an error; a method on `&self` returns the result alone. `Result` and
-- its combinators are in Base/Outcome, `iter().position` and `iter().find` in Base/Search, slices in
-- Base/Slices and fixed arrays as lists in Base/Lists. A u16, u32, u64 or usize is a natural number;
-- `checked_add` and its kin compare with 2 ^ 16, 2 ^ 32 or 2 ^ 64 (Base/Words), and a usize has 64
-- bits. A const parameter is the length of the array, or a field of the table's record. Enums, fields
-- and methods keep their names in snake case.
--
-- Files and code:
--   * Vfs/Path: AbsolutePath (parse, components). The array of components keeps what `..` leaves
--     behind the count. Vfs/Path/Names, Dots and Render prove.
--   * Vfs/Mount: MountTable (mount, resolve), canonical_path over the array of 256 bytes, and
--     mount_matches. `iter().flatten()` is `flatten` and `max_by_key` is `max_by_count`. Canonical,
--     Matching, Table, Growth, Mounting and Resolving prove.
--   * Vfs/Descriptors: FileDescriptorTable and the calls that open. Vfs/Windows: those that read,
--     write, seek and close. ReadWindow and WriteWindow have the same fields and are one record,
--     Window. View, Allocation, Offsets, Calls, Transfers, Appending and Closing prove.
--   * Process, Process/Table, Process/Files and Process/Scheduler: ProcessTable. `slot_in` is the
--     search for a slot with the test of its state, `on_slot` and `on_files` are what the methods
--     share. An exit status is the bit pattern of the i32. Process/Calls is the abstract machine that
--     the calls are steps of; Effects, Invariant, Isolation, LifeCycle, Birth, Burial, Ownership and
--     Fairness prove.
--   * Process/InitialStack: build_linux_initial_stack, with the loops over the strings and the words as
--     functions of their own. Process/InitialStack/Layout proves.
--   * Ipc/Ring: ByteRing. Ipc/Sockets, Ipc/Connections and Ipc/Streams: LocalSocketTable. Steps
--     describes each call as rewrites of one or two slots, and Handles what a handle names and which
--     slot is the other end; Ring/Queue, Peers, Invariant, Delivery and Closing prove.
--   * Elf and Elf/File: ElfFile (parse, load_segments). Elf/Layout says where the fields stand in the
--     bytes; Segments, Turns and Loading prove.
--   * Acpi and Acpi/Madt: Rsdp, parse_sdt, RootTable and MadtInfo. Acpi/Entries describes a MADT as a
--     list of entries; Adding, Reading and Tables prove.
--   * Pci: Device and read_device, with the walk over its capabilities. Pci/Inventory: Inventory and
--     scan. A method that reads the configuration space is a function of the state that `read_u32`
--     changes (Reads). Walking says what a scan should find; Finding and Capabilities prove.
--   * SharedMemory: the table of shared pages and every call of the service. What the module keeps in
--     a static is passed on as Memory, beside the kernel's frames (a parameter, FrameAllocator) and the
--     bytes of each page. Stages, Stale, Pages and Contents prove.
--   * Ebpf, Ebpf/Verifier and Ebpf/Machine: the opcode tables, verify and execute. `classify` names the
--     arms that the two matches share. Defensive is the reference interpreter. Scan is about the first
--     pass of `verify`, Flow about the second, Turns about the parts of a turn of `execute`; Safety,
--     with a child module for each kind of instruction, Written, Runs, Execution, Stack and Encoding
--     prove.
--   * Tests: runs of the models, and the theorems at concrete inputs.
--
-- Bounds: the loops are recursions on the list or the number of turns that they run over, so no fuel
-- is counted. `is_power_of_two` compares with the 64 powers that a u64 can hold. `next` of the load
-- segments runs over the headers that are left. `execute` counts its steps itself, up to 4096.
-- The loop over a MADT has as many turns as the table has bytes, and to run out of them is a panic.
--
-- Simplified: an index that the source reads without a check (`self.slots[peer]`) fails in the source
-- by a panic and is answered with InvalidHandle in `slot_at`; a valid table (Ipc/Invariant) has its
-- peers in bounds. In `execute` and the parsers of crates/acpi, an index out of bounds and an
-- `unreachable!` arm are the value `panicked`. The helpers of a filter are a registry that the caller
-- gives. The buffer of a read is the bytes that are returned, and its size an argument.
--
-- Not modelled: what an error of build_linux_initial_stack leaves in the buffer, the descriptors of
-- crates/virtio, the ext4 driver, the Wayland and desktop protocols, the shell, the boot loader, user
-- space, and the kernel's other modules, which connect these crates to the hardware and to unsafe code.
pub mod Base
pub mod Vfs
pub mod Pci
pub mod Process
pub mod Ipc
pub mod Acpi
pub mod Ebpf
pub mod Elf
pub mod SharedMemory
pub mod Tests
