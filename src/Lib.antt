-- ===== src/Lib.antt =====
-- Verification library of pineOS, a small 32-bit operating system kernel in C.
--
-- The parts of the program, and the files that model them:
--   Base       the numbers, lists and tests that the other files use, 32-bit words, integers;
--   Memory     kernel/memory.c, the allocator: `memory_init`, `memory_alloc`, `memory_free`,
--              `memory_get_free`. The list of blocks is that of the `next` pointers, each with the
--              address of its header; word arithmetic wraps at 2^32. `memory_free` of a pointer in
--              front of which no header stands has no result;
--   CString    kernel/string.c: `strcmp`, `strlen`, `strncmp`, `strchr`, `strrchr`, `strstr`,
--              `strtok` (its static pointer is passed along). A text is the bytes up to the NUL;
--   Ram        `memory_copy`, `memory_set`, `memory_compare`, `strcpy`, `strcat` over a memory
--              that maps addresses to bytes;
--   Machine    the state that the parts of the kernel share, and commands over it, which return,
--              fault (a null or wild pointer, an overrun buffer) or run out of fuel;
--   Filesystem kernel/filesystem.c: `filesystem_create_file`, `find_file`, `mkdir`, `touch`,
--              `write_file`, `read_file`, `filesystem_init`, `ls`, `cd`, `pwd`, `rm`, `rmdir`, `tree`,
--              `cp`. An entry pointer is an index of the table of 150 entries. The file system
--              calls the string functions for names and paths and the allocator for the buffers of
--              files;
--   Screen     kernel/io.c: `vga_clear`, `vga_putchar`, `vga_scroll` and the others over the 4000
--              bytes of the text screen, and the table of scancodes in `keyboard_read`. The rest of
--              the library keeps of the screen only what has been handed to it;
--   Process    kernel/process.c: `process_create`, `process_start`, `process_yield`, `process_exit`,
--              `process_schedule` over the list of processes and the allocator. What runs at an
--              entry point is a parameter;
--   Shell      kernel/kernel.c: the line editor of `kernel_loop` and `execute_command`, whose first
--              part calls the file system. The commands `clear` and `process` are parameters. The
--              commands behind `cp` work on other state and are functions of their own: those for
--              storage devices and user programs (Software) and those for the network and PCI
--              (Network);
--   Network    kernel/network.c: `ip_from_string`, `ip_to_string`, `network_create_interface`,
--              `network_get_interface`, `network_interface_up` and `down`, `network_set_static_ip`,
--              `network_show_config`;
--   Netstack   kernel/netstack.c: byte order and headers (Netstack), Ethernet and IP (Link), UDP,
--              ICMP, the DHCP client and the DNS query. A structure is the list of its bytes as they
--              lie in memory. The card is a parameter: the functions `send_packet` and
--              `receive_packet` of an interface. A copy past a buffer is a result of its own;
--   Storage    kernel/storage.c: the ATA driver and the virtual device (Storage), the device table
--              and transfers of several sectors (Devices). The port instructions are a parameter;
--   Pci        kernel/pci.c: the configuration space, the scan, the search and the listing of devices.
--              The two 32-bit ports are a parameter;
--   Drivers    the network cards: kernel/e1000.c (Drivers/E1000) and kernel/amd_pcnet.c
--              (Drivers/Pcnet), over the PCI table, the allocator and the bytes of memory. Port
--              instructions and registers in memory are the parameter `io`; what the E1000 does to
--              memory between two reads of a descriptor is the parameter `act`. Memory is an array
--              of bytes without holes, so that of the video card and the ROM count as memory;
--   Wifi       the WiFi commands of kernel/network.c and those that use the network stack: scan and
--              hardware detection (Hardware, Scan), `wifi_connect` and `wifi_disconnect` (Wifi,
--              Connect), `network_real_ping` and name resolution (Ping, Resolve), status and
--              statistics (Report). The cards of the interfaces are the parameter `nics`, from an
--              interface's name to its functions; what a card keeps is one state;
--   User       kernel/user.c: the table of user programs (load, find, list, remove), with running
--              and `syscall_handler` (Running), over the allocator and the bytes of memory; and over
--              the file system too the compiler and the loading from files (Compile), and
--              `user_init` with the built-in programs (Builtin). The addresses of static arrays are
--              parameters, and so is the number of bytes in which a NUL is looked for;
--   SelfTest   `memory_test` of kernel/memory.c, over the allocator and the bytes of memory.
--
-- Fuel: a walk over siblings has 151 rounds, one more than the table has entries; the walk over
-- the components of a path has two rounds more than the path has bytes: each round takes a sibling
-- that was not met before, or a byte at least. The searches for a NUL and the recursion of `tree` take
-- their fuel as an argument. The carries of a checksum are added in three rounds, which any 32-bit
-- sum needs at most; the options of a DHCP response are read in 151 rounds, each of which but the
-- last moves by two bytes or more in 300. The waits for the drive and for a response have the
-- bounds that the code gives them, 10000 and 100; so have those for the PCnet card. The wait for
-- the E1000 card has no bound in the code, so its fuel is an argument.
--
-- Not modelled: assembly; the drivers kernel/virtio_net.c and kernel/wifi_ax201.c; the boot sequence
-- of kernel/kernel.c and `network_init`, which calls every driver; and the storage of the file system
-- on a device (the second part of kernel/filesystem.c) with the commands `save`, `load` and `format`,
-- which reads and writes sectors of 512 bytes through a header of 20 bytes on the stack.
pub mod Base
pub mod Memory
pub mod CString
pub mod Ram
pub mod Machine
pub mod Filesystem
pub mod Screen
pub mod Process
pub mod Shell
pub mod Network
pub mod Netstack
pub mod Storage
pub mod Pci
pub mod User
pub mod Drivers
pub mod Wifi
pub mod SelfTest
