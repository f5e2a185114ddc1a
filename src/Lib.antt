-- ===== src/Lib.antt =====
-- Linux2Win shows the ext2, ext3 and ext4 partitions of a Windows computer as folders, and only reads
-- them. The disk enumerator asks Windows for the drives and their partitions, and the partition filter
-- decides which of these may be mounted. For each of these the daemon opens a block device, a window on
-- the disk, and mounts an ext4 reader on it, which a tree of nodes and the ProjFS callbacks serve from;
-- it mounts and unmounts as disks come and go.
--
-- Which file models which part:
--   Base/       shared: Boolean tests and `list` operations on the native numbers, machine words, and
--               `Result`, what a function does that returns bool and fills an out parameter: `ok`,
--               `failed` for false, `fault` for undefined behaviour, `stuck` where the fuel runs out.
--   Device      src/fs/block_device.cpp: `open_read_only`, `close`, the moves, `read`, `read_block`.
--               The state is `BlockDevice`; an operation returns it with the handles it opens and closes.
--               Device/Interface is what the reader uses of it: `Device`, with the law `IsExact`.
--   Ext4/       include/linux2win/ext4_types.hpp in Layout; src/fs/ext4_reader.cpp in Reader (`mount`),
--               Inode (`read_inode`), Extent and Indirect (the two block maps), File (`read_file_data`,
--               `read_symlink_target`, `stat_inode`), Directory (`list_directory`) and Path
--               (`lookup_path` and the operations by path). The state is `Ext4Reader`.
--   Guid        src/disk/partition_filter.cpp: comparing, printing and reading a GUID.
--   Partition   src/disk/partition_filter.cpp: `classify_gpt`, `classify_mbr`, `probe_filesystem`.
--   Disk        src/disk/disk_enumerator.cpp: from `inspect_disk` to `get_all_mountable_partitions`.
--   Daemon      src/service/daemon_main.cpp: the table of active mounts with `mount_data_partition`,
--               `unmount_data_partition`, the rescan, the callback for disk events and the end, and
--               `WindowProc` of src/disk/disk_monitor.cpp. ProjFS and the balloons are events.
--   Vfs         src/vfs/vfs_tree.cpp: `get_root`, `ensure_children_loaded` and `find_node`, with the paths in
--               Names. The state is `VfsTree`: the nodes are a store, a pointer is an index into it.
--   Projfs      src/vfs/projfs_mount.cpp: the callbacks for enumerations, and in Files those for
--               placeholders, content and notifications. The state is `Projection`, a tree and the
--               sessions; the table is global in the source, and one projection is modelled.
--               Lifetime has `load`, `start`, `stop` and the destructor, on `ProjFsApi`, the library's
--               functions of the process, and `ProjFsMount`.
--   Command     src/main.cpp: `cmd_mount`, `cmd_ls`, `cmd_cat`, `cmd_export` and `main`, which give what is
--               opened, printed and written as a list of events; `cmd_scan` in Scan.
--   Startup     src/service/startup_manager.cpp: `is_startup_enabled`, `enable_startup`, `disable_startup` and
--               `prompt_user_permission` on the three registry values that the program writes.
-- The files below these are named for what they prove; `Runs` has examples on concrete inputs.
--
-- Numbers are natural numbers, and a 16-, 32- or 64-bit sum that can wrap is taken modulo a power of two
-- where the source computes it. Memory is a list of bytes. What Windows answers is a parameter: the
-- records `Win32` of Device and `DiskApi` of Disk/Types, with what is relied on stated as a hypothesis
-- (`IsFaithful`, `IsDisk`, `IsExact`). That memory can be had is taken for granted, except for the buffer
-- that ProjFS allocates.
--
-- Four loops have fuel. The copy loop of `read_file_data` needs one round more than there are bytes to
-- copy; the walk through an extent tree needs one call for each level of index nodes and one more; the loop over the
-- entries of a directory is given one round more than the directory has bytes, and each entry takes one;
-- the copy loop of `export` one more than the file has bytes.
--
-- A mutex is modelled where it matters: `VfsTree` says whether the thread holds the tree's, and a
-- parameter `relock` what a second `lock` by its owner does, which the standard leaves undefined.
-- `find_node` takes it twice except where the path is in the cache, so what is proved of the callbacks
-- holds for any `relock`, of lookups that come back. Threads are not modelled. Of ProjectedFSLib.dll, `IsDirBuffer` states what a buffer for entries is relied on for.
--
-- Not modelled: the tray icon (src/service), the installer, the shortcuts that the startup manager makes,
-- and the commands `monitor` and `auto`, which print and wait. A null buffer is not
-- modelled either, since every caller passes one that is large enough.
pub mod Base
pub mod Device
pub mod Ext4
pub mod Guid
pub mod Partition
pub mod Disk
pub mod Vfs
pub mod Projfs
pub mod Daemon
pub mod Command
pub mod Startup
