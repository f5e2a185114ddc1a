-- ===== src/Command.antt =====
-- src/main.cpp: the commands. `monitor` and `auto` only print or watch, and are events here, as is `scan`,
-- whose lines are those of Scan. What is printed is named and not spelt out, but for the content of a
-- file.
pub mod Export
pub mod Quiet
pub mod Parts
pub mod Safety
pub mod Scan
mod Runs
use linux2win.Base.{
  ℕ, zero, suc, ◌+◌, ◌-◌, ◌%◌, ◌^◌, min, Bool, true, false, not, ◌&&◌, ◌||◌, Option, none, some,
  List, [], ◌∷◌, ◌++◌, Bytes, codes, Result, ok, fault, stuck, attempt, or_else, from_option, ◌>>=◌,
  same, length, ltb, ◌==◌, if◌then◌else◌, u32,
}
use linux2win.Device.{Win32, BlockDevice, Call, new_device, open_read_only, close}
use linux2win.Device.Interface.{device_of}
use linux2win.Ext4.Reader.{Ext4Reader, new_reader, mount}
use linux2win.Ext4.File.{FileStat, stat_inode}
use linux2win.Ext4.Directory.{DirEntryInfo}
use linux2win.Ext4.Path.{stat_path, list_directory_path, read_file_by_path}
use linux2win.Partition.{is_excluded_system_partition}
use linux2win.Disk.Types.{PartitionInfo, DiskInfo, DiskApi}
use linux2win.Disk.{inspect_disk, device_path_of}

pub data Message : Type 0 where
  banner usage mount_usage ls_usage cat_usage export_usage : Message
  disk_not_found partition_not_found partition_excluded cannot_open cannot_mount : Message
  projfs_not_started folder_mounted unmounted path_not_found not_regular : Message
  listing_header : Bytes → Message
  unknown_command cannot_open_destination : Bytes → Message
  exported : Bytes → Bytes → ℕ → Message

-- A line of `ls`: the size is left out for a directory, the target for all but a link that has one.
pub record Row : Type 0 where
  pub inode : ℕ
  pub name : Bytes
  pub size : Option ℕ
  pub target : Option Bytes

-- What a command does, in order. `opens` is the window on a partition with the calls on handles.
pub data Event : Type 0 where
  says : Message → Event
  scans monitors autos : Event
  opens : PartitionInfo → List Call → Event
  closes : List Call → Event
  lists : Row → Event
  prints : Bytes → Event
  creates_file : Bytes → Event
  writes_file : Bytes → Event
  projects : Bytes → Event
  stops_projection : Event

unfoldable pub find_part : ℕ → List PartitionInfo → Option PartitionInfo
find_part number [] = none
find_part number (p ∷ ps) =
    let rest = find_part number ps in if p.partition_number == number then some p else rest

-- `cat` and `export` look for a data partition of the number.
unfoldable pub find_data_part : ℕ → List PartitionInfo → Option PartitionInfo
find_data_part number [] = none
find_data_part number (p ∷ ps) =
    let rest = find_data_part number ps in
    if p.partition_number == number && p.is_data_partition then some p else rest

abbrev pub row_of : DirEntryInfo → Option FileStat → Row
row_of entry stat = record {
  inode = entry.inode;
  name = entry.name;
  size = if entry.is_directory then none else some (elim stat [ none ↦ 0 | some st ↦ st.size ]);
  target = elim stat [
    | none ↦ none
    | some st ↦
        if entry.is_symlink && not (same st.symlink_target []) then some st.symlink_target else none
  ];
}

-- `Files` is what the export uses of the destination's filesystem: `is_directory`, `/`, `filename()`, and
-- does an `ofstream` open.
pub record Files : Type 0 where
  pub is_directory : Bytes → Bool
  pub join : Bytes → Bytes → Bytes
  pub filename : Bytes → Bytes
  pub can_create : Bytes → Bool

module _ (fuel depth : ℕ) where
  -- The rows, with the inodes read one by one; one that cannot be read shows an empty size.
  unfoldable pub rows : Ext4Reader → List DirEntryInfo → Result (List Event)
  rows r [] = ok []
  rows r (entry ∷ entries) = attempt (stat_inode fuel depth r entry.inode) >>= λ stat.
      rows r entries >>= λ rest. ok (lists (row_of entry stat) ∷ rest)

  abbrev pub query_path : Bytes → Bytes
  query_path [] = codes "/"
  query_path (c ∷ cs) = c ∷ cs

  abbrev pub list_rows : Ext4Reader → Bytes → Option (List DirEntryInfo) → Result (List Event)
  list_rows r query none = ok (says path_not_found ∷ [])
  list_rows r query (some entries) =
      rows r entries >>= λ lines. ok (says (listing_header query) ∷ lines)

  unfoldable pub ls_on : Ext4Reader → Bytes → Result (List Event)
  unfolding rows
  ls_on r path =
      attempt (list_directory_path fuel depth r (query_path path)) >>= list_rows r (query_path path)

  abbrev pub print_file : Ext4Reader → Bytes → Option FileStat → Result (List Event)
  print_file r path none = ok (says not_regular ∷ [])
  print_file r path (some st) =
      if not st.is_regular
      then ok (says not_regular ∷ [])
      else attempt (read_file_by_path fuel depth r path 0 st.size) >>= λ content.
          ok (elim content [ none ↦ [] | some bytes ↦ prints bytes ∷ [] ])

  unfoldable pub cat_on : Ext4Reader → Bytes → Result (List Event)
  cat_on r path = attempt (stat_path fuel depth r path) >>= print_file r path

  -- The copy of 64 KiB at a time, until the end or a read that fails or gives nothing: what is written.
  unfoldable pub export_loop : ℕ → Ext4Reader → Bytes → ℕ → ℕ → Result (List Bytes)
  export_loop zero r path size offset = stuck
  export_loop (suc rounds) r path size offset =
      let round =
        attempt (read_file_by_path fuel depth r path offset (min 65536 (size - offset))) >>= elim [
          | none ↦ ok []
          | some [] ↦ ok []
          | some (b ∷ bs) ↦ export_loop rounds r path size (offset + length (b ∷ bs)) >>= λ rest.
              ok ((b ∷ bs) ∷ rest)
        ] in
      if ltb offset size then round else ok []

  abbrev pub written : List Bytes → List Event
  written [] = []
  written (chunk ∷ chunks) = writes_file chunk ∷ written chunks

  abbrev pub destination : Files → Bytes → Bytes → Bytes
  destination files source folder =
      if files.is_directory folder then files.join folder (files.filename source) else folder

  -- A file's length in bytes, and one, is enough: each round writes a byte or is the last.
  abbrev pub export_file :
      Files → Ext4Reader → Bytes → Bytes → Option FileStat → Result (List Event)
  export_file files r source folder none = ok []
  export_file files r source folder (some st) =
      let target = destination files source folder in
      if not st.is_regular
      then ok []
      else if not (files.can_create target)
      then ok (says (cannot_open_destination target) ∷ [])
      else export_loop (suc st.size) r source st.size 0 >>= λ chunks.
          ok
            (creates_file target ∷ (written chunks ++ (says (exported source target st.size) ∷ [])))

  unfoldable pub export_on : Files → Ext4Reader → Bytes → Bytes → Result (List Event)
  unfolding export_loop
  export_on files r source folder =
      attempt (stat_path fuel depth r source) >>= export_file files r source folder

-- `starts` tells whether `ProjFSMount::start` returns true for a folder.
module _ (fuel depth : ℕ) (os : Win32) (api : DiskApi) (starts : Bytes → Bool) where
  abbrev pub window : ℕ → PartitionInfo → BlockDevice × List Call × Bool
  window disk part =
      open_read_only os new_device (device_path_of api disk) part.starting_offset part.total_length

  -- What is done with a reader, and then with the window on which it is mounted.
  abbrev pub Body : Type 0
  Body = Ext4Reader → Event → Result (List Event)

  -- A reader is mounted on the window; where that fails `refused` is said. The window is closed at last,
  -- by its destructor where by nothing else.
  unfoldable pub with_mounted : ℕ → PartitionInfo → List Event → Body → Result (List Event)
  with_mounted disk part refused body =
      let (device, calls, opened) = window disk part in
      let closing = closes (close device).1 in
      mount new_reader (some (device_of os device)) >>= λ mounted.
      (if mounted.1 then body mounted.0 closing else ok (refused ++ (closing ∷ []))) >>= λ events.
      ok (opens part calls ∷ events)

  -- `mount` and `ls` look at the answer of `open_read_only`; `cat` and `export` do not.
  unfoldable pub with_open : ℕ → PartitionInfo → Body → Result (List Event)
  unfolding with_mounted
  with_open disk part body =
      let (device, calls, opened) = window disk part in
      if opened
      then with_mounted disk part (says cannot_mount ∷ []) body
      else ok (opens part calls ∷ (says cannot_open ∷ []))

  -- The projection runs until Ctrl+C.
  abbrev pub project : Bytes → Body
  project dir r closing =
      if starts dir
      then ok (
          projects dir
          ∷ (says folder_mounted ∷ (stops_projection ∷ (closing ∷ (says unmounted ∷ [])))))
      else ok (says projfs_not_started ∷ (closing ∷ []))

  abbrev pub finally : (Ext4Reader → Result (List Event)) → Body
  finally body r closing = body r >>= λ events. ok (events ++ (closing ∷ []))

  abbrev pub mount_dir_of : ℕ → ℕ → Bytes → Bytes
  mount_dir_of disk part [] =
      codes "C:\\LinuxDisks\\Disk" ++ (api.decimal disk ++ (codes "_Part" ++ api.decimal part))
  mount_dir_of disk part (c ∷ cs) = c ∷ cs

  abbrev pub mount_found : ℕ → ℕ → Bytes → Option PartitionInfo → Result (List Event)
  mount_found disk number folder none = ok (says partition_not_found ∷ [])
  mount_found disk number folder (some part) =
      if not part.is_data_partition || is_excluded_system_partition part.kind
      then ok (says partition_excluded ∷ [])
      else with_open part.disk_index part (project (mount_dir_of disk number folder))

  unfoldable pub cmd_mount : ℕ → ℕ → Bytes → Result (List Event)
  unfolding find_part with_open
  cmd_mount disk number folder = elim (inspect_disk api disk) [
    | none ↦ ok (says disk_not_found ∷ [])
    | some info ↦ mount_found disk number folder (find_part number info.partitions)
  ]

  abbrev pub ls_found : ℕ → Bytes → Option PartitionInfo → Result (List Event)
  ls_found disk path none = ok (says partition_not_found ∷ [])
  ls_found disk path (some part) =
      if not part.is_data_partition
      then ok (says partition_excluded ∷ [])
      else with_open disk part (finally (λ r. ls_on fuel depth r path))

  unfoldable pub cmd_ls : ℕ → ℕ → Bytes → Result (List Event)
  unfolding find_part with_open ls_on
  cmd_ls disk number path = elim (inspect_disk api disk) [
    | none ↦ ok (says disk_not_found ∷ [])
    | some info ↦ ls_found disk path (find_part number info.partitions)
  ]

  -- Neither says anything where there is no such disk or data partition, or no volume on it.
  abbrev pub silently :
      ℕ → (Ext4Reader → Result (List Event)) → Option PartitionInfo → Result (List Event)
  silently disk body none = ok []
  silently disk body (some part) = with_mounted disk part [] (finally body)

  abbrev pub on_data_part : ℕ → ℕ → (Ext4Reader → Result (List Event)) → Result (List Event)
  on_data_part disk number body = elim (inspect_disk api disk) [
    | none ↦ ok []
    | some info ↦ silently disk body (find_data_part number info.partitions)
  ]

  unfoldable pub cmd_cat : ℕ → ℕ → Bytes → Result (List Event)
  unfolding find_data_part with_mounted cat_on
  cmd_cat disk number path = on_data_part disk number (λ r. cat_on fuel depth r path)

  unfoldable pub cmd_export : Files → ℕ → ℕ → Bytes → Bytes → Result (List Event)
  unfolding find_data_part with_mounted export_on
  cmd_export files disk number source folder =
      on_data_part disk number (λ r. export_on fuel depth files r source folder)

  -- `number_of` is `std::stoul`, `none` where it throws, which nothing catches.
  module _ (files : Files) (number_of : Bytes → Option ℕ) where
    abbrev pub numbered : Bytes → Bytes → (ℕ → ℕ → Result (List Event)) → Result (ℕ × List Event)
    numbered first second command = elim (number_of first) [
      | none ↦ fault
      | some disk ↦ elim (number_of second) [
        | none ↦ fault
        | some part ↦ command (disk % u32) (part % u32) >>= λ events. ok (0, says banner ∷ events)
      ]
    ]

    abbrev pub misused : Message → Result (ℕ × List Event)
    misused message = ok (1, says banner ∷ (says message ∷ []))

    abbrev pub argument : Bytes → List Bytes → Bytes
    argument default [] = default
    argument default (a ∷ rest) = a

    abbrev pub main_mount : List Bytes → Result (ℕ × List Event)
    main_mount (disk ∷ part ∷ rest) = numbered disk part (λ d p. cmd_mount d p (argument [] rest))
    main_mount other = misused mount_usage

    abbrev pub main_ls : List Bytes → Result (ℕ × List Event)
    main_ls (disk ∷ part ∷ rest) =
        numbered disk part (λ d p. cmd_ls d p (argument (codes "/") rest))
    main_ls other = misused ls_usage

    abbrev pub main_cat : List Bytes → Result (ℕ × List Event)
    main_cat (disk ∷ part ∷ path ∷ rest) = numbered disk part (λ d p. cmd_cat d p path)
    main_cat other = misused cat_usage

    abbrev pub main_export : List Bytes → Result (ℕ × List Event)
    main_export (disk ∷ part ∷ source ∷ folder ∷ rest) =
        numbered disk part (λ d p. cmd_export files d p source folder)
    main_export other = misused export_usage

    -- The arguments behind the name of the program, and the exit code.
    unfoldable pub main : List Bytes → Result (ℕ × List Event)
    unfolding cmd_mount cmd_ls cmd_cat cmd_export
    main [] = ok (0, says banner ∷ (says usage ∷ []))
    main (command ∷ rest) =
        if same command (codes "scan")
        then ok (0, says banner ∷ (scans ∷ []))
        else if same command (codes "monitor")
        then ok (0, says banner ∷ (monitors ∷ []))
        else if same command (codes "auto")
        then ok (0, says banner ∷ (autos ∷ []))
        else if same command (codes "mount")
        then main_mount rest
        else if same command (codes "ls")
        then main_ls rest
        else if same command (codes "cat")
        then main_cat rest
        else if same command (codes "export")
        then main_export rest
        else ok (1, says banner ∷ (says (unknown_command command) ∷ (says usage ∷ [])))
