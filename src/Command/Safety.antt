-- ===== src/Command/Safety.antt =====
-- Which partitions the commands open.
use linux2win.Base.{
  ℕ, ◌%◌, ◌≡◌, inl, inr, Bool, true, false, not, ◌||◌, Option, none, some, List, [], ◌∷◌, ◌++◌,
  Bytes, codes, Result, ok, fault, ◌>>=◌, All, All-append, Bool-cases, same, if◌then◌else◌, u32,
}
use linux2win.Device.{Win32, close, Call}
use linux2win.Device.Interface.{device_of}
use linux2win.Ext4.Reader.{Ext4Reader, new_reader, mount}
use linux2win.Partition.{is_excluded_system_partition}
use linux2win.Disk.Types.{PartitionInfo, DiskInfo, DiskApi}
use linux2win.Disk.{inspect_disk}
use linux2win.Disk.Classified.{IsClassified, IsMountSafe, All?, inspect_disk-IsClassified}
use linux2win.Command.{
  Event, says, banner, partition_excluded, opens, closes, ls_on, Files, window, Body, with_mounted,
  with_open, cannot_mount, project, finally, find_part, find_data_part, mount_found, ls_found,
  silently, on_data_part, cmd_mount, cmd_ls, cmd_cat, cmd_export, numbered, argument, mount_dir_of,
  main, main_mount, main_ls, main_cat, main_export,
}
use linux2win.Command.Quiet.{
  IsSafeEvent, Safely, whole, bind-Safely, then-Safely, if-Safely, ls_on-Safely, cat_on-Safely,
  export_on-Safely,
}
use linux2win.Command.Parts.{
  data_part-IsMountSafe, IsFound, find_part-IsFound, IsSafeFound, find_data_part-IsSafeFound,
}

module _ (fuel depth : ℕ) (os : Win32) (api : DiskApi) (starts : Bytes → Bool) where
  abbrev IsSafeBody : Body fuel depth os api starts → Type 0
  IsSafeBody body = (r : Ext4Reader) (calls : List Call) → Safely whole (body r (closes calls))

  with_mounted-Safely :
      (disk : ℕ) (part : PartitionInfo) (refused : List Event)
      (body : Body fuel depth os api starts)
      → IsMountSafe part
      → All IsSafeEvent refused
      → IsSafeBody body
      → Safely whole (with_mounted fuel depth os api starts disk part refused body)
  unfolding with_mounted
  with_mounted-Safely disk part refused body safe quiet inner =
      let (device, calls, opened) = window fuel depth os api starts disk part in
      let closing = closes (close device).1 in
      bind-Safely whole (mount new_reader (some (device_of os device)))
        (λ mounted.
          (if mounted.1 then body mounted.0 closing else ok (refused ++ (closing ∷ [])))
          >>= λ events. ok (opens part calls ∷ events))
        (λ mounted.
          then-Safely whole whole
            (if mounted.1 then body mounted.0 closing else ok (refused ++ (closing ∷ [])))
            (λ events. ok (opens part calls ∷ events))
            (if-Safely whole mounted.1 (body mounted.0 closing) (ok (refused ++ (closing ∷ [])))
              (inner mounted.0 (close device).1)
              (All-append IsSafeEvent refused (closing ∷ []) quiet (tt, tt)))
            (λ events s. (safe, s)))

  with_open-Safely :
      (disk : ℕ) (part : PartitionInfo) (body : Body fuel depth os api starts)
      → IsMountSafe part
      → IsSafeBody body
      → Safely whole (with_open fuel depth os api starts disk part body)
  unfolding with_open
  with_open-Safely disk part body safe inner =
      if-Safely whole (window fuel depth os api starts disk part).2 _ _
        (with_mounted-Safely disk part (says cannot_mount ∷ []) body safe (tt, tt) inner)
        (safe, (tt, tt))

  finally-IsSafeBody :
      (body : Ext4Reader → Result (List Event))
      → ((r : Ext4Reader) → Safely whole (body r))
      → IsSafeBody (finally fuel depth os api starts body)
  finally-IsSafeBody body inner r calls =
      then-Safely whole whole (body r) (λ events. ok (events ++ (closes calls ∷ []))) (inner r)
        (λ events s. All-append IsSafeEvent events (closes calls ∷ []) s (tt, tt))

  project-IsSafeBody : (dir : Bytes) → IsSafeBody (project fuel depth os api starts dir)
  project-IsSafeBody dir r calls =
      if-Safely whole (starts dir) _ _ (tt, (tt, (tt, (tt, (tt, tt))))) (tt, (tt, tt))

  mount_found-Safely :
      (disk number : ℕ) (folder : Bytes) (o : Option PartitionInfo)
      → IsFound o
      → Safely whole (mount_found fuel depth os api starts disk number folder o)
  mount_found-Safely disk number folder none found = (tt, tt)
  mount_found-Safely disk number folder (some part) c = elim (Bool-cases part.is_data_partition) [
    | inr bare ↦ refusing part.is_data_partition (is_excluded_system_partition part.kind) _ bare
    | inl there ↦
        if-Safely whole (not part.is_data_partition || is_excluded_system_partition part.kind) _ _
          (tt, tt)
          (with_open-Safely part.disk_index part
            (project fuel depth os api starts
              (mount_dir_of fuel depth os api starts disk number folder))
            (data_part-IsMountSafe part c there)
            (project-IsSafeBody (mount_dir_of fuel depth os api starts disk number folder)))
  ]
    where
      refusing :
          (a b : Bool) (rest : Result (List Event))
          → a ≡ false
          → Safely whole (if not a || b then ok (says partition_excluded ∷ []) else rest)
      refusing false b rest e = (tt, tt)
      refusing true b rest e = cc

  ls_found-Safely :
      (disk : ℕ) (path : Bytes) (o : Option PartitionInfo)
      → IsFound o
      → Safely whole (ls_found fuel depth os api starts disk path o)
  ls_found-Safely disk path none found = (tt, tt)
  ls_found-Safely disk path (some part) c = elim (Bool-cases part.is_data_partition) [
    | inr bare ↦ refusing part.is_data_partition _ bare
    | inl there ↦
        if-Safely whole (not part.is_data_partition) _ _ (tt, tt)
          (with_open-Safely disk part
            (finally fuel depth os api starts (λ r. ls_on fuel depth r path))
            (data_part-IsMountSafe part c there)
            (finally-IsSafeBody (λ r. ls_on fuel depth r path)
              (λ r. ls_on-Safely fuel depth r path)))
  ]
    where
      refusing :
          (a : Bool) (rest : Result (List Event))
          → a ≡ false
          → Safely whole (if not a then ok (says partition_excluded ∷ []) else rest)
      refusing false rest e = (tt, tt)
      refusing true rest e = cc

  silently-Safely :
      (disk : ℕ) (body : Ext4Reader → Result (List Event)) (o : Option PartitionInfo)
      → IsSafeFound o
      → ((r : Ext4Reader) → Safely whole (body r))
      → Safely whole (silently fuel depth os api starts disk body o)
  silently-Safely disk body none found inner = tt
  silently-Safely disk body (some part) safe inner =
      with_mounted-Safely disk part [] (finally fuel depth os api starts body) safe tt
        (finally-IsSafeBody body inner)

  -- A command on a disk, if there is one.
  on_disk-Safely :
      (index : ℕ) (absent : Result (List Event)) (present : DiskInfo → Result (List Event))
      → Safely whole absent
      → ((info : DiskInfo) → All IsClassified info.partitions → Safely whole (present info))
      → Safely whole (elim (inspect_disk api index) [ none ↦ absent | some info ↦ present info ])
  on_disk-Safely index absent present a p =
      split (inspect_disk api index) (inspect_disk-IsClassified api index)
    where
      split :
          (o : Option DiskInfo)
          → All? api o
          → Safely whole (elim o [ none ↦ absent | some info ↦ present info ])
      split none c = a
      split (some info) c = p info c

  cmd_mount-Safely :
      (disk number : ℕ) (folder : Bytes)
      → Safely whole (cmd_mount fuel depth os api starts disk number folder)
  unfolding cmd_mount
  cmd_mount-Safely disk number folder =
      on_disk-Safely disk _
        (λ info.
          mount_found fuel depth os api starts disk number folder
            (find_part number info.partitions))
        (tt, tt)
        (λ info c.
          mount_found-Safely disk number folder (find_part number info.partitions)
            (find_part-IsFound number info.partitions c))

  cmd_ls-Safely :
      (disk number : ℕ) (path : Bytes)
      → Safely whole (cmd_ls fuel depth os api starts disk number path)
  unfolding cmd_ls
  cmd_ls-Safely disk number path =
      on_disk-Safely disk _
        (λ info. ls_found fuel depth os api starts disk path (find_part number info.partitions))
        (tt, tt)
        (λ info c.
          ls_found-Safely disk path (find_part number info.partitions)
            (find_part-IsFound number info.partitions c))

  on_data_part-Safely :
      (disk number : ℕ) (body : Ext4Reader → Result (List Event))
      → ((r : Ext4Reader) → Safely whole (body r))
      → Safely whole (on_data_part fuel depth os api starts disk number body)
  on_data_part-Safely disk number body inner =
      on_disk-Safely disk _
        (λ info.
          silently fuel depth os api starts disk body (find_data_part number info.partitions))
        tt
        (λ info c.
          silently-Safely disk body (find_data_part number info.partitions)
            (find_data_part-IsSafeFound number info.partitions c) inner)

  module _ (files : Files) (number_of : Bytes → Option ℕ) where
    -- The events of a run.
    abbrev pub events_of : ℕ × List Event → List Event
    events_of (code, events) = events

    numbered-Safely :
        (first second : Bytes) (command : ℕ → ℕ → Result (List Event))
        → ((disk part : ℕ) → Safely whole (command disk part))
        → Safely events_of (numbered fuel depth os api starts files number_of first second command)
    numbered-Safely first second command inner = split (number_of first) (number_of second)
      where
        split :
            (a b : Option ℕ)
            → Safely events_of (elim a [
              | none ↦ fault
              | some disk ↦ elim b [
                | none ↦ fault
                | some part ↦
                    command (disk % u32) (part % u32) >>= λ events. ok (0, says banner ∷ events)
              ]
            ])
        split none b = tt
        split (some disk) none = tt
        split (some disk) (some part) =
            then-Safely whole events_of (command (disk % u32) (part % u32))
              (λ events. ok (0, says banner ∷ events)) (inner (disk % u32) (part % u32))
              (λ events s. (tt, s))

    main_mount-Safely :
        (rest : List Bytes)
        → Safely events_of (main_mount fuel depth os api starts files number_of rest)
    main_mount-Safely [] = (tt, (tt, tt))
    main_mount-Safely (a ∷ []) = (tt, (tt, tt))
    main_mount-Safely (a ∷ b ∷ rest) = numbered-Safely a b _ (λ disk part.
        cmd_mount-Safely disk part (argument fuel depth os api starts files number_of [] rest))

    main_ls-Safely :
        (rest : List Bytes)
        → Safely events_of (main_ls fuel depth os api starts files number_of rest)
    main_ls-Safely [] = (tt, (tt, tt))
    main_ls-Safely (a ∷ []) = (tt, (tt, tt))
    main_ls-Safely (a ∷ b ∷ rest) = numbered-Safely a b _ (λ disk part.
        cmd_ls-Safely disk part
          (argument fuel depth os api starts files number_of (codes "/") rest))

    main_cat-Safely :
        (rest : List Bytes)
        → Safely events_of (main_cat fuel depth os api starts files number_of rest)
    unfolding cmd_cat
    main_cat-Safely [] = (tt, (tt, tt))
    main_cat-Safely (a ∷ []) = (tt, (tt, tt))
    main_cat-Safely (a ∷ b ∷ []) = (tt, (tt, tt))
    main_cat-Safely (a ∷ b ∷ path ∷ rest) =
        numbered-Safely a b _
          (λ disk part. on_data_part-Safely disk part _ (λ r. cat_on-Safely fuel depth r path))

    main_export-Safely :
        (rest : List Bytes)
        → Safely events_of (main_export fuel depth os api starts files number_of rest)
    unfolding cmd_export
    main_export-Safely [] = (tt, (tt, tt))
    main_export-Safely (a ∷ []) = (tt, (tt, tt))
    main_export-Safely (a ∷ b ∷ []) = (tt, (tt, tt))
    main_export-Safely (a ∷ b ∷ source ∷ []) = (tt, (tt, tt))
    main_export-Safely (a ∷ b ∷ source ∷ folder ∷ rest) = numbered-Safely a b _ (λ disk part.
        on_data_part-Safely disk part _ (λ r. export_on-Safely fuel depth files r source folder))

    -- Whatever the arguments, and whatever Windows and the volumes answer, if the run comes back: each
    -- partition on which `mount`, `ls`, `cat` or `export` opened a window is of a data kind, and its type
    -- is none of the system's. Of a run that does not come back, or whose behaviour is undefined, nothing
    -- is said.
    pub main-Safely :
        (arguments : List Bytes)
        → Safely events_of (main fuel depth os api starts files number_of arguments)
    unfolding main
    main-Safely [] = (tt, (tt, tt))
    main-Safely (command ∷ rest) =
        if-Safely events_of (same command (codes "scan")) _ _ (tt, (tt, tt))
          (if-Safely events_of (same command (codes "monitor")) _ _ (tt, (tt, tt))
            (if-Safely events_of (same command (codes "auto")) _ _ (tt, (tt, tt))
              (if-Safely events_of (same command (codes "mount")) _ _ (main_mount-Safely rest) (
                if-Safely events_of (same command (codes "ls")) _ _ (main_ls-Safely rest) (
                  if-Safely events_of (same command (codes "cat")) _ _ (main_cat-Safely rest) (
                    if-Safely events_of (same command (codes "export")) _ _
                      (main_export-Safely rest) (tt, (tt, (tt, tt)))))))))
