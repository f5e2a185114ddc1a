-- ===== src/Daemon/Table.antt =====
-- What the table of mounts holds after partitions are unmounted.
use linux2win.Base.{
  ℕ, ◌≡◌, ◌≢◌, refl, sym, ap, ◌∙◌, subst, inl, inr, Bool, true, false, ◌||◌, Option, none, some,
  List, [], ◌∷◌, ◌++◌, arith, ok, ◌==◌, if◌then◌else◌, Bool-cases, Option-cases,
}
use linux2win.Device.{Win32}
use linux2win.Disk.Types.{DiskApi, DiskInfo}
use linux2win.Disk.{enumerate_all_disks}
use linux2win.Daemon.{
  Key, ActiveMount, Mounts, Event, same_key, find, erase, unmount_data_partition, keys_of_disk,
  unmount_each, unmount_all_partitions_for_disk, removed, on_disk_event, report_each, window_proc,
}

pub same_key→eq : (j k : Key) → same_key j k ≡ true → j ≡ k
same_key→eq (a, b) (c, d) h =
    let first : a ≡ c = ground arith in let second : b ≡ d = ground arith in cc (first, second)

pub same_key_refl : (k : Key) → same_key k k ≡ true
same_key_refl (a, b) = ground arith

same_key-false : (i j k : Key) → same_key i j ≡ false → same_key i k ≡ true → same_key j k ≡ false
same_key-false i j k apart here = elim (Bool-cases (same_key j k)) [
  | inl there ↦
      let both : i ≡ j = same_key→eq i k here ∙ sym (same_key→eq j k there) in
      absurd (true-ne-false (sym (same_key_refl j) ∙ ap (λ x. same_key x j) (sym both) ∙ apart))
  | inr other ↦ other
]
  where
    true-ne-false : true ≢ false
    true-ne-false e = cc

-- What is found behind the entry `i`, which is erased if it is `j`.
erase_step :
    (erased here wanted : Bool) (a : ActiveMount) (left right : Option ActiveMount)
    → (erased ≡ true → here ≡ wanted)
    → (erased ≡ false → here ≡ true → wanted ≡ false)
    → left ≡ (if wanted then none else right)
    → (if erased then left else (if here then some a else left))
      ≡ (if wanted then none else (if here then some a else right))
erase_step true true wanted a left right gone kept e =
    subst (λ w. left ≡ (if w then none else some a)) (gone refl) (e ∙ rw (sym (gone refl)) refl)
erase_step true false wanted a left right gone kept e = e
erase_step false true wanted a left right gone kept e = rw (kept refl refl) refl
erase_step false false wanted a left right gone kept e = e

pub find-erase :
    (j k : Key) (mounts : Mounts)
    → find k (erase j mounts) ≡ (if same_key j k then none else find k mounts)
unfolding find erase
find-erase j k [] = ground arith
find-erase j k ((i, a) ∷ rest) =
    spread (same_key i j)
    ∙ erase_step (same_key i j) (same_key i k) (same_key j k) a (find k (erase j rest))
        (find k rest) (λ gone. ap (λ x. same_key x k) (same_key→eq i j gone)) (same_key-false i j k)
        (find-erase j k rest)
  where
    spread :
        (b : Bool)
        → find k (if b then erase j rest else (i, a) ∷ erase j rest) ≡ (
            if b
            then find k (erase j rest)
            else (if same_key i k then some a else find k (erase j rest)))
    spread true = refl
    spread false = refl

-- One of the keys of a list.
abbrev is_listed : Key → List Key → Bool
is_listed k [] = false
is_listed k (j ∷ js) = same_key j k || is_listed k js

either_gone :
    (b c : Bool) {x : Option ActiveMount} (y : Option ActiveMount)
    → x ≡ (if b then none else y)
    → (if c then none else x) ≡ (if b || c then none else y)
either_gone true true y e = refl
either_gone true false y e = e
either_gone false true y e = refl
either_gone false false y e = e

module _ (os : Win32) (api : DiskApi) where
  find-unmount :
      (j k : Key) (mounts : Mounts)
      → find k (unmount_data_partition os api mounts j).0
        ≡ (if same_key j k then none else find k mounts)
  unfolding unmount_data_partition
  find-unmount j k mounts = elim (Option-cases (find j mounts)) [
    | inl absent ↦
        rw (absent, unmount_data_partition)
          (elim (Bool-cases (same_key j k)) [
            | inl it ↦ rw it (subst (λ x. find x mounts ≡ none) (same_key→eq j k it) absent)
            | inr other ↦ rw other refl
          ])
    | inr (a, e) ↦ rw (e, unmount_data_partition) (find-erase j k mounts)
  ]

  find-unmount_each :
      (keys : List Key) (k : Key) (mounts : Mounts)
      → find k (unmount_each os api mounts keys).0
        ≡ (if is_listed k keys then none else find k mounts)
  unfolding unmount_each
  find-unmount_each [] k mounts = refl
  find-unmount_each (j ∷ js) k mounts =
      find-unmount_each js k (unmount_data_partition os api mounts j).0
      ∙ either_gone (same_key j k) (is_listed k js) (find k mounts) (find-unmount j k mounts)

  apart_unlisted :
      (d n disk : ℕ) (mounts : Mounts)
      → (d == disk) ≡ false
      → is_listed (d, n) (keys_of_disk os api disk mounts) ≡ false
  unfolding keys_of_disk
  apart_unlisted d n disk [] apart = refl
  apart_unlisted d n disk (((e, m), a) ∷ rest) apart =
      ground (arith, apart_unlisted d n disk rest apart)

  unlisted_absent :
      (d n disk : ℕ) (mounts : Mounts)
      → (d == disk) ≡ true
      → is_listed (d, n) (keys_of_disk os api disk mounts) ≡ false
      → find (d, n) mounts ≡ none
  unfolding keys_of_disk find
  unlisted_absent d n disk [] here none_listed = refl
  unlisted_absent d n disk (((e, m), a) ∷ rest) here none_listed =
      ground (arith, unlisted_absent d n disk rest)

  -- Unmounting a disk takes the mounts of that disk from the table and no other.
  pub find-unmount_disk :
      (d n disk : ℕ) (mounts : Mounts)
      → find (d, n) (unmount_all_partitions_for_disk os api mounts disk).0
        ≡ (if d == disk then none else find (d, n) mounts)
  unfolding unmount_all_partitions_for_disk
  find-unmount_disk d n disk mounts =
      find-unmount_each (keys_of_disk os api disk mounts) (d, n) mounts
      ∙ elim (Bool-cases (d == disk)) [
        | inr apart ↦ rw (apart, apart_unlisted d n disk mounts apart) refl
        | inl here ↦ elim (Bool-cases (is_listed (d, n) (keys_of_disk os api disk mounts))) [
          | inl listed ↦ rw (here, listed) refl
          | inr unlisted ↦ rw (here, unlisted) (unlisted_absent d n disk mounts here unlisted)
        ]
      ]

  -- One of the disks that are there.
  abbrev pub is_present : ℕ → List DiskInfo → Bool
  is_present d [] = false
  is_present d (disk ∷ disks) = d == disk.disk_index || is_present d disks

  report_removed :
      (d n : ℕ) (disks : List DiskInfo) (mounts : Mounts)
      → (left : Mounts) × (events : List Event) × (report_each os api mounts removed disks
          ≡ ok (left, events))
        × (find (d, n) left ≡ (if is_present d disks then none else find (d, n) mounts))
  unfolding report_each on_disk_event
  report_removed d n [] mounts = (mounts, [], refl, refl)
  report_removed d n (disk ∷ disks) mounts =
      let (less, first) = unmount_all_partitions_for_disk os api mounts disk.disk_index in
      let (left, events, e, f) = report_removed d n disks less in
      (
        left,
        first ++ events,
        rw e refl,
        f
            ∙ either_gone (d == disk.disk_index) (is_present d disks) (find (d, n) mounts)
                (find-unmount_disk d n disk.disk_index mounts),
      )

  -- When a disk is removed, the partitions of every disk that is still there are unmounted, and the
  -- mounts of the disk that is gone stay in the table.
  pub window_proc-removed :
      (d n : ℕ) (mounts : Mounts)
      → (left : Mounts) × (events : List Event) × (window_proc os api mounts removed
          ≡ ok (left, events))
        × (find (d, n) left
            ≡ (if is_present d (enumerate_all_disks api) then none else find (d, n) mounts))
  unfolding window_proc
  window_proc-removed d n mounts = report_removed d n (enumerate_all_disks api) mounts
