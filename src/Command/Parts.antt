-- ===== src/Command/Parts.antt =====
-- The partition that a command finds by its number.
use linux2win.Base.{
  ℕ, ◌≡◌, sym, ◌∙◌, inl, inr, Bool, true, false, ◌&&◌, Option, none, some, List, [], ◌∷◌, arith,
  All, Bool-cases, ◌==◌,
}
use linux2win.Partition.{PartitionKind, is_excluded_system_partition, is_safe_data_partition}
use linux2win.Disk.Types.{PartitionInfo}
use linux2win.Disk.Classified.{IsClassified, IsMountSafe}
use linux2win.Command.{find_part, find_data_part}

safe_kind-kept :
    (kind : PartitionKind)
    → is_safe_data_partition kind ≡ true
    → is_excluded_system_partition kind ≡ false
unfolding is_safe_data_partition is_excluded_system_partition
safe_kind-kept kind h = ground arith

pub data_part-IsMountSafe :
    (p : PartitionInfo) → IsClassified p → p.is_data_partition ≡ true → IsMountSafe p
data_part-IsMountSafe p c h =
    let safe = sym c.flag ∙ h in (safe, sym c.excluded ∙ safe_kind-kept p.kind safe)

abbrev pub IsFound : Option PartitionInfo → Type 0
IsFound none = Unit {0}
IsFound (some p) = IsClassified p

pub find_part-IsFound :
    (number : ℕ) (ps : List PartitionInfo) → All IsClassified ps → IsFound (find_part number ps)
unfolding find_part
find_part-IsFound number [] all = tt
find_part-IsFound number (p ∷ ps) (c, cs) = elim (Bool-cases (p.partition_number == number)) [
  | inl hit ↦ rw hit c
  | inr miss ↦ rw miss (find_part-IsFound number ps cs)
]

abbrev pub IsSafeFound : Option PartitionInfo → Type 0
IsSafeFound none = Unit {0}
IsSafeFound (some p) = IsMountSafe p

and-right : (a b : Bool) → (a && b) ≡ true → b ≡ true
and-right true b h = h
and-right false b h = cc

pub find_data_part-IsSafeFound :
    (number : ℕ) (ps : List PartitionInfo)
    → All IsClassified ps
    → IsSafeFound (find_data_part number ps)
unfolding find_data_part
find_data_part-IsSafeFound number [] all = tt
find_data_part-IsSafeFound number (p ∷ ps) (c, cs) =
    elim (Bool-cases (p.partition_number == number && p.is_data_partition)) [
      | inl hit ↦ rw hit (
          data_part-IsMountSafe p c
            (and-right (p.partition_number == number) p.is_data_partition hit))
      | inr miss ↦ rw miss (find_data_part-IsSafeFound number ps cs)
    ]
