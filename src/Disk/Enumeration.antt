-- ===== src/Disk/Enumeration.antt =====
-- Which indices the loop over the drives visits.
use native.Mathlib.Decide.{dec_lt}
use linux2win.Base.{
  ℕ, zero, suc, ◌+◌, ◌≤◌, ◌<◌, ◌≡◌, refl, ap, ◌∙◌, subst, ◌⊎◌, inl, inr, ◌&&◌, Option, none, some,
  List, [], ◌∷◌, arith, leb, if◌then◌else◌, Bool-cases, Option-cases,
}
use linux2win.Disk.Types.{DiskInfo, DiskApi}
use linux2win.Disk.{inspect_disk, enumerate_loop, enumerate_all_disks}

module _ (api : DiskApi) where
  -- The drives that open, among `n` indices from `i` on.
  unfoldable pub drives : ℕ → ℕ → List DiskInfo
  drives zero i = []
  drives (suc n) i =
      let rest = drives n (i + 1) in
      elim (inspect_disk api i) [ some disk ↦ disk ∷ rest | none ↦ rest ]

  -- None of the `n` indices in front of `i` opens.
  abbrev pub Missed : ℕ → ℕ → Type 0
  Missed n i = (j : ℕ) → j < i → i ≤ j + n → inspect_disk api j ≡ none

  -- After `n` indices from `i` on the loop has come to its end, or stops early.
  abbrev pub Stops : ℕ → ℕ → ℕ → Type 0
  Stops left i n = (n ≡ left) ⊎ ((5 ≤ i + n) × Missed 3 (i + n))

  -- One round, for what `inspect_disk` answers.
  abbrev after : ℕ → ℕ → ℕ → Option DiskInfo → List DiskInfo
  after left i misses none =
      if leb 3 (misses + 1) && leb 4 i then [] else enumerate_loop api left (i + 1) (misses + 1)
  after left i misses (some disk) = disk ∷ enumerate_loop api left (i + 1) 0

  loop_round :
      (left i misses : ℕ)
      → enumerate_loop api (suc left) i misses ≡ after left i misses (inspect_disk api i)
  unfolding enumerate_loop
  loop_round left i misses = by_answer (inspect_disk api i)
    where
      by_answer :
          (seen : Option DiskInfo)
          → (elim seen as (λ x. List DiskInfo) [
            | some disk ↦
                disk
                ∷ enumerate_loop api left
                    (i + 1)
                    (elim seen as (λ x. ℕ) [ none ↦ misses + 1 | some disk ↦ 0 ])
            | none ↦
                if leb 3 (elim seen as (λ x. ℕ) [ none ↦ misses + 1 | some disk ↦ 0 ]) && leb 4 i
                then []
                else enumerate_loop api left
                    (i + 1)
                    (elim seen as (λ x. ℕ) [ none ↦ misses + 1 | some disk ↦ 0 ])
          ])
            ≡ after left i misses seen
      by_answer none = refl
      by_answer (some disk) = refl

  loop-drives :
      (left i misses : ℕ)
      → Missed misses i
      → (n : ℕ) × (n ≤ left) × (enumerate_loop api left i misses ≡ drives n i) × Stops left i n
  unfolding drives
  loop-drives zero i misses missed = (0, omega arith, unfold enumerate_loop in refl, inl refl)
  loop-drives (suc left) i misses missed = elim (Option-cases (inspect_disk api i)) [
    | inr (disk, e) ↦
        let (n, small, same, stops) = loop-drives left (i + 1) 0 (λ j h k. absurd (omega arith)) in
        (
          suc n,
          omega arith,
          round (some disk) e ∙ rw (e, drives) (ap (◌∷◌ disk) same),
          later n stops,
        )
    | inl e ↦
        let more : Missed (misses + 1) (i + 1) = λ j h k. elim (dec_lt j i) [
          | yes before ↦ missed j before (omega arith)
          | no here ↦ subst (λ x. inspect_disk api x ≡ none) (let it : i ≡ j = omega arith in it) e
        ] in
        elim (Bool-cases (leb 3 (misses + 1) && leb 4 i)) [
          | inl stop ↦ (
            1,
            omega arith,
            round none e ∙ rw (stop, drives, e) refl,
            inr (ground arith, λ j h k. more j h (ground arith)),
          )
          | inr on ↦
              let (n, small, same, stops) = loop-drives left (i + 1) (misses + 1) more in
              (suc n, omega arith, round none e ∙ rw (on, drives, e) same, later n stops)
        ]
  ]
    where
      round :
          (seen : Option DiskInfo)
          → inspect_disk api i ≡ seen
          → enumerate_loop api (suc left) i misses ≡ after left i misses seen
      round seen e = loop_round left i misses ∙ ap (after left i misses) e

      later : (n : ℕ) → Stops left (i + 1) n → Stops (suc left) i (suc n)
      later n (inl e) = inl (ap suc e)
      later n (inr (five, gone)) =
          inr (
            omega arith,
            subst (Missed 3) (let it : i + 1 + n ≡ i + suc n = omega arith in it) gone,
          )

  -- The enumeration gives the drives that open among the indices from 0 up to where it stops, in
  -- order: at 32, or earlier, but not before 5 and only where the last three indices did not open.
  pub enumerate_all_disks-drives :
      (n : ℕ) × (n ≤ 32) × (enumerate_all_disks api ≡ drives n 0) × Stops 32 0 n
  unfolding enumerate_all_disks
  enumerate_all_disks-drives = loop-drives 32 0 0 λ j h k. absurd (omega arith)
