-- ===== src/Device/Handles.antt =====
-- Which handles the operations of a block device open and close, over histories of two devices
-- between which the handle is moved.
use linux2win.Base.{
  ℕ, ◌+◌, ◌≡◌, Bool, none, some, List, [], ◌∷◌, ◌++◌, arith, Bytes, All, ◌==◌, if◌then◌else◌,
}
use linux2win.Device.{
  Win32, BlockDevice, Call, is_open, creates, closes, generic_read, close, open_read_only,
  move_assign,
}

-- How often a handle is opened, and closed, by a list of calls.
abbrev one_if : Bool → ℕ
one_if b = if b then 1 else 0

abbrev pub opened : ℕ → List Call → ℕ
opened h [] = 0
opened h (creates a f none ∷ cs) = opened h cs
opened h (creates a f (some k) ∷ cs) = one_if (k == h) + opened h cs
opened h (closes k ∷ cs) = opened h cs

abbrev pub closed : ℕ → List Call → ℕ
closed h [] = 0
closed h (creates a f k ∷ cs) = closed h cs
closed h (closes k ∷ cs) = one_if (k == h) + closed h cs

abbrev pub held : ℕ → BlockDevice → ℕ
held h d = elim d.handle [ none ↦ 0 | some k ↦ one_if (k == h) ]

abbrev pub IsReadOnly : Call → Type 0
IsReadOnly (creates a f k) = a ≡ generic_read
IsReadOnly (closes k) = Unit {0}

-- Two devices, and what a caller does with them.
pub record Two : Type 0 where
  pub left : BlockDevice
  pub right : BlockDevice

pub data Op : Type 0 where
  open_left open_right : Bytes → ℕ → ℕ → Op
  close_left close_right assign_left assign_right : Op

unfoldable pub step : Win32 → Two → Op → Two × List Call
step os t (open_left path off size) =
    let (d, calls, _) = open_read_only os t.left path off size in (record t { left = d }, calls)
step os t (open_right path off size) =
    let (d, calls, _) = open_read_only os t.right path off size in (record t { right = d }, calls)
step os t close_left = let (d, calls) = close t.left in (record t { left = d }, calls)
step os t close_right = let (d, calls) = close t.right in (record t { right = d }, calls)
step os t assign_left =
    let (d, other, calls) = move_assign t.left t.right in
    (record { left = d; right = other }, calls)
step os t assign_right =
    let (d, other, calls) = move_assign t.right t.left in
    (record { left = other; right = d }, calls)

unfoldable pub run : Win32 → Two → List Op → Two × List Call
run os t [] = (t, [])
run os t (o ∷ os') =
    let (t', calls) = step os t o in let (t'', rest) = run os t' os' in (t'', calls ++ rest)

opened-append : (h : ℕ) (xs ys : List Call) → opened h (xs ++ ys) ≡ opened h xs + opened h ys
opened-append h [] ys = omega arith
opened-append h (creates a f none ∷ xs) ys = opened-append h xs ys
opened-append h (creates a f (some k) ∷ xs) ys = omega (arith, opened-append h xs ys)
opened-append h (closes k ∷ xs) ys = opened-append h xs ys

closed-append : (h : ℕ) (xs ys : List Call) → closed h (xs ++ ys) ≡ closed h xs + closed h ys
closed-append h [] ys = omega arith
closed-append h (creates a f k ∷ xs) ys = closed-append h xs ys
closed-append h (closes k ∷ xs) ys = omega (arith, closed-append h xs ys)

All-append : (xs ys : List Call) → All IsReadOnly xs → All IsReadOnly ys → All IsReadOnly (xs ++ ys)
All-append [] ys hx hy = hy
All-append (x ∷ xs) ys hx hy = (hx.0, All-append xs ys hx.1 hy)

abbrev held_two : ℕ → Two → ℕ
held_two h t = held h t.left + held h t.right

step_balance :
    (os : Win32) (h : ℕ) (t : Two) (o : Op)
    → held_two h t + opened h (step os t o).1
      ≡ closed h (step os t o).1 + held_two h (step os t o).0
unfolding step open_read_only move_assign
step_balance os h t (open_left path off size) = ground arith
step_balance os h t (open_right path off size) = ground arith
step_balance os h t o = ground arith

step-IsReadOnly : (os : Win32) (t : Two) (o : Op) → All IsReadOnly (step os t o).1
unfolding step open_read_only move_assign
step-IsReadOnly os t (open_left path off size) = ground arith
step-IsReadOnly os t (open_right path off size) = ground arith
step-IsReadOnly os t o = ground arith

-- Over any history of opening, closing and moving, each handle is balanced: as often as it was
-- held before or is opened, it is closed or still held by one of the devices afterwards.
pub run_balance :
    (os : Win32) (h : ℕ) (ops : List Op) (t : Two)
    → held_two h t + opened h (run os t ops).1
      ≡ closed h (run os t ops).1 + held_two h (run os t ops).0
unfolding run
run_balance os h [] t = omega arith
run_balance os h (o ∷ ops) t = omega (
  arith,
  step_balance os h t o,
  run_balance os h ops (step os t o).0,
  opened-append h (step os t o).1 (run os (step os t o).0 ops).1,
  closed-append h (step os t o).1 (run os (step os t o).0 ops).1,
)

-- No history ever asks `CreateFileW` for anything but read access.
pub run-IsReadOnly : (os : Win32) (ops : List Op) (t : Two) → All IsReadOnly (run os t ops).1
unfolding run
run-IsReadOnly os [] t = tt
run-IsReadOnly os (o ∷ ops) t =
    All-append _ _ (step-IsReadOnly os t o) (run-IsReadOnly os ops (step os t o).0)

-- A device is open after `open_read_only` exactly if that returned true.
pub open_read_only-is_open :
    (os : Win32) (d : BlockDevice) (path : Bytes) (offset size : ℕ)
    → is_open (open_read_only os d path offset size).0 ≡ (open_read_only os d path offset size).2
unfolding open_read_only is_open
open_read_only-is_open os d path offset size = ground arith
