-- ===== src/Base/Outcome.antt =====
-- What a C++ function that returns `bool` and fills an out parameter does.
use mathlib.Core.Path.{◌≡◌, refl}
use mathlib.Core.Logic.{◌≢◌, ◌⊎◌, inl, inr}
use mathlib.Core.Bool.{Bool, true, false}
use mathlib.Core.Option.{Option, none, some}

-- `ok a`: true, with `a` in the out parameter; `failed`: false; `fault`: undefined behaviour (an
-- access outside an array, a division by zero, a shift too far); `stuck`: the fuel ran out.
pub data Result {ℓ} (A : Type ℓ) : Type ℓ where
  ok : A → Result A
  failed : Result A
  fault : Result A
  stuck : Result A

infixl 5 ◌>>=◌
abbrev pub ◌>>=◌ {ℓ κ} : {A : Type ℓ} {B : Type κ} → Result A → (A → Result B) → Result B
failed >>= next = failed
fault >>= next = fault
stuck >>= next = stuck
ok a >>= next = next a

infixl 5 ◌>>◌
abbrev pub ◌>>◌ {ℓ} : {B : Type ℓ} → Result (Unit {0}) → Result B → Result B
first >> second = first >>= λ _. second

-- `if (!c) return false;`
abbrev pub guard : Bool → Result (Unit {0})
guard true = ok tt
guard false = failed

-- Behaviour is undefined unless the test holds.
abbrev pub demand : Bool → Result (Unit {0})
demand true = ok tt
demand false = fault

-- `if (!f(..., out)) return false;`, for an `f` that is modelled by an `Option`.
abbrev pub from_option {ℓ} : {A : Type ℓ} → Option A → Result A
from_option none = failed
from_option (some a) = ok a

-- A call whose `false` is not looked at, with what the out parameter then holds.
abbrev pub or_else {ℓ} : {A : Type ℓ} → Result A → A → Result A
or_else (ok a) d = ok a
or_else failed d = ok d
or_else fault d = fault
or_else stuck d = stuck

-- What a successful call in front of another one gave.
pub >>=-eq-ok {ℓ κ} :
    {A : Type ℓ} {B : Type κ} (call : Result A) (next : A → Result B) {b : B}
    → (call >>= next) ≡ ok b
    → (a : A) × (call ≡ ok a) × (next a ≡ ok b)
>>=-eq-ok failed next e = cc
>>=-eq-ok fault next e = cc
>>=-eq-ok stuck next e = cc
>>=-eq-ok (ok a) next e = (a, refl, e)

-- A call whose `false` is looked at, and is not returned.
abbrev pub attempt {ℓ} : {A : Type ℓ} → Result A → Result (Option A)
attempt (ok a) = ok (some a)
attempt failed = ok none
attempt fault = fault
attempt stuck = stuck

pub bind-ne-stuck {ℓ κ} :
    {A : Type ℓ} {B : Type κ} (m : Result A) (f : A → Result B)
    → m ≢ stuck
    → ((a : A) → m ≡ ok a → f a ≢ stuck)
    → (m >>= f) ≢ stuck
bind-ne-stuck (ok a) f h k e = k a refl e
bind-ne-stuck failed f h k e = cc
bind-ne-stuck fault f h k e = cc
bind-ne-stuck stuck f h k e = absurd (h refl)

pub >>=-assoc {ℓ κ} :
    {A : Type ℓ} {B C : Type κ} (m : Result A) (f : A → Result B) (g : B → Result C)
    → ((m >>= f) >>= g) ≡ (m >>= λ a. f a >>= g)
>>=-assoc (ok a) f g = refl
>>=-assoc failed f g = refl
>>=-assoc fault f g = refl
>>=-assoc stuck f g = refl

pub >>=-cong {ℓ κ} :
    {A : Type ℓ} {B : Type κ} (m : Result A) (f g : A → Result B)
    → ((a : A) → f a ≡ g a)
    → (m >>= f) ≡ (m >>= g)
>>=-cong (ok a) f g h = h a
>>=-cong failed f g h = refl
>>=-cong fault f g h = refl
>>=-cong stuck f g h = refl

-- Neither false nor out of fuel: an answer, if behaviour is defined.
abbrev pub Returns {ℓ} : {A : Type ℓ} → Result A → Type ℓ
Returns m = (m ≢ failed) × (m ≢ stuck)

pub ok-Returns {ℓ} : {A : Type ℓ} (a : A) → Returns (ok a)
ok-Returns a = ((λ e. cc), λ e. cc)

-- What a successful chain behind a call of two outcomes has gone through.
pub option_step {ℓ κ} :
    {A : Type ℓ} {B : Type κ} (call : Result (Option A)) (skip : Result B) (keep : A → Result B)
    {b : B}
    → (call >>= elim [ none ↦ skip | some a ↦ keep a ]) ≡ ok b
    → ((call ≡ ok none) × (skip ≡ ok b)) ⊎ ((a : A) × (call ≡ ok (some a)) × (keep a ≡ ok b))
option_step (ok none) skip keep e = inl (refl, e)
option_step (ok (some a)) skip keep e = inr (a, refl, e)
option_step failed skip keep e = cc
option_step fault skip keep e = cc
option_step stuck skip keep e = cc

pub ok-inj {ℓ} : {A : Type ℓ} {a b : A} → ok a ≡ ok b → a ≡ b
ok-inj e = cc

pub some-inj {ℓ} : {A : Type ℓ} {a b : A} → some a ≡ some b → a ≡ b
some-inj e = cc

pub attempt-some {ℓ} :
    {A : Type ℓ} (call : Result A) {a : A} → attempt call ≡ ok (some a) → call ≡ ok a
attempt-some (ok b) e = cc
attempt-some failed e = cc
attempt-some fault e = cc
attempt-some stuck e = cc

pub attempt-none {ℓ} : {A : Type ℓ} (call : Result A) → attempt call ≡ ok none → call ≡ failed
attempt-none (ok b) e = cc
attempt-none failed e = refl
attempt-none fault e = cc
attempt-none stuck e = cc

-- The call comes back with an answer.
abbrev pub Gives {ℓ} : {A : Type ℓ} → Result A → Type ℓ
Gives {A = A} m = (a : A) × (m ≡ ok a)

pub bind-Gives {ℓ κ} :
    {A : Type ℓ} {B : Type κ} (m : Result A) (f : A → Result B)
    → Gives m
    → ((a : A) → m ≡ ok a → Gives (f a))
    → Gives (m >>= f)
bind-Gives (ok a) f g k = k a refl
bind-Gives failed f (a, e) k = cc
bind-Gives fault f (a, e) k = cc
bind-Gives stuck f (a, e) k = cc

pub option-Gives {ℓ κ} :
    {A : Type ℓ} {B : Type κ} (o : Option A) (skip : Result B) (keep : A → Result B)
    → Gives skip
    → ((a : A) → o ≡ some a → Gives (keep a))
    → Gives (elim o [ none ↦ skip | some a ↦ keep a ])
option-Gives none skip keep g k = g
option-Gives (some a) skip keep g k = k a refl
