-- ===== src/Prelude/Options.antt =====
-- Results that may be missing.
use mathlib.Core.Bool.{Bool, true, false}
use mathlib.Core.Option.{Option, none, some}
use linux_based_os.Prelude.Tests.{if◌then◌else◌}

abbrev pub bind {ℓ κ} : {A : Type ℓ} {B : Type κ} → Option A → (A → Option B) → Option B
bind none f = none
bind (some a) f = f a

abbrev pub map_some {ℓ κ} : {A : Type ℓ} {B : Type κ} → (A → B) → Option A → Option B
map_some f none = none
map_some f (some a) = some (f a)

-- `P` holds of the value, where there is one.
abbrev pub OnSome {ℓ κ} : {A : Type ℓ} → (A → Type κ) → Option A → Type κ
OnSome P none = Unit {κ}
OnSome P (some a) = P a

pub OnSome-map_some :
    {A B : Type 0} (P : B → Type 0) (f : A → B) (o : Option A)
    → ((a : A) → P (f a))
    → OnSome P (map_some f o)
OnSome-map_some P f none h = tt
OnSome-map_some P f (some a) h = h a

pub OnSome-map :
    {A B : Type 0} (P : B → Type 0) (Q : A → Type 0) (f : A → B) (o : Option A)
    → OnSome Q o
    → ((a : A) → Q a → P (f a))
    → OnSome P (map_some f o)
OnSome-map P Q f none q h = tt
OnSome-map P Q f (some a) q h = h a q

pub OnSome-bind :
    {A B : Type 0} (P : B → Type 0) (f : A → Option B) (o : Option A)
    → ((a : A) → OnSome P (f a))
    → OnSome P (bind o f)
OnSome-bind P f none h = tt
OnSome-bind P f (some a) h = h a

-- Both branches of a test.
pub OnSome-if :
    {A : Type 0} (P : A → Type 0) (b : Bool) (x y : Option A)
    → OnSome P x
    → OnSome P y
    → OnSome P (if b then x else y)
OnSome-if P true x y h k = h
OnSome-if P false x y h k = k
