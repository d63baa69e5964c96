-- ===== src/Prelude/Options.antt =====
-- The bind of calls that may raise, with `none` for the exception, and what a call ensures.
use mathlib.Core.Path.{◌≡◌, refl, subst}
use mathlib.Core.Bool.{Bool, true, false, ◌&&◌}
use mathlib.Core.Option.{Option, none, some}

infixl 5 ◌>>=◌
abbrev pub ◌>>=◌ {ℓ κ} : {A : Type ℓ} {B : Type κ} → Option A → (A → Option B) → Option B
none >>= f = none
some a >>= f = f a

-- What is returned, if anything is, satisfies a predicate.
abbrev pub Ensures : {A : Type 0} → (A → Type 0) → Option A → Type 0
Ensures P none = Unit
Ensures P (some a) = P a

pub Ensures-bind :
    {A B : Type 0} (P : A → Type 0) (Q : B → Type 0) (m : Option A) (f : A → Option B)
    → Ensures P m
    → ((a : A) → P a → Ensures Q (f a))
    → Ensures Q (m >>= f)
Ensures-bind P Q none f h k = tt
Ensures-bind P Q (some a) f h k = k a h

pub Ensures-of :
    {A : Type 0} (P : A → Type 0) (m : Option A) → ((a : A) → m ≡ some a → P a) → Ensures P m
Ensures-of P none h = tt
Ensures-of P (some a) h = h a refl

pub Ensures-at :
    {A : Type 0} (P : A → Type 0) (m : Option A) {a : A} → Ensures P m → m ≡ some a → P a
Ensures-at P none h e = cc
Ensures-at P (some b) h e = subst P (cc) h

pub any_returned : {A : Type 0} (m : Option A) → Ensures (λ a. Unit) m
any_returned m = Ensures-of (λ a. Unit) m (λ a e. tt)

abbrev pub is_some {ℓ} : {A : Type ℓ} → Option A → Bool
is_some none = false
is_some (some a) = true

pub is_some-bind :
    {A B : Type 0} (m : Option A) (f : A → Option B) (b : Bool)
    → ((a : A) → is_some (f a) ≡ b)
    → is_some (m >>= f) ≡ (is_some m && b)
is_some-bind none f b h = refl
is_some-bind (some a) f b h = h a

pub is_some-some :
    {A B : Type 0} (m : Option A) (g : A → B) → is_some (m >>= λ a. some (g a)) ≡ is_some m
is_some-some none g = refl
is_some-some (some a) g = refl

pub is_some→some : {A : Type 0} (m : Option A) → is_some m ≡ true → (a : A) × (m ≡ some a)
is_some→some none h = cc
is_some→some (some a) h = (a, refl)
