-- ===== src/Base/Run.antt =====
-- The outcome of C code: a value, an access outside an array (undefined in C), or not enough fuel
-- for a loop.
use mathlib.Core.Option.{Option, none, some}
use mathlib.Core.Path.{◌≡◌, refl, ap, ◌∙◌}

pub data Run {ℓ} (A : Type ℓ) : Type ℓ where
  done : A → Run A
  fault : Run A
  out_of_fuel : Run A

infixl 5 ◌>>=◌ ◌>>◌
abbrev pub ◌>>=◌ {ℓ κ} : {A : Type ℓ} {B : Type κ} → Run A → (A → Run B) → Run B
done a >>= f = f a
fault >>= f = fault
out_of_fuel >>= f = out_of_fuel

abbrev pub ◌>>◌ {ℓ} : {B : Type ℓ} → Run (Unit {0}) → Run B → Run B
m >> k = m >>= λ _. k

-- An element that was fetched within bounds.
abbrev pub fetched {ℓ} : {A : Type ℓ} → Option A → Run A
fetched none = fault
fetched (some a) = done a

-- A step that is done goes on with its value.
pub bind-done {ℓ κ} :
    {A : Type ℓ} {B : Type κ} {x : Run A} {a : A} (f : A → Run B) {r : Run B}
    → x ≡ done a
    → f a ≡ r
    → (x >>= f) ≡ r
bind-done f e h = ap (λ y. y >>= f) e ∙ h

-- Steps that go on alike give the same run.
pub bind-ext {ℓ κ} :
    {A : Type ℓ} {B : Type κ} (m : Run A) (f g : A → Run B)
    → ((a : A) → f a ≡ g a)
    → (m >>= f) ≡ (m >>= g)
bind-ext (done a) f g h = h a
bind-ext fault f g h = refl
bind-ext out_of_fuel f g h = refl

pub bind_assoc {ℓ κ μ} :
    {A : Type ℓ} {B : Type κ} {C : Type μ} (m : Run A) (f : A → Run B) (g : B → Run C)
    → ((m >>= f) >>= g) ≡ (m >>= λ a. f a >>= g)
bind_assoc (done a) f g = refl
bind_assoc fault f g = refl
bind_assoc out_of_fuel f g = refl
