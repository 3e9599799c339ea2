-- ===== src/Common/Outcomes.antt =====
-- How a call ends: with a value, by `panic!` or a failed `expect`, or by an access outside the
-- memory that the model gives the component, which Rust leaves undefined.
use mathlib.Core.Option.{Option, none, some}
use mathlib.Core.Path.{◌≡◌}

pub data Run {ℓ} (A : Type ℓ) : Type ℓ where
  done : A → Run A
  panic : Run A
  fault : Run A

infixl 5 ◌>>=◌
abbrev pub ◌>>=◌ {ℓ κ} : {A : Type ℓ} {B : Type κ} → Run A → (A → Run B) → Run B
done a >>= f = f a
panic >>= f = panic
fault >>= f = fault

-- The value that a pointer reads, when there is one.
abbrev pub deref {ℓ} : {A : Type ℓ} → Option A → Run A
deref none = fault
deref (some a) = done a

-- A step that ends with a value hands it on.
pub bind-done {ℓ κ} :
    {A : Type ℓ} {B : Type κ} (m : Run A) (f : A → Run B) {a : A} {r : Run B}
    → m ≡ done a
    → f a ≡ r
    → (m >>= f) ≡ r
bind-done m f e h = rw e h

-- The code ends with a value for which `P` holds.
pub record Ends {ℓ κ} {A : Type ℓ} (m : Run A) (P : A → Type κ) : Type (ℓ ⊔ κ) where
  pub value : A
  pub ends : m ≡ done value
  pub holds : P value

pub Ends-bind {ℓ κ ι μ} :
    {A : Type ℓ} {B : Type κ} {P : A → Type ι} {Q : B → Type μ} (m : Run A) (f : A → Run B)
    → Ends m P
    → ((a : A) → P a → Ends (f a) Q)
    → Ends (m >>= f) Q
Ends-bind m f first then =
    let next = then first.value first.holds in
    record { value = next.value; ends = bind-done m f first.ends next.ends; holds = next.holds }
