-- ===== src/Prelude/Options.antt =====
-- Chains of partial results.
use mathlib.Core.Option.{Option, none, some}
use mathlib.Core.Path.{◌≡◌, refl, ap, ◌∙◌}
use mathlib.Core.Bool.{Bool, true, false}
use oldasternix.Prelude.Tests.{if◌then◌else◌}

infixl 5 ◌>>=◌
abbrev pub ◌>>=◌ {ℓ κ} : {A : Type ℓ} {B : Type κ} → Option A → (A → Option B) → Option B
none >>= f = none
some a >>= f = f a

-- A computation that ends, with a result that has the property `P`.
abbrev pub Ends {ℓ κ} : {A : Type ℓ} → Option A → (A → Type κ) → Type (ℓ ⊔ κ)
Ends {A = A} r P = (a : A) × (r ≡ some a) × P a

pub Ends-bind {ℓ κ μ ν} :
    {A : Type ℓ} {B : Type κ} {P : A → Type μ} {Q : B → Type ν} {r : Option A} {f : A → Option B}
    → Ends r P
    → ((a : A) → P a → Ends (f a) Q)
    → Ends (r >>= f) Q
Ends-bind {f = f} (a, e, p) next = let (b, e', q) = next a p in (b, ap (λ t. t >>= f) e ∙ e', q)

pub Ends-if {ℓ κ} :
    {A : Type ℓ} {P : A → Type κ} {r s : Option A} (b : Bool)
    → (b ≡ true → Ends r P)
    → (b ≡ false → Ends s P)
    → Ends (if b then r else s) P
Ends-if true met unmet = met refl
Ends-if false met unmet = unmet refl
