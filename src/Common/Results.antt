-- ===== src/Common/Results.antt =====
-- Postconditions of a computation that may stop: what each result satisfies, composed along a chain.
use libnvme.Prelude.{Bool, true, false, Option, none, some, ◌≡◌, refl, ◌>>=◌, if◌then◌else◌}

unfoldable pub AllSome {ℓ κ} : {A : Type ℓ} → (A → Type κ) → Option A → Type κ
AllSome P none = Unit
AllSome P (some a) = P a

pub any-AllSome {ℓ} : {A : Type ℓ} (m : Option A) → AllSome (λ _. Unit {0}) m
unfolding AllSome
any-AllSome none = tt
any-AllSome (some a) = tt

pub bind-AllSome {ℓ κ μ ν} :
    {A : Type ℓ} {B : Type κ} (P : A → Type μ) (Q : B → Type ν) (m : Option A) (f : A → Option B)
    → AllSome P m
    → ((a : A) → P a → AllSome Q (f a))
    → AllSome Q (m >>= f)
unfolding AllSome
bind-AllSome P Q none f h k = tt
bind-AllSome P Q (some a) f h k = k a h

-- A step whose result the postcondition does not need.
pub then-AllSome {ℓ κ ν} :
    {A : Type ℓ} {B : Type κ} (Q : B → Type ν) (m : Option A) (f : A → Option B)
    → ((a : A) → AllSome Q (f a))
    → AllSome Q (m >>= f)
unfolding AllSome
then-AllSome Q none f k = tt
then-AllSome Q (some a) f k = k a

pub if-AllSome {ℓ ν} :
    {A : Type ℓ} (Q : A → Type ν) (b : Bool) (m n : Option A)
    → AllSome Q m
    → AllSome Q n
    → AllSome Q (if b then m else n)
if-AllSome Q true m n h k = h
if-AllSome Q false m n h k = k

-- The two branches, each with what its test says.
pub split-AllSome {ℓ ν} :
    {A : Type ℓ} (Q : A → Type ν) (b : Bool) (m n : Option A)
    → (b ≡ true → AllSome Q m)
    → (b ≡ false → AllSome Q n)
    → AllSome Q (if b then m else n)
split-AllSome Q true m n h k = h refl
split-AllSome Q false m n h k = k refl

-- What holds of each result holds of the one there is.
pub AllSome-some {ℓ ν} :
    {A : Type ℓ} (Q : A → Type ν) {m : Option A} {a : A} → m ≡ some a → AllSome Q m → Q a
unfolding AllSome
AllSome-some Q e h = rw e at h

-- A postcondition of the one result there can be.
pub to-AllSome {ℓ ν} :
    {A : Type ℓ} (Q : A → Type ν) (m : Option A) → ((a : A) → m ≡ some a → Q a) → AllSome Q m
unfolding AllSome
to-AllSome Q none h = tt
to-AllSome Q (some a) h = h a refl
