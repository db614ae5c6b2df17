-- ===== src/Prelude/Calls.antt =====
-- How a C++ call ends: it returns, throws, or runs into undefined behaviour.
use mathlib.Core.Path.{◌≡◌, refl, subst}

pub data Outcome {ℓ} (X : Type 0) (A : Type ℓ) : Type ℓ where
  returned : A → Outcome X A
  threw : X → Outcome X A
  undefined : Outcome X A

infixl 5 ◌>>=◌
abbrev pub ◌>>=◌ {ℓ κ} :
    {X : Type 0} {A : Type ℓ} {B : Type κ} → Outcome X A → (A → Outcome X B) → Outcome X B
returned a >>= f = f a
threw x >>= f = threw x
undefined >>= f = undefined

-- The call returns, and its result satisfies the predicate.
abbrev pub Returns {ℓ} : {X : Type 0} {A : Type ℓ} → Outcome X A → (A → Type 0) → Type 0
Returns (returned a) P = P a
Returns (threw x) P = ⊥
Returns undefined P = ⊥

pub Returns-result :
    {X A : Type 0} (h : Outcome X A) (P : A → Type 0) → Returns h P → (a : A) × (h ≡ returned a)
Returns-result (returned a) P p = (a, refl)
Returns-result (threw x) P p = absurd p
Returns-result undefined P p = absurd p

pub >>=-Returns {ℓ κ} :
    {X : Type 0} {A : Type ℓ} {B : Type κ} (m : Outcome X A) (f : A → Outcome X B) (P : A → Type 0)
    (Q : B → Type 0)
    → Returns m P
    → ((a : A) → P a → Returns (f a) Q)
    → Returns (m >>= f) Q
>>=-Returns (returned a) f P Q h k = k a h
>>=-Returns (threw x) f P Q h k = absurd h
>>=-Returns undefined f P Q h k = absurd h

pub Returns-mono {ℓ} :
    {X : Type 0} {A : Type ℓ} (m : Outcome X A) (P Q : A → Type 0)
    → Returns m P
    → ((a : A) → P a → Q a)
    → Returns m Q
Returns-mono (returned a) P Q h k = k a h
Returns-mono (threw x) P Q h k = absurd h
Returns-mono undefined P Q h k = absurd h

pub >>=-assoc {ℓ κ μ} :
    {X : Type 0} {A : Type ℓ} {B : Type κ} {C : Type μ} (m : Outcome X A) (f : A → Outcome X B)
    (g : B → Outcome X C)
    → (m >>= f >>= g) ≡ (m >>= λ a. f a >>= g)
>>=-assoc (returned a) f g = refl
>>=-assoc (threw x) f g = refl
>>=-assoc undefined f g = refl

pub >>=-returned {ℓ} : {X : Type 0} {A : Type ℓ} (m : Outcome X A) → (m >>= λ a. returned a) ≡ m
>>=-returned (returned a) = refl
>>=-returned (threw x) = refl
>>=-returned undefined = refl

-- A call that returns, followed by one that is undefined.
pub >>=-undefined {ℓ κ} :
    {X : Type 0} {A : Type ℓ} {B : Type κ} (m : Outcome X A) (f : A → Outcome X B) (P : A → Type 0)
    → Returns m P
    → ((a : A) → f a ≡ undefined)
    → (m >>= f) ≡ undefined
>>=-undefined (returned a) f P h k = k a
>>=-undefined (threw x) f P h k = absurd h
>>=-undefined undefined f P h k = refl

-- A call whose exceptions become those of its caller.
abbrev pub lift {ℓ} : {X Y : Type 0} {A : Type ℓ} → (X → Y) → Outcome X A → Outcome Y A
lift f (returned a) = returned a
lift f (threw x) = threw (f x)
lift f undefined = undefined

-- If the call returns, then its result satisfies the predicate.
abbrev pub IfReturns {ℓ} : {X : Type 0} {A : Type ℓ} → Outcome X A → (A → Type 0) → Type 0
IfReturns (returned a) P = P a
IfReturns (threw x) P = Unit
IfReturns undefined P = Unit

pub >>=-IfReturns {ℓ κ} :
    {X : Type 0} {A : Type ℓ} {B : Type κ} (h : Outcome X A) (f : A → Outcome X B) (P : A → Type 0)
    (Q : B → Type 0)
    → IfReturns h P
    → ((a : A) → P a → IfReturns (f a) Q)
    → IfReturns (h >>= f) Q
>>=-IfReturns (returned a) f P Q H k = k a H
>>=-IfReturns (threw x) f P Q H k = tt
>>=-IfReturns undefined f P Q H k = tt

pub IfReturns-any {ℓ} :
    {X : Type 0} {A : Type ℓ} (h : Outcome X A) (P : A → Type 0) → ((a : A) → P a) → IfReturns h P
IfReturns-any (returned a) P k = k a
IfReturns-any (threw x) P k = tt
IfReturns-any undefined P k = tt

pub IfReturns-mono {ℓ} :
    {X : Type 0} {A : Type ℓ} (h : Outcome X A) (P Q : A → Type 0)
    → IfReturns h P
    → ((a : A) → P a → Q a)
    → IfReturns h Q
IfReturns-mono (returned a) P Q H k = k a H
IfReturns-mono (threw x) P Q H k = tt
IfReturns-mono undefined P Q H k = tt

pub IfReturns-at {ℓ} :
    {X : Type 0} {A : Type ℓ} (h : Outcome X A) (P : A → Type 0) (a : A)
    → IfReturns h P
    → h ≡ returned a
    → P a
IfReturns-at h P a H e = subst (λ x. IfReturns x P) e H

pub IfReturns-self : {X : Type 0} {A : Type 0} (h : Outcome X A) → IfReturns h (λ a. h ≡ returned a)
IfReturns-self (returned a) = refl
IfReturns-self (threw x) = tt
IfReturns-self undefined = tt

pub IfReturns-lift {ℓ} :
    {X Y : Type 0} {A : Type ℓ} (f : X → Y) (h : Outcome X A) (P : A → Type 0)
    → IfReturns h P
    → IfReturns (lift f h) P
IfReturns-lift f (returned a) P H = H
IfReturns-lift f (threw x) P H = tt
IfReturns-lift f undefined P H = tt

pub IfReturns-Returns {ℓ} :
    {X : Type 0} {A : Type ℓ} (h : Outcome X A) (P : A → Type 0) → Returns h P → IfReturns h P
IfReturns-Returns (returned a) P H = H
IfReturns-Returns (threw x) P H = tt
IfReturns-Returns undefined P H = tt

-- The call returns, and its result satisfies the predicate, or it throws; it is not undefined.
abbrev pub Safely {ℓ} : {X : Type 0} {A : Type ℓ} → Outcome X A → (A → Type 0) → Type 0
Safely (returned a) P = P a
Safely (threw x) P = Unit
Safely undefined P = ⊥

pub >>=-Safely {ℓ κ} :
    {X : Type 0} {A : Type ℓ} {B : Type κ} (h : Outcome X A) (f : A → Outcome X B) (P : A → Type 0)
    (Q : B → Type 0)
    → Safely h P
    → ((a : A) → P a → Safely (f a) Q)
    → Safely (h >>= f) Q
>>=-Safely (returned a) f P Q H k = k a H
>>=-Safely (threw x) f P Q H k = tt
>>=-Safely undefined f P Q H k = absurd H

Safely-mono {ℓ} :
    {X : Type 0} {A : Type ℓ} (h : Outcome X A) (P Q : A → Type 0)
    → Safely h P
    → ((a : A) → P a → Q a)
    → Safely h Q
Safely-mono (returned a) P Q H k = k a H
Safely-mono (threw x) P Q H k = tt
Safely-mono undefined P Q H k = absurd H

pub Safely-IfReturns {ℓ} :
    {X : Type 0} {A : Type ℓ} (h : Outcome X A) (P Q : A → Type 0)
    → Safely h P
    → IfReturns h Q
    → Safely h (λ a. P a × Q a)
Safely-IfReturns (returned a) P Q H K = (H, K)
Safely-IfReturns (threw x) P Q H K = tt
Safely-IfReturns undefined P Q H K = absurd H

pub Returns-Safely {ℓ} :
    {X : Type 0} {A : Type ℓ} (h : Outcome X A) (P Q R : A → Type 0)
    → Returns h P
    → IfReturns h Q
    → ((a : A) → P a → Q a → R a)
    → Safely h R
Returns-Safely (returned a) P Q R H K k = k a H K
Returns-Safely (threw x) P Q R H K k = absurd H
Returns-Safely undefined P Q R H K k = absurd H

-- Two continuations that agree on what the call may return.
pub >>=-agree {ℓ κ} :
    {X : Type 0} {A : Type ℓ} {B : Type κ} (h : Outcome X A) (f g : A → Outcome X B)
    (P : A → Type 0)
    → IfReturns h P
    → ((a : A) → P a → f a ≡ g a)
    → (h >>= f) ≡ (h >>= g)
>>=-agree (returned a) f g P H k = k a H
>>=-agree (threw x) f g P H k = refl
>>=-agree undefined f g P H k = refl
