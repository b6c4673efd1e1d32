-- ===== src/Prelude/Fault.antt =====
-- Results of code that may dereference a null pointer, use a dead iterator or read outside a
-- buffer: `fault` is what the language leaves undefined.
use mathlib.Core.Path.{◌≡◌, refl, subst}
use mathlib.Core.Logic.{◌≢◌}
use mathlib.Core.Bool.{Bool, true, false}
use smqueue.Prelude.Tests.{if◌then◌else◌}
use mathlib.Core.Option.{Option, none, some}

-- `fault` is no error that a caller could handle: nothing is known of a program that meets it.
pub data Res {ℓ} (T : Type ℓ) : Type ℓ where
  fault : Res T
  ok : T → Res T

-- What follows a fault is not reached.
module _ {ℓ κ} {T : Type ℓ} {U : Type κ} where
  infixl 5 ◌>>=◌
  abbrev pub ◌>>=◌ : Res T → (T → Res U) → Res U
  fault >>= next = fault
  ok t >>= next = next t

  -- Inversion of a chain that returns.
  pub >>=-eq-ok :
      (first : Res T) (next : T → Res U) {u : U}
      → (first >>= next) ≡ ok u
      → (t : T) × (first ≡ ok t) × (next t ≡ ok u)
  >>=-eq-ok fault next h = cc
  >>=-eq-ok (ok t) next h = (t, refl, h)

-- The code returns, and its result satisfies the predicate.
abbrev pub Ensures {ℓ κ} : {T : Type ℓ} → (T → Type κ) → Res T → Type (ℓ ⊔ κ)
Ensures {T} P r = (t : T) × (r ≡ ok t) × P t

-- A pointer that is read: `none` is the null pointer.
abbrev pub deref {ℓ} : {T : Type ℓ} → Option T → Res T
deref (some t) = ok t
deref none = fault

-- Where the code returns, its result satisfies the predicate.
abbrev pub Holds {ℓ κ} : {A : Type ℓ} → (A → Type κ) → Res A → Type κ
Holds P (ok a) = P a
Holds P fault = Unit

pub Holds-eq_ok {ℓ κ} :
    {A : Type ℓ} (P : A → Type κ) (m : Res A) {a : A} → Holds P m → m ≡ ok a → P a
Holds-eq_ok P m h e = subst (Holds P) e h

pub eq_ok-Holds {ℓ κ} :
    {A : Type ℓ} (P : A → Type κ) (m : Res A) → ((a : A) → m ≡ ok a → P a) → Holds P m
eq_ok-Holds P (ok a) h = h a refl
eq_ok-Holds P fault h = tt

pub >>=-Holds {ℓ κ μ ν} :
    {A : Type ℓ} {B : Type κ} (Q : A → Type μ) (P : B → Type ν) (m : Res A) (f : A → Res B)
    → Holds Q m
    → ((a : A) → Q a → Holds P (f a))
    → Holds P (m >>= f)
>>=-Holds Q P (ok a) f h k = k a h
>>=-Holds Q P fault f h k = tt

-- The same, for a first part whose result is only known to be its result.
pub >>=-Holds_eq {ℓ κ ν} :
    {A : Type ℓ} {B : Type κ} (P : B → Type ν) (m : Res A) (f : A → Res B)
    → ((a : A) → m ≡ ok a → Holds P (f a))
    → Holds P (m >>= f)
>>=-Holds_eq P (ok a) f k = k a refl
>>=-Holds_eq P fault f k = tt

pub Holds-map {ℓ κ μ} :
    {A : Type ℓ} (P : A → Type κ) (Q : A → Type μ) (m : Res A)
    → ((a : A) → P a → Q a)
    → Holds P m
    → Holds Q m
Holds-map P Q (ok a) f h = f a h
Holds-map P Q fault f h = tt

pub if-Holds {ℓ κ} :
    {A : Type ℓ} (P : A → Type κ) (b : Bool) (x y : Res A)
    → (b ≡ true → Holds P x)
    → (b ≡ false → Holds P y)
    → Holds P (if b then x else y)
if-Holds P true x y h k = h refl
if-Holds P false x y h k = k refl

pub deref-eq_ok {ℓ} : {A : Type ℓ} {o : Option A} {a : A} → deref o ≡ ok a → o ≡ some a
deref-eq_ok {o = none} h = cc
deref-eq_ok {o = some b} h = cc

pub Option-Holds {ℓ κ μ} :
    {A : Type ℓ} {B : Type κ} (P : B → Type μ) (o : Option A) (x : Res B) (f : A → Res B)
    → (o ≡ none → Holds P x)
    → ((a : A) → o ≡ some a → Holds P (f a))
    → Holds P (elim o [ none ↦ x | some a ↦ f a ])
Option-Holds P none x f h k = h refl
Option-Holds P (some a) x f h k = k a refl

pub Holds-both {ℓ κ μ} :
    {T : Type ℓ} (P : T → Type κ) (Q : T → Type μ) (m : Res T)
    → Holds P m
    → Holds Q m
    → Holds (λ a. P a × Q a) m
Holds-both P Q (ok a) h k = (h, k)
Holds-both P Q fault h k = tt

pub >>=-returns {ℓ κ} :
    {A : Type ℓ} {B : Type κ} (m : Res A) (f : A → Res B)
    → m ≢ fault
    → ((a : A) → m ≡ ok a → f a ≢ fault)
    → (m >>= f) ≢ fault
>>=-returns (ok a) f h k = k a refl
>>=-returns fault f h k = absurd (h refl)

pub ok-returns {ℓ} : {A : Type ℓ} (a : A) → ok a ≢ fault
ok-returns a e = cc

-- Code that returns, and whose result satisfies the predicate where it returns.
pub Holds-Ensures {ℓ κ} :
    {A : Type ℓ} (P : A → Type κ) (m : Res A) → Holds P m → m ≢ fault → Ensures P m
Holds-Ensures P (ok a) h k = (a, refl, h)
Holds-Ensures P fault h k = absurd (k refl)
