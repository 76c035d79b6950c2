-- ===== src/Common/Results.antt =====
-- Python exceptions as values. A message keeps its constant text; interpolated data is dropped.
use Prim.Native.Nat.{ℕ}
use Prim.Native.String.{String}
use mathlib.Core.Path.{◌≡◌, refl, ap}
use mathlib.Core.Logic.{◌⊎◌, inl, inr}
use mathlib.Core.Bool.{Bool, true, false}
use mathlib.Core.Option.{Option, none, some}

infixl 5 ◌>>=◌ ◌>>◌
pub data Exception : Type 0 where
  value_error key_error runtime_error assertion_error connection_error type_error :
      String → Exception
  -- `ConcurrentAppendError`: expected and actual head
  concurrent_append : ℕ → ℕ → Exception

pub data Result {ℓ} (A : Type ℓ) : Type ℓ where
  ok : A → Result A
  err : Exception → Result A

-- A block goes on with the value, and an exception ends it.
abbrev pub ◌>>=◌ {ℓ κ} : {A : Type ℓ} {B : Type κ} → Result A → (A → Result B) → Result B
err x >>= next = err x
ok value >>= next = next value

-- A check has no value to hand on.
abbrev pub ◌>>◌ {ℓ} : {B : Type ℓ} → Result (Unit {0}) → Result B → Result B
check >> next = check >>= λ _. next

-- `if c: raise e`
abbrev pub raise_if : Bool → Exception → Result (Unit {0})
raise_if true e = err e
raise_if false e = ok tt

abbrev pub or_raise {ℓ} : {A : Type ℓ} → Option A → Exception → Result A
or_raise none e = err e
or_raise (some a) e = ok a

-- A block that ends well has run its first statement.
pub >>=-eq-ok {ℓ κ} :
    {A : Type ℓ} {B : Type κ} (first : Result A) (next : A → Result B) {end : B}
    → (first >>= next) ≡ ok end
    → (value : A) × (first ≡ ok value) × (next value ≡ ok end)
>>=-eq-ok (err x) next ran = cc
>>=-eq-ok (ok value) next ran = (value, refl, ran)

pub Result-cases :
    {A : Type 0} (r : Result A) → ((a : A) × (r ≡ ok a)) ⊎ ((x : Exception) × (r ≡ err x))
Result-cases (ok a) = inl (a, refl)
Result-cases (err x) = inr (x, refl)

pub ok_injective {ℓ} : {A : Type ℓ} (a b : A) → Result.ok a ≡ ok b → a ≡ b
ok_injective a b h = ap (λ r. elim r [ err _ ↦ a | ok value ↦ value ]) h

pub or_raise-eq-ok {ℓ} :
    {A : Type ℓ} (o : Option A) (e : Exception) (a : A) → or_raise o e ≡ ok a → o ≡ some a
or_raise-eq-ok none e a h = cc
or_raise-eq-ok (some b) e a h = ap some (ok_injective b a h)

pub raise_if-eq-ok : (b : Bool) (e : Exception) → raise_if b e ≡ ok tt → b ≡ false
raise_if-eq-ok true e h = cc
raise_if-eq-ok false e h = refl
