-- ===== src/Prelude/Raising.antt =====
-- Exceptions as values. Only the classes that the modelled code tells apart are kept.
use mathlib.Core.Path.{◌≡◌, refl}
use mathlib.Core.Bool.{Bool, true, false}
use r_sandbox.Prelude.Texts.{Text}

pub data Raised : Type 0 where
  value_error type_error os_error : Text → Raised

pub data Result {ℓ} (A : Type ℓ) : Type ℓ where
  ok : A → Result A
  err : Raised → Result A

-- Shut, so that a proof inverts a chain by `>>=-eq-ok` with no argument written.
infixl 5 ◌>>=◌ ◌>>◌
unfoldable pub ◌>>=◌ {ℓ κ} : {A : Type ℓ} {B : Type κ} → Result A → (A → Result B) → Result B
err raised >>= next = err raised
ok value >>= next = next value

abbrev pub ◌>>◌ {ℓ} : {B : Type ℓ} → Result (Unit {0}) → Result B → Result B
check >> rest = check >>= λ _. rest

-- `if test: raise e`
unfoldable pub raise_if : Bool → Raised → Result (Unit {0})
raise_if true e = err e
raise_if false e = ok tt

-- What a successful step and its rest returned.
pub >>=-eq-ok {ℓ κ} :
    {A : Type ℓ} {B : Type κ} (step : Result A) (next : A → Result B) {out : B}
    → (step >>= next) ≡ ok out
    → (value : A) × (step ≡ ok value) × (next value ≡ ok out)
unfolding ◌>>=◌
>>=-eq-ok (err raised) next h = cc
>>=-eq-ok (ok value) next h = (value, refl, h)

pub >>-eq-ok {ℓ} :
    {B : Type ℓ} (m : Result (Unit {0})) (k : Result B) {b : B}
    → (m >> k) ≡ ok b
    → (m ≡ ok tt) × (k ≡ ok b)
unfolding ◌>>=◌
>>-eq-ok (ok tt) k h = (refl, h)
>>-eq-ok (err e) k h = cc

pub raise_if-eq-ok : (b : Bool) (e : Raised) {u : Unit {0}} → raise_if b e ≡ ok u → b ≡ false
unfolding raise_if
raise_if-eq-ok true e h = cc
raise_if-eq-ok false e h = refl

pub ok-injective {ℓ} : {A : Type ℓ} (a b : A) → ok a ≡ ok b → a ≡ b
ok-injective a b h = cc

-- The same for use in a chain, where the parts become variables of the rest of the proof.
pub invert {ℓ κ μ} :
    {A : Type ℓ} {B : Type κ} {m : Result A} {f : A → Result B} {b : B} {C : Type μ}
    → (m >>= f) ≡ ok b
    → ((a : A) → m ≡ ok a → f a ≡ ok b → C)
    → C
invert {m} {f} h k = let (a, p, q) = >>=-eq-ok m f h in k a p q

pub invert_guard {ℓ μ} :
    (test : Bool) (e : Raised) {B : Type ℓ} {m : Result B} {b : B} {C : Type μ}
    → (raise_if test e >> m) ≡ ok b
    → (test ≡ false → m ≡ ok b → C)
    → C
invert_guard test e {m} h k =
    let (p, q) = >>-eq-ok (raise_if test e) m h in k (raise_if-eq-ok test e p) q
