-- ===== src/Types/Result.antt =====
-- Code that may throw, as a value: `throw e` is `err e`, and `do` blocks run statements in order.
use zksoroban.Prelude.{Bool, true, false, ◌≡◌, refl}
use zksoroban.Types.{Thrown}

pub data Result {ℓ} (T : Type ℓ) : Type ℓ where
  ok : (value : T) → Result T
  err : (thrown : Thrown) → Result T

-- `if (test) throw e;`
abbrev pub throw_if : Bool → Thrown → Result (Unit {0})
throw_if true thrown = err thrown
throw_if false thrown = ok tt

-- The statements behind one that has returned `value`; a throw ends the block.
infixl 5 ◌>>=◌ ◌>>◌
abbrev pub ◌>>=◌ {ℓ κ} : {S : Type ℓ} {T : Type κ} → Result S → (S → Result T) → Result T
err thrown >>= next = err thrown
ok value >>= next = next value

abbrev pub ◌>>◌ {ℓ} : {T : Type ℓ} → Result (Unit {0}) → Result T → Result T
check >> next = check >>= λ done. next

-- A block that returns has passed its first statement.
pub >>-eq-ok {ℓ} :
    {T : Type ℓ} (check : Result (Unit {0})) (next : Result T) {out : T}
    → (check >> next) ≡ ok out
    → (check ≡ ok tt) × (next ≡ ok out)
>>-eq-ok (err thrown) next h = cc
>>-eq-ok (ok tt) next h = (refl, h)

pub >>=-eq-ok {ℓ κ} :
    {S : Type ℓ} {T : Type κ} (first : Result S) (next : S → Result T) {out : T}
    → (first >>= next) ≡ ok out
    → (value : S) × (first ≡ ok value) × (next value ≡ ok out)
>>=-eq-ok (err thrown) next h = cc
>>=-eq-ok (ok value) next h = (value, refl, h)

pub throw_if-eq-ok : (b : Bool) (e : Thrown) → throw_if b e ≡ ok tt → b ≡ false
throw_if-eq-ok true e h = cc
throw_if-eq-ok false e h = refl

pub ok-injective {ℓ} : {T : Type ℓ} {a b : T} → ◌≡◌ {A = Result T} (ok a) (ok b) → a ≡ b
ok-injective h = cc

pub err-injective {ℓ} : {T : Type ℓ} {t u : Thrown} → ◌≡◌ {A = Result T} (err t) (err u) → t ≡ u
err-injective h = cc
