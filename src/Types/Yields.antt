-- ===== src/Types/Yields.antt =====
-- Code that returns: a predicate on its result that excludes exceptions, with a rule for a bind.
use zksoroban.Prelude.{◌≡◌, refl}
use zksoroban.Types.Result.{Result, ok, ◌>>=◌}

-- The code returns a value that satisfies `P`.
pub data Yields {A : Type 0} (P : A → Type 0) : Result A → Type 0 where
  yields : (a : A) → P a → Yields P (ok a)

pub bind-Yields :
    {A B : Type 0} {P : A → Type 0} {Q : B → Type 0} {m : Result A} {f : A → Result B}
    → Yields P m
    → ((a : A) → P a → Yields Q (f a))
    → Yields Q (m >>= f)
bind-Yields (yields a h) k = k a h

pub Yields-eq : {A : Type 0} {r : Result A} {a : A} → Yields (λ b. b ≡ a) r → r ≡ ok a
Yields-eq (yields b h) = rw h refl

pub Yields-of_eq : {A : Type 0} {r : Result A} {a : A} → r ≡ ok a → Yields (λ b. b ≡ a) r
Yields-of_eq {r} {a} e = rw e (yields a refl)
