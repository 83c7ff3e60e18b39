-- ===== src/Types/Errors.antt =====
-- Which errors a piece of code can throw, as a predicate on its result with a rule for each
-- statement form.
use zksoroban.Prelude.{Bool, true, false, ◌≡◌, if◌then◌else◌}
use zksoroban.Types.{Thrown}
use zksoroban.Types.Result.{Result, ok, err, ◌>>=◌, ◌>>◌, throw_if, err-injective}

-- Every exception satisfies `P`.
pub data OnlyThrows (P : Thrown → Type 0) {A : Type 0} : Result A → Type 0 where
  returns : {a : A} → OnlyThrows P (ok a)
  throws : {t : Thrown} → P t → OnlyThrows P (err t)

module _ {P : Thrown → Type 0} where
  pub bind_throws :
      {A B : Type 0} {m : Result A} {f : A → Result B}
      → OnlyThrows P m
      → ((a : A) → OnlyThrows P (f a))
      → OnlyThrows P (m >>= f)
  bind_throws (returns {a}) k = k a
  bind_throws (throws h) k = throws h

  pub then_throws :
      {B : Type 0} {m : Result (Unit {0})} {k : Result B}
      → OnlyThrows P m
      → OnlyThrows P k
      → OnlyThrows P (m >> k)
  then_throws returns j = j
  then_throws (throws h) j = throws h

  pub throw_if_throws : (b : Bool) (t : Thrown) → P t → OnlyThrows P (throw_if b t)
  throw_if_throws true t h = throws h
  throw_if_throws false t h = returns

  pub if_throws :
      {A : Type 0} (b : Bool) {r s : Result A}
      → OnlyThrows P r
      → OnlyThrows P s
      → OnlyThrows P (if b then r else s)
  if_throws true h j = h
  if_throws false h j = j

  pub thrown_of_err : {A : Type 0} {r : Result A} {t : Thrown} → OnlyThrows P r → r ≡ err t → P t
  thrown_of_err returns e = absurd (cc)
  thrown_of_err (throws h) e = rw (← err-injective e) h
