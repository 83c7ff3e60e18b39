-- ===== src/Golden/Diff.antt =====
-- What `diff` of sdk/scripts/golden.ts shows.
use zksoroban.Prelude.{
  ℕ, zero, suc, ◌≡◌, ◌↔◌, inl, inr, refl, ap, List, [], ◌∷◌, ◌++◌, some, none, Bool-cases,
  get_elem?, ◌==◌, All, append_assoc, append-nil, false,
}
use zksoroban.Js.Text.{Text, text, text_eq, text_eq_refl, text_eq_sound, join}
use zksoroban.Cli.{newline}
use zksoroban.Golden.Lines.{line_diff, diff_lines, diff, split_lines, onto_first}

-- A line that is missing is empty.
abbrev pub line_at : List Text → ℕ → Text
line_at lines i = elim (get_elem? lines i) [ none ↦ [] | some line ↦ line ]

-- Nothing, or lines of which the first is not empty.
data Shown : List Text → Type 0 where
  nothing : Shown []
  something : {c : ℕ} {s : Text} {rest : List Text} → Shown ((c ∷ s) ∷ rest)

Shown-append : {xs ys : List Text} → Shown xs → Shown ys → Shown (xs ++ ys)
Shown-append nothing h = h
Shown-append something h = something

line_diff-Shown : (i : ℕ) (e a : Text) → Shown (line_diff i e a)
unfolding line_diff text
line_diff-Shown i e a = elim (Bool-cases (text_eq e a)) [
  | inl same ↦ rw same nothing
  | inr other ↦ rw other something
]

diff_lines-Shown : (i : ℕ) (es actual : List Text) → Shown (diff_lines i es actual)
unfolding diff_lines
diff_lines-Shown i [] [] = nothing
diff_lines-Shown i (e ∷ es) [] =
    Shown-append (line_diff-Shown i e []) (diff_lines-Shown (suc i) es [])
diff_lines-Shown i [] (a ∷ actual) =
    Shown-append (line_diff-Shown i [] a) (diff_lines-Shown (suc i) [] actual)
diff_lines-Shown i (e ∷ es) (a ∷ actual) =
    Shown-append (line_diff-Shown i e a) (diff_lines-Shown (suc i) es actual)

join-empty : {xs : List Text} → Shown xs → join newline xs ≡ [] → xs ≡ []
unfolding join
join-empty nothing h = refl
join-empty (something {rest = []}) h = absurd (cc)
join-empty (something {rest = t ∷ rest}) h = absurd (cc)

line_diff-empty : (i : ℕ) (e a : Text) → line_diff i e a ≡ [] → e ≡ a
unfolding line_diff
line_diff-empty i e a h = elim (Bool-cases (text_eq e a)) [
  | inl same ↦ text_eq_sound e a same
  | inr other ↦ absurd (let shown = rw other at h in cc)
]

line_diff-same : (i : ℕ) (e : Text) → line_diff i e e ≡ []
unfolding line_diff
line_diff-same i e = rw (text_eq_refl e) refl

append-empty : (xs ys : List Text) → xs ++ ys ≡ [] → (xs ≡ []) × (ys ≡ [])
append-empty [] ys h = (refl, h)
append-empty (x ∷ xs) ys h = absurd (cc)

-- The lines agree at every index.
abbrev pub SameLines : List Text → List Text → Type 0
SameLines es actual = (i : ℕ) → line_at es i ≡ line_at actual i

diff_lines-empty :
    (i : ℕ) (es actual : List Text) → diff_lines i es actual ≡ [] → SameLines es actual
unfolding diff_lines
diff_lines-empty i [] [] h k = refl
diff_lines-empty i (e ∷ es) [] h zero =
    line_diff-empty i e [] (append-empty (line_diff i e []) _ h).0
diff_lines-empty i (e ∷ es) [] h (suc k) =
    diff_lines-empty (suc i) es [] (append-empty (line_diff i e []) _ h).1 k
diff_lines-empty i [] (a ∷ actual) h zero =
    line_diff-empty i [] a (append-empty (line_diff i [] a) _ h).0
diff_lines-empty i [] (a ∷ actual) h (suc k) =
    diff_lines-empty (suc i) [] actual (append-empty (line_diff i [] a) _ h).1 k
diff_lines-empty i (e ∷ es) (a ∷ actual) h zero =
    line_diff-empty i e a (append-empty (line_diff i e a) _ h).0
diff_lines-empty i (e ∷ es) (a ∷ actual) h (suc k) =
    diff_lines-empty (suc i) es actual (append-empty (line_diff i e a) _ h).1 k

diff_lines-same :
    (i : ℕ) (es actual : List Text) → SameLines es actual → diff_lines i es actual ≡ []
unfolding diff_lines
diff_lines-same i [] [] h = refl
diff_lines-same i (e ∷ es) [] h =
    rw (h 0, line_diff-same i [], diff_lines-same (suc i) es [] (λ k. h (suc k))) refl
diff_lines-same i [] (a ∷ actual) h =
    rw (← h 0, line_diff-same i [], diff_lines-same (suc i) [] actual (λ k. h (suc k))) refl
diff_lines-same i (e ∷ es) (a ∷ actual) h =
    rw (h 0, line_diff-same i a, diff_lines-same (suc i) es actual (λ k. h (suc k))) refl

-- diff is empty exactly if the two texts have the same lines, where a missing line counts as empty.
pub diff_iff :
    (expected actual : Text)
    → (diff expected actual ≡ []) ↔ SameLines (split_lines expected) (split_lines actual)
unfolding diff join
diff_iff expected actual = (
  λ h.
      diff_lines-empty 0 _ _
        (join-empty (diff_lines-Shown 0 (split_lines expected) (split_lines actual)) h),
  λ h. ap (join newline) (diff_lines-same 0 _ _ h),
)

line_at-onto_first :
    (c : ℕ) (xs ys : List Text) → SameLines xs ys → SameLines (onto_first c xs) (onto_first c ys)
line_at-onto_first c [] [] h i = refl
line_at-onto_first c [] (y ∷ ys) h zero = ap (λ l. c ∷ l) (h 0)
line_at-onto_first c [] (y ∷ ys) h (suc i) = h (suc i)
line_at-onto_first c (x ∷ xs) [] h zero = ap (λ l. c ∷ l) (h 0)
line_at-onto_first c (x ∷ xs) [] h (suc i) = h (suc i)
line_at-onto_first c (x ∷ xs) (y ∷ ys) h zero = ap (λ l. c ∷ l) (h 0)
line_at-onto_first c (x ∷ xs) (y ∷ ys) h (suc i) = h (suc i)

same_behind : (xs ys : List Text) → SameLines xs ys → SameLines ([] ∷ xs) ([] ∷ ys)
same_behind xs ys h zero = refl
same_behind xs ys h (suc i) = h i

trailing : (s : Text) → SameLines (split_lines s) (split_lines (s ++ newline))
unfolding split_lines
trailing [] zero = refl
trailing [] (suc zero) = refl
trailing [] (suc (suc i)) = refl
trailing (c ∷ s) i = elim (Bool-cases (c == 10)) [
  | inl e ↦ rw e (same_behind _ _ (trailing s) i)
  | inr e ↦ rw e (line_at-onto_first c _ _ (trailing s) i)
]

-- A newline more at the end does not show.
pub diff-trailing_newline : (s : Text) → diff s (s ++ newline) ≡ []
diff-trailing_newline s = (diff_iff s (s ++ newline)).1 (trailing s)

-- A line has no newline.
abbrev pub IsLine : Text → Type 0
IsLine = All (λ c. (c == 10) ≡ false)

split-in_front :
    (l s : Text) (more : List Text)
    → IsLine l
    → split_lines s ≡ [] ∷ more
    → split_lines (l ++ s) ≡ l ∷ more
unfolding split_lines
split-in_front [] s more h e = e
split-in_front (c ∷ l) s more (h, hs) e = rw (h, split-in_front l s more hs e, split_lines) refl

split-join :
    (l : Text) (ls : List Text) → All IsLine (l ∷ ls) → split_lines (join newline (l ∷ ls)) ≡ l ∷ ls
unfolding join split_lines
split-join l [] (h, hs) =
    let whole = split-in_front l [] [] h refl in rw (rw append-nil at whole) refl
split-join l (m ∷ ms) (h, hs) = rw (append_assoc l newline (join newline (m ∷ ms))) (
    split-in_front l (10 ∷ join newline (m ∷ ms)) (m ∷ ms) h
      (ap (λ rest. [] ∷ rest) (split-join m ms hs)))

-- diff of two texts that are made of lines is empty exactly if the lines agree at every index,
-- where a missing line counts as empty.
pub diff-join :
    (e a : Text) (es actual : List Text)
    → All IsLine (e ∷ es)
    → All IsLine (a ∷ actual)
    → (diff (join newline (e ∷ es)) (join newline (a ∷ actual)) ≡ [])
      ↔ SameLines (e ∷ es) (a ∷ actual)
diff-join e a es actual h k =
    let lines = diff_iff (join newline (e ∷ es)) (join newline (a ∷ actual)) in
    rw (split-join e es h, split-join a actual k) at lines
