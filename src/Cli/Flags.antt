-- ===== src/Cli/Flags.antt =====
-- The reading of flags in sdk/src/cli.ts.
use zksoroban.Prelude.{
  ℕ, suc, ◌+◌, ◌≡◌, ◌≢◌, ◌↔◌, refl, ap, sym, ◌∙◌, List, [], ◌∷◌, ◌++◌, some, none, Bool-cases, inl,
  inr, true, false, arith, length, get_elem?, All, ◌==◌, length-append, Option-cases,
}
use zksoroban.Js.Text.{Text, text_eq, text_eq_refl, text_eq_sound, text_eq-of_neq, neq-of_text_eq}
use zksoroban.Cli.{index_of, get_flag}

-- The arguments before and behind the first place of the name.
record IsFirst (args : List Text) (name : Text) (before after : List Text) : Type 0 where
  parts : args ≡ before ++ name ∷ after
  unseen : All (λ arg. arg ≢ name) before

index_of-some :
    (args : List Text) (name : Text) (i : ℕ)
    → index_of args name ≡ some i
    → (before after : List Text) × IsFirst args name before after × (length before ≡ i)
index_of-some [] name i h = absurd (unfold index_of in (cc))
index_of-some (arg ∷ args) name i h = elim (Bool-cases (text_eq arg name)) [
  | inl e ↦
      let here : some 0 ≡ some i = unfold index_of in (rw e at h) in
      ([], args, record { parts = ap (λ a. a ∷ args) (text_eq_sound arg name e); unseen = tt }, cc)
  | inr e ↦ elim (Option-cases (index_of args name)) [
    | inl absent ↦
        let gone : none ≡ some i = unfold index_of in (rw (e, absent) at h) in absurd (cc)
    | inr (j, found) ↦
        let next : some (suc j) ≡ some i = unfold index_of in (rw (e, found) at h) in
        let (before, after, first, size) = index_of-some args name j found in
        (
          arg ∷ before,
          after,
          record {
            parts = ap (λ more. arg ∷ more) first.parts;
            unseen = (neq-of_text_eq arg name e, first.unseen);
          },
          ap suc size ∙ cc,
        )
  ]
]

index_of-first :
    (before after : List Text) (name : Text)
    → All (λ arg. arg ≢ name) before
    → index_of (before ++ name ∷ after) name ≡ some (length before)
unfolding index_of
index_of-first [] after name unseen = rw (text_eq_refl name) refl
index_of-first (arg ∷ before) after name (other, unseen) =
    rw (text_eq-of_neq arg name other, index_of-first before after name unseen) refl

get_elem?-append :
    {A : Type 0} (xs ys : List A) (i : ℕ) → get_elem? (xs ++ ys) (length xs + i) ≡ get_elem? ys i
get_elem?-append [] ys i = ap (get_elem? ys) (omega arith)
get_elem?-append (x ∷ xs) ys i =
    let shift : suc (length xs) + i ≡ suc (length xs + i) = omega arith in
    ap (get_elem? (x ∷ (xs ++ ys))) shift ∙ get_elem?-append xs ys i

size_behind :
    (before after : List Text) (name : Text)
    → length (before ++ name ∷ after) ≡ suc (length before + length after)
size_behind before after name = omega (arith, length-append before (name ∷ after))

second_of :
    (before after : List Text) (name : Text)
    → get_elem? (before ++ name ∷ after) (suc (length before)) ≡ get_elem? after 0
second_of before after name =
    ap (get_elem? (before ++ name ∷ after)) (omega arith) ∙ get_elem?-append before (name ∷ after) 1

-- The flag's value is what stands behind its first place.
get_flag-first :
    (before after : List Text) (name : Text)
    → All (λ arg. arg ≢ name) before
    → get_flag (before ++ name ∷ after) name ≡ get_elem? after 0
unfolding get_flag
get_flag-first before [] name unseen =
    let at_end : (suc (length before) == length (before ++ name ∷ [])) ≡ true =
      let e = size_behind before [] name in ground arith in
    rw (get_flag, index_of-first before [] name unseen, at_end) refl
get_flag-first before (v ∷ after) name unseen =
    let inside : (suc (length before) == length (before ++ name ∷ v ∷ after)) ≡ false =
      let e = size_behind before (v ∷ after) name in ground arith in
    rw (get_flag, index_of-first before (v ∷ after) name unseen, inside)
      (second_of before (v ∷ after) name)

-- getFlag returns a value exactly if the value stands right behind the first argument that is the
-- flag's name.
pub get_flag_iff :
    (args : List Text) (name value : Text)
    → (get_flag args name ≡ some value) ↔ (
        (before after : List Text) × (args ≡ before ++ name ∷ value ∷ after)
        × All (λ arg. arg ≢ name) before)
unfolding get_flag
get_flag_iff args name value = (found, read)
  where
    found :
        get_flag args name ≡ some value
        → (before after : List Text) × (args ≡ before ++ name ∷ value ∷ after)
          × All (λ arg. arg ≢ name) before
    found h = elim (Option-cases (index_of args name)) [
      | inl absent ↦
          let gone : get_flag args name ≡ none = rw (get_flag, absent) refl in absurd (cc)
      | inr (i, e) ↦
          let (before, after, first, size) = index_of-some args name i e in
          behind before after first (
            sym (get_flag-first before after name first.unseen)
            ∙ ap (λ xs. get_flag xs name) (sym first.parts)
            ∙ h)
    ]
      where
        behind :
            (before after : List Text)
            → IsFirst args name before after
            → get_elem? after 0 ≡ some value
            → (before after : List Text) × (args ≡ before ++ name ∷ value ∷ after)
              × All (λ arg. arg ≢ name) before
        behind before [] first e = absurd (cc)
        behind before (v ∷ after) first e =
            let same : v ≡ value = cc in (before, after, rw (← same) first.parts, first.unseen)

    read :
        ((before after : List Text) × (args ≡ before ++ name ∷ value ∷ after)
          × All (λ arg. arg ≢ name) before)
        → get_flag args name ≡ some value
    read (before, after, e, unseen) = rw e (get_flag-first before (value ∷ after) name unseen)
