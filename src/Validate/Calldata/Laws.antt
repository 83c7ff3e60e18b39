-- ===== src/Validate/Calldata/Laws.antt =====
-- Which calldata validateCalldata accepts.
use zksoroban.Prelude.{ℕ, suc, ◌≡◌, refl, true, List, [], ◌∷◌, arith, ◌==◌, length, map, All, ◌↔◌}
use zksoroban.Js.Text.{Text}
use zksoroban.Js.Bytes.{Bytes}
use zksoroban.Types.Result.{ok, >>-eq-ok}
use zksoroban.Validate.Calldata.{
  Slot, buffer, other, Inputs, array_of, no_array, Calldata, calldata, no_object,
  assert_buffer_length, assert_inputs_from, assert_inputs, validate_calldata,
}

-- Buffers of 64, 128 and 64 bytes, and an array of Buffers of 32 bytes.
pub data HasSizes : Calldata → Type 0 where
  sized :
      {a b c : Bytes} {inputs : List Slot} (words : List Bytes)
      → length a ≡ 64
      → length b ≡ 128
      → length c ≡ 64
      → inputs ≡ map buffer words
      → All (λ w. length w ≡ 32) words
      → HasSizes (calldata (buffer a) (buffer b) (buffer c) (array_of inputs))

assert_buffer_length-ok :
    (b : Bytes) (n : ℕ) (field : Text)
    → length b ≡ n
    → assert_buffer_length (buffer b) n field ≡ ok tt
unfolding assert_buffer_length
assert_buffer_length-ok b n field h = let e : (length b == n) ≡ true = ground arith in rw e

buffer_of_ok :
    (s : Slot) (n : ℕ) (field : Text)
    → assert_buffer_length s n field ≡ ok tt
    → (b : Bytes) × (s ≡ buffer b) × (length b ≡ n)
unfolding assert_buffer_length
buffer_of_ok (other v) n field h = absurd (cc)
buffer_of_ok (buffer b) n field h = (b, refl, ground arith)

assert_inputs_from-ok :
    (words : List Bytes) (index : ℕ)
    → All (λ w. length w ≡ 32) words
    → assert_inputs_from index (map buffer words) ≡ ok tt
unfolding assert_inputs_from
assert_inputs_from-ok [] index h = refl
assert_inputs_from-ok (w ∷ words) index (e, h) =
    rw (assert_buffer_length-ok w 32 _ e) (assert_inputs_from-ok words (suc index) h)

words_of_ok :
    (inputs : List Slot) (index : ℕ)
    → assert_inputs_from index inputs ≡ ok tt
    → (words : List Bytes) × (inputs ≡ map buffer words) × All (λ w. length w ≡ 32) words
unfolding assert_inputs_from
words_of_ok [] index h = ([], refl, tt)
words_of_ok (s ∷ inputs) index h =
    let (here, later) = >>-eq-ok (assert_buffer_length s 32 _) _ h in
    let (b, is_b, size) = buffer_of_ok s 32 _ here in
    let (words, are, sizes) = words_of_ok inputs (suc index) later in
    (b ∷ words, rw (is_b, are), (size, sizes))

complete : {c : Calldata} → HasSizes c → validate_calldata c ≡ ok tt
unfolding validate_calldata assert_inputs
complete (sized words a b c e h) =
    rw
      (
        assert_buffer_length-ok _ _ _ a,
        assert_buffer_length-ok _ _ _ b,
        assert_buffer_length-ok _ _ _ c,
        e,
      )
      (assert_inputs_from-ok words 0 h)

inputs_of_ok :
    (inputs : Inputs)
    → assert_inputs inputs ≡ ok tt
    → (slots : List Slot) × (words : List Bytes) × (inputs ≡ array_of slots)
      × (slots ≡ map buffer words)
      × All (λ w. length w ≡ 32) words
unfolding assert_inputs
inputs_of_ok (no_array v) h = absurd (cc)
inputs_of_ok (array_of slots) h =
    let (words, are, sizes) = words_of_ok slots 0 h in (slots, words, refl, are, sizes)

HasSizes-of :
    {a b c : Slot} {inputs : Inputs} {x y z : Bytes} {slots : List Slot} (words : List Bytes)
    → a ≡ buffer x
    → b ≡ buffer y
    → c ≡ buffer z
    → inputs ≡ array_of slots
    → HasSizes (calldata (buffer x) (buffer y) (buffer z) (array_of slots))
    → HasSizes (calldata a b c inputs)
HasSizes-of words p q r s h = rw (p, q, r, s) h

sound : (c : Calldata) → validate_calldata c ≡ ok tt → HasSizes c
unfolding validate_calldata
sound (no_object v) h = absurd (cc)
sound (calldata a b c inputs) h =
    let (a_ok, h1) = >>-eq-ok (assert_buffer_length a 64 _) _ h in
    let (b_ok, h2) = >>-eq-ok (assert_buffer_length b 128 _) _ h1 in
    let (c_ok, inputs_ok) = >>-eq-ok (assert_buffer_length c 64 _) (assert_inputs inputs) h2 in
    let (x, is_x, size_x) = buffer_of_ok a 64 _ a_ok in
    let (y, is_y, size_y) = buffer_of_ok b 128 _ b_ok in
    let (z, is_z, size_z) = buffer_of_ok c 64 _ c_ok in
    let (slots, words, are_slots, are_words, sizes) = inputs_of_ok inputs inputs_ok in
    HasSizes-of words is_x is_y is_z are_slots (sized words size_x size_y size_z are_words sizes)

-- validateCalldata accepts exactly the objects whose Buffers have the sizes of the layout.
pub validate_calldata_iff : (c : Calldata) → (validate_calldata c ≡ ok tt) ↔ HasSizes c
validate_calldata_iff c = (sound c, complete)
