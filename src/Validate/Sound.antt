-- ===== src/Validate/Sound.antt =====
-- What the checks of validate.ts let through is well formed.
use zksoroban.Prelude.{
  ℕ, suc, ◌<◌, ◌≡◌, refl, length, Bool, true, false, List, [], ◌∷◌, arith, leb, ltb, not, sym, ◌↔◌,
}
use zksoroban.Js.Text.{Text, text, text_eq}
use zksoroban.Js.Numeral.{big_int}
use zksoroban.Js.Value.{
  JsValue, string, array, nil, cons, Items, items, is_object, equals_text, property,
}
use zksoroban.Types.Result.{Result, ok, throw_if, >>=-eq-ok, >>-eq-ok, throw_if-eq-ok}
use zksoroban.Validate.{
  indexed, assert_array, assert_proof_field_element, validate_signal, validate_signals_from,
  validate_public_signals, validate_point, validate_proof_input, at,
}
use zksoroban.Validate.Shape.{
  IsCoordinate, decimal, IsSignal, numeral, IsPoint, point, IsPair, pair, AreSignals, done, more,
  IsSignalArray, signals, Coordinates, IsProof,
}
use zksoroban.Validate.Complete.{big_int-of_decimal, validate_proof_input-ok}

true_of_not : (b : Bool) → not b ≡ false → b ≡ true
true_of_not b h = ground arith

below : (m n : ℕ) → leb m n ≡ false → n < m
below m n h = ground arith

IsCoordinate-of_ok :
    (v : JsValue) (field : Text)
    → assert_proof_field_element v field ≡ ok tt
    → (n : ℕ) × IsCoordinate v n
unfolding assert_proof_field_element
IsCoordinate-of_ok (string s) field h =
    let (d, small) = >>-eq-ok _ _ h in
    let dec = true_of_not _ (throw_if-eq-ok _ _ d) in
    let e = sym (big_int-of_decimal s dec) in
    (big_int s, decimal dec e (below _ _ (throw_if-eq-ok _ _ small)))
IsCoordinate-of_ok _ field h = absurd (cc)

IsSignal-of_ok :
    (v : JsValue) (field : Text) → validate_signal v field ≡ ok tt → (n : ℕ) × IsSignal v n
unfolding validate_signal
IsSignal-of_ok (string s) field h =
    let (d, h') = >>-eq-ok _ _ h in
    let (fits, small) = >>-eq-ok _ _ h' in
    (
      big_int s,
      numeral (true_of_not _ (throw_if-eq-ok _ _ d)) refl (below _ _ (throw_if-eq-ok _ _ small)),
    )
IsSignal-of_ok _ field h = absurd (cc)

-- An array of at least two elements, with what `assertArray` returns.
array_of_ok :
    (v : JsValue) (field : Text) {vs : List JsValue}
    → assert_array v field 2 ≡ ok vs
    → (a b : JsValue) × (rest : Items) × (v ≡ array (cons a (cons b rest)))
      × (vs ≡ a ∷ b ∷ items rest)
unfolding assert_array
array_of_ok (array nil) field h = absurd (cc)
array_of_ok (array (cons a nil)) field h = absurd (cc)
array_of_ok (array (cons a (cons b rest))) field {vs} h =
    let long : ltb (suc (suc (length (items rest)))) 2 ≡ false = ground arith in
    (a, b, rest, refl, ground (arith))
array_of_ok _ field h = absurd (cc)

module _ {v a b : JsValue} {vs : List JsValue} {rest : Items}
    (v_is : v ≡ array (cons a (cons b rest))) (vs_is : vs ≡ a ∷ b ∷ items rest) where
  IsPoint-of : {x y : ℕ} → IsCoordinate (at vs 0) x → IsCoordinate (at vs 1) y → IsPoint v x y
  IsPoint-of p q = rw v_is (point (rw vs_is at p) (rw vs_is at q))

  IsPair-of :
      {x_c0 x_c1 y_c0 y_c1 : ℕ}
      → IsPoint (at vs 0) x_c0 x_c1
      → IsPoint (at vs 1) y_c0 y_c1
      → IsPair v x_c0 x_c1 y_c0 y_c1
  IsPair-of p q = rw v_is (pair (rw vs_is at p) (rw vs_is at q))

IsPoint-of_ok :
    (v : JsValue) (name : Text) → validate_point v name ≡ ok tt → (x y : ℕ) × IsPoint v x y
unfolding validate_point
IsPoint-of_ok v name h =
    let (vs, found, h') = >>=-eq-ok _ _ h in
    let (a, b, rest, v_is, vs_is) = array_of_ok v name found in
    let (first, second) = >>-eq-ok _ _ h' in
    let (x, is_x) = IsCoordinate-of_ok (at vs 0) _ first in
    let (y, is_y) = IsCoordinate-of_ok (at vs 1) _ second in (x, y, IsPoint-of v_is vs_is is_x is_y)

IsPair-of_ok :
    (v : JsValue) (vs : List JsValue) (name : Text)
    → assert_array v name 2 ≡ ok vs
    → validate_point (at vs 0) (indexed name 0) ≡ ok tt
    → validate_point (at vs 1) (indexed name 1) ≡ ok tt
    → (x_c0 x_c1 y_c0 y_c1 : ℕ) × IsPair v x_c0 x_c1 y_c0 y_c1
IsPair-of_ok v vs name found first second =
    let (a, b, rest, v_is, vs_is) = array_of_ok v name found in
    let (x_c0, x_c1, is_x) = IsPoint-of_ok (at vs 0) _ first in
    let (y_c0, y_c1, is_y) = IsPoint-of_ok (at vs 1) _ second in
    (x_c0, x_c1, y_c0, y_c1, IsPair-of v_is vs_is is_x is_y)

AreSignals-of_ok :
    (vs : List JsValue) (index : ℕ)
    → validate_signals_from index vs ≡ ok tt
    → (ns : List ℕ) × AreSignals vs ns
unfolding validate_signals_from
AreSignals-of_ok [] index h = ([], done)
AreSignals-of_ok (v ∷ vs) index h =
    let (here, later) = >>-eq-ok _ _ h in
    let (n, is_n) = IsSignal-of_ok v _ here in
    let (ns, are) = AreSignals-of_ok vs (suc index) later in (n ∷ ns, more is_n are)

pub IsSignalArray-of_ok :
    (v : JsValue) → validate_public_signals v ≡ ok tt → (ns : List ℕ) × IsSignalArray v ns
unfolding validate_public_signals
IsSignalArray-of_ok (array vs) h =
    let (ns, are) = AreSignals-of_ok (items vs) 0 h in (ns, signals are)
IsSignalArray-of_ok _ h = absurd (cc)

text_of_equals :
    (r : Result JsValue) (v : JsValue) (t : Text)
    → r ≡ ok v
    → not (equals_text v t) ≡ false
    → (s : Text) × (r ≡ ok (string s)) × (text_eq s t ≡ true)
text_of_equals r (string s) t e h = (s, e, true_of_not _ h)
text_of_equals r _ t e h = absurd (cc)

pub IsProof-of_ok :
    (v s : JsValue)
    → validate_proof_input v s ≡ ok tt
    → (n : Coordinates) × (ns : List ℕ) × IsProof v n × IsSignalArray s ns
unfolding validate_proof_input
IsProof-of_ok v s h =
    let (object_ok, h1) = >>-eq-ok (throw_if (not (is_object v)) _) _ h in
    let (protocol, has_protocol, h2) = >>=-eq-ok (property v (text "protocol")) _ h1 in
    let (protocol_ok, h3) =
      >>-eq-ok (throw_if (not (equals_text protocol (text "groth16"))) _) _ h2 in
    let (pi_a, has_a, h4) = >>=-eq-ok (property v (text "pi_a")) _ h3 in
    let (a_ok, h5) = >>-eq-ok (validate_point pi_a (text "pi_a")) _ h4 in
    let (pi_b, has_b, h6) = >>=-eq-ok (property v (text "pi_b")) _ h5 in
    let (rows, rows_ok, h7) = >>=-eq-ok (assert_array pi_b (text "pi_b") 2) _ h6 in
    let (row_0, h8) = >>-eq-ok (validate_point (at rows 0) _) _ h7 in
    let (row_1, h9) = >>-eq-ok (validate_point (at rows 1) _) _ h8 in
    let (pi_c, has_c, h10) = >>=-eq-ok (property v (text "pi_c")) _ h9 in
    let (c_ok, signals_ok) =
      >>-eq-ok (validate_point pi_c (text "pi_c")) (validate_public_signals s) h10 in
    let (name, named, groth16) =
      text_of_equals _ protocol (text "groth16") has_protocol (throw_if-eq-ok _ _ protocol_ok) in
    let (a_x, a_y, is_a) = IsPoint-of_ok pi_a (text "pi_a") a_ok in
    let (x_c0, x_c1, y_c0, y_c1, is_b) = IsPair-of_ok pi_b rows (text "pi_b") rows_ok row_0 row_1 in
    let (c_x, c_y, is_c) = IsPoint-of_ok pi_c (text "pi_c") c_ok in
    let (ns, are) = IsSignalArray-of_ok s signals_ok in
    (
      record {
        a_x = a_x;
        a_y = a_y;
        b_x_c0 = x_c0;
        b_x_c1 = x_c1;
        b_y_c0 = y_c0;
        b_y_c1 = y_c1;
        c_x = c_x;
        c_y = c_y;
      },
      ns,
      record {
        is_obj = true_of_not _ (throw_if-eq-ok _ _ object_ok);
        name = name;
        protocol = named;
        groth16 = groth16;
        pi_a = pi_a;
        pi_b = pi_b;
        pi_c = pi_c;
        has_a = has_a;
        has_b = has_b;
        has_c = has_c;
        point_a = is_a;
        pair_b = is_b;
        point_c = is_c;
      },
      are,
    )

-- validateProofInput returns exactly on a well-formed Groth16 proof with well-formed public signals.
pub validate_proof_input_iff :
    (v s : JsValue)
    → (validate_proof_input v s ≡ ok tt)
      ↔ ((n : Coordinates) × (ns : List ℕ) × IsProof v n × IsSignalArray s ns)
validate_proof_input_iff v s = (IsProof-of_ok v s, from)
  where
    from :
        (n : Coordinates) × (ns : List ℕ) × IsProof v n × IsSignalArray s ns
        → validate_proof_input v s ≡ ok tt
    from (n, ns, p, q) = validate_proof_input-ok p q
