-- ===== src/Js/Value.antt =====
-- Values whose type the code finds out at run time (`unknown`, and what JSON.parse returns).
-- A number is an integer of fewer than 22 digits or carries its String() text alone: fractions,
-- NaN, the infinities and larger integers, which no check of the sources tells apart. Buffers are
-- no such values (Validate.Calldata), and objects have no methods of their own.
use zksoroban.Prelude.{
  ℕ, suc, Bool, true, false, List, [], ◌∷◌, ◌++◌, ltb, if◌then◌else◌, length, get_elem?, Option,
  none, some, not, ◌==◌,
}
use zksoroban.Prelude.Int.{ℤ, pos, negsuc}
use zksoroban.Js.Text.{Text, text, text_eq, join, is_digit}
use zksoroban.Js.Numeral.{to_string, spelled}
use zksoroban.Js.BigInt.{to_bigint, trim}
use zksoroban.Types.{native_error}
use zksoroban.Types.Result.{Result, ok, err}

mutual
  pub data JsValue : Type 0 where
    undefined null : JsValue
    boolean : Bool → JsValue
    integer : ℤ → JsValue
    other_number : Text → JsValue
    bigint : ℤ → JsValue
    string : Text → JsValue
    array : Items → JsValue
    object : Fields → JsValue

  pub data Items : Type 0 where
    nil : Items
    cons : JsValue → Items → Items

  pub data Fields : Type 0 where
    end : Fields
    field : Text → JsValue → Fields → Fields

abbrev pub items : Items → List JsValue
items nil = []
items (cons v vs) = v ∷ items vs

abbrev pub of_list : List JsValue → Items
of_list [] = nil
of_list (v ∷ vs) = cons v (of_list vs)

-- `typeof v`
unfoldable pub type_of : JsValue → Text
unfolding text
type_of undefined = text "undefined"
type_of (boolean b) = text "boolean"
type_of (integer z) = text "number"
type_of (other_number s) = text "number"
type_of (bigint z) = text "bigint"
type_of (string s) = text "string"
type_of _ = text "object"

-- `v !== null && typeof v === "object"`
abbrev pub is_object : JsValue → Bool
is_object (array vs) = true
is_object (object fs) = true
is_object _ = false

-- `v === s` against a string.
abbrev pub equals_text : JsValue → Text → Bool
equals_text (string s) t = text_eq s t
equals_text _ t = false

unfoldable pub field_of : Fields → Text → JsValue
field_of end name = undefined
field_of (field k v fs) name = if text_eq k name then v else field_of fs name

-- `v.name` for a name that no built-in object has; on undefined and null it throws.
unfoldable pub property : JsValue → Text → Result JsValue
unfolding text field_of
property undefined name =
    err (native_error (text "Cannot read properties of undefined (reading '" ++ name ++ text "')"))
property null name =
    err (native_error (text "Cannot read properties of null (reading '" ++ name ++ text "')"))
property (object fs) name = ok (field_of fs name)
property _ name = ok undefined

abbrev pub or_undefined : Option JsValue → JsValue
or_undefined none = undefined
or_undefined (some v) = v

-- `v[i]`
unfoldable pub element : JsValue → ℕ → Result JsValue
unfolding text field_of to_string
element undefined i = err (
    native_error
      (text "Cannot read properties of undefined (reading '" ++ to_string 10 i ++ text "')"))
element null i =
    err (
      native_error
        (text "Cannot read properties of null (reading '" ++ to_string 10 i ++ text "')"))
element (array vs) i = ok (or_undefined (get_elem? (items vs) i))
element (string s) i = elim (get_elem? s i) [ none ↦ ok undefined | some c ↦ ok (string (c ∷ [])) ]
element (object fs) i = ok (field_of fs (to_string 10 i))
element _ i = ok undefined

abbrev pub is_array : JsValue → Bool
is_array (array vs) = true
is_array _ = false

-- The decimal text of a bigint or an integer number.
unfoldable pub integer_text : ℤ → Text
unfolding to_string
integer_text (pos n) = to_string 10 n
integer_text (negsuc n) = b'-' ∷ to_string 10 (suc n)

-- `String(v)`; inside an array undefined and null are empty.
unfoldable mutual
  unfolding text integer_text join

  pub string_of : JsValue → Text
  string_of undefined = text "undefined"
  string_of null = text "null"
  string_of (boolean true) = text "true"
  string_of (boolean false) = text "false"
  string_of (integer z) = integer_text z
  string_of (other_number s) = s
  string_of (bigint z) = integer_text z
  string_of (string s) = s
  string_of (array vs) = join (text ",") (item_texts vs)
  string_of (object fs) = text "[object Object]"

  pub item_text : JsValue → Text
  item_text undefined = []
  item_text null = []
  item_text (array vs) = join (text ",") (item_texts vs)
  item_text (boolean true) = text "true"
  item_text (boolean false) = text "false"
  item_text (integer z) = integer_text z
  item_text (other_number s) = s
  item_text (bigint z) = integer_text z
  item_text (string s) = s
  item_text (object fs) = text "[object Object]"

  pub item_texts : Items → List Text
  item_texts nil = []
  item_texts (cons v vs) = item_text v ∷ item_texts vs

abbrev int_lt : ℤ → ℕ → Bool
int_lt (pos k) n = ltb k n
int_lt (negsuc k) n = true

-- The value of the digits in front.
abbrev whole_part : ℕ → Text → ℕ
whole_part acc [] = acc
whole_part acc (c ∷ s) =
    let more = whole_part (spelled 10 acc (c ∷ [])) s in if is_digit c then more else acc

-- The sign of the exponent, if there is one.
abbrev exponent_sign : Text → Option ℕ
exponent_sign [] = none
exponent_sign (c ∷ s) =
    let rest = exponent_sign s in
    if c == b'e' then (elim s [ [] ↦ none | d ∷ more ↦ some d ]) else rest

-- `x < n` for the number that `String(x)` spells as a fraction, with an exponent, as NaN or as an
-- infinity: against NaN the test is false.
unfoldable pub number_text_lt : Text → ℕ → Bool
number_text_lt [] n = false
number_text_lt (c ∷ s) n =
    if c == b'-'
    then true
    else if is_digit c
    then (elim (exponent_sign s) [ none ↦ ltb (whole_part 0 (c ∷ s)) n | some sign ↦ sign == b'-' ])
    else false

-- `v < n` for a number n above 0. A text is turned into a number, as far as BigInt reads it or
-- String() spells one, and an array is turned into text first; an object is NaN.
unfoldable pub less_than : JsValue → ℕ → Bool
less_than null n = true
less_than (boolean true) n = ltb 1 n
less_than (boolean false) n = true
less_than (integer z) n = int_lt z n
less_than (bigint z) n = int_lt z n
less_than (other_number s) n = number_text_lt s n
less_than (string s) n = elim (to_bigint s) [
  | ok z ↦ int_lt z n
  | err t ↦ number_text_lt (trim s) n
]
less_than (array vs) n = elim (to_bigint (string_of (array vs))) [
  | ok z ↦ int_lt z n
  | err t ↦ number_text_lt (trim (string_of (array vs))) n
]
less_than _ n = false

-- `v.length < n` for a number n above 0: an array and a string have a length, an object a field of
-- that name, and against undefined the test is false.
unfoldable pub length_lt : JsValue → ℕ → Result Bool
unfolding property
length_lt undefined n =
    err (native_error (text "Cannot read properties of undefined (reading 'length')"))
length_lt null n = err (native_error (text "Cannot read properties of null (reading 'length')"))
length_lt (array vs) n = ok (ltb (length (items vs)) n)
length_lt (string s) n = ok (ltb (length s) n)
length_lt (object fs) n = ok (less_than (field_of fs (text "length")) n)
length_lt _ n = ok false

-- `!v`
unfoldable pub is_falsy : JsValue → Bool
is_falsy undefined = true
is_falsy null = true
is_falsy (boolean b) = not b
is_falsy (integer (pos n)) = n == 0
is_falsy (bigint (pos n)) = n == 0
is_falsy (other_number s) = text_eq s (text "NaN")
is_falsy (string []) = true
is_falsy _ = false
