-- ===== src/Js/Json.antt =====
-- Which text is the JSON of a value, with no space between its parts, for objects, arrays and texts
-- that need no escapes.
use zksoroban.Prelude.{ℕ, ◌≤◌, ◌≢◌, [], ◌∷◌, ◌++◌, All}
use zksoroban.Js.Text.{Text}
use zksoroban.Js.Value.{JsValue, string, array, object, Items, nil, cons, Fields, end, field}

-- Neither a quote nor a backslash nor a control character.
pub record IsPlain (c : ℕ) : Type 0 where
  pub printed : 32 ≤ c
  pub no_quote : c ≢ b'"'
  pub no_escape : c ≢ b'\\'

abbrev pub in_quotes : Text → Text
in_quotes s = b'"' ∷ s ++ b'"' ∷ []

mutual
  pub data IsJson : JsValue → Text → Type 0 where
    text_json : {s : Text} → All IsPlain s → IsJson (string s) (in_quotes s)
    empty_json : IsJson (array nil) (b'[' ∷ b']' ∷ [])
    array_json :
        {v : JsValue} {vs : Items} {t : Text}
        → AreJson v vs t
        → IsJson (array (cons v vs)) (b'[' ∷ t ++ b']' ∷ [])
    object_json :
        {name : Text} {v : JsValue} {fs : Fields} {t : Text}
        → HaveJson name v fs t
        → IsJson (object (field name v fs)) (b'{' ∷ t ++ b'}' ∷ [])

  -- The items of an array that is not empty.
  pub data AreJson : JsValue → Items → Text → Type 0 where
    one : {v : JsValue} {t : Text} → IsJson v t → AreJson v nil t
    more :
        {v w : JsValue} {ws : Items} {t u : Text}
        → IsJson v t
        → AreJson w ws u
        → AreJson v (cons w ws) (t ++ b',' ∷ u)

  -- The fields of an object that is not empty.
  pub data HaveJson : Text → JsValue → Fields → Text → Type 0 where
    last :
        {name t : Text} {v : JsValue}
        → All IsPlain name
        → IsJson v t
        → HaveJson name v end (in_quotes name ++ b':' ∷ t)
    next :
        {name k t u : Text} {v w : JsValue} {fs : Fields}
        → All IsPlain name
        → IsJson v t
        → HaveJson k w fs u
        → HaveJson name v (field k w fs) (in_quotes name ++ b':' ∷ t ++ b',' ∷ u)
