-- ===== src/Cli/Printed.antt =====
-- The JSON of a verifying key that format-vk prints.
use zksoroban.Prelude.{
  ℕ, ◌*◌, ◌≡◌, refl, true, List, [], ◌∷◌, ◌++◌, All, append_assoc, arith, map, length, and_parts,
  Bool, leb, ◌==◌, not, ◌&&◌,
}
use zksoroban.Js.Text.{Text, text, join, is_hex_digit, is_digit, all_of}
use zksoroban.Js.Bytes.{Bytes, to_hex, from_hex}
use zksoroban.Js.Bytes.Hex.{AllBytes, from_hex-to_hex, to_hex-hex}
use zksoroban.Js.Value.{string, array, object, of_list, field, end}
use zksoroban.Js.Json.{
  IsPlain, IsJson, text_json, empty_json, array_json, object_json, AreJson, one, more, last, next,
  in_quotes,
}
use zksoroban.Types.{RegistryVerifyingKey}
use zksoroban.Cli.{vk_json}

-- Two hex digits for each byte, that read back as the bytes.
pub record IsHex (bytes : Bytes) (s : Text) : Type 0 where
  pub digits : all_of is_hex_digit s ≡ true
  pub size : length s ≡ 2 * length bytes
  pub read : from_hex s ≡ bytes

pub data AreHex : List Bytes → List Text → Type 0 where
  none_left : AreHex [] []
  then_hex :
      {bytes : Bytes} {s : Text} {rest : List Bytes} {ss : List Text}
      → IsHex bytes s
      → AreHex rest ss
      → AreHex (bytes ∷ rest) (s ∷ ss)

-- The JSON of an object whose fields alpha, beta, gamma, delta and ic, in this order, are the key's
-- bytes in hex, and the list of these.
pub record IsKeyJson (key : RegistryVerifyingKey) (json : Text) : Type 0 where
  pub alpha : Text
  pub beta : Text
  pub gamma : Text
  pub delta : Text
  pub ic : List Text
  pub alpha_hex : IsHex key.alpha alpha
  pub beta_hex : IsHex key.beta beta
  pub gamma_hex : IsHex key.gamma gamma
  pub delta_hex : IsHex key.delta delta
  pub ic_hex : AreHex key.ic ic
  pub is_json :
      IsJson
        (object (
          field (text "alpha") (string alpha) (
            field (text "beta") (string beta) (
              field (text "gamma") (string gamma) (
                field
                  (text "delta")
                  (string delta)
                  (field (text "ic") (array (of_list (map string ic))) end))))))
        json

length-to_hex : (bytes : Bytes) → length (to_hex bytes) ≡ 2 * length bytes
unfolding to_hex
length-to_hex [] = refl
length-to_hex (b ∷ bytes) = omega (arith, length-to_hex bytes)

to_hex-IsHex : (bytes : Bytes) → AllBytes bytes → IsHex bytes (to_hex bytes)
to_hex-IsHex bytes h = record {
  digits = to_hex-hex bytes h;
  size = length-to_hex bytes;
  read = from_hex-to_hex bytes h;
}

IsPlain-digit : (c : ℕ) → is_hex_digit c ≡ true → IsPlain c
unfolding is_hex_digit is_digit
IsPlain-digit c h = record {
  printed = ground arith;
  no_quote = λ e. ground arith;
  no_escape = λ e. ground arith;
}

hex-IsPlain : (s : Text) → all_of is_hex_digit s ≡ true → All IsPlain s
unfolding all_of
hex-IsPlain [] h = tt
hex-IsPlain (c ∷ s) h =
    let (d, rest) = and_parts (is_hex_digit c) (all_of is_hex_digit s) h in
    (IsPlain-digit c d, hex-IsPlain s rest)

hex-IsJson :
    (bytes : Bytes) → AllBytes bytes → IsJson (string (to_hex bytes)) (in_quotes (to_hex bytes))
hex-IsJson bytes h = text_json (hex-IsPlain (to_hex bytes) (to_hex-hex bytes h))

points-AreHex : (ps : List Bytes) → All AllBytes ps → AreHex ps (map to_hex ps)
points-AreHex [] h = none_left
points-AreHex (p ∷ ps) (h, hs) = then_hex (to_hex-IsHex p h) (points-AreHex ps hs)

-- The points, separated by commas.
abbrev points_text : List Bytes → Text
points_text ps = join (text ",") (map (λ point. in_quotes (to_hex point)) ps)

points-AreJson :
    (p : Bytes) (ps : List Bytes)
    → All AllBytes (p ∷ ps)
    → AreJson (string (to_hex p)) (of_list (map string (map to_hex ps))) (points_text (p ∷ ps))
unfolding join text
points-AreJson p [] (h, hs) = one (hex-IsJson p h)
points-AreJson p (q ∷ ps) (h, hs) =
    rw (append_assoc (in_quotes (to_hex p)) (b',' ∷ []) (points_text (q ∷ ps)))
      (more (hex-IsJson p h) (points-AreJson q ps hs))

points-IsJson :
    (ps : List Bytes)
    → All AllBytes ps
    → IsJson (array (of_list (map string (map to_hex ps)))) (b'[' ∷ points_text ps ++ b']' ∷ [])
unfolding join
points-IsJson [] h = empty_json
points-IsJson (p ∷ ps) h = array_json (points-AreJson p ps h)

-- The bytes of a key are bytes.
pub record HasBytes (key : RegistryVerifyingKey) : Type 0 where
  pub alpha : AllBytes key.alpha
  pub beta : AllBytes key.beta
  pub gamma : AllBytes key.gamma
  pub delta : AllBytes key.delta
  pub ic : All AllBytes key.ic

abbrev is_plain : ℕ → Bool
is_plain c = leb 32 c && not (c == b'"') && not (c == b'\\')

IsPlain-char : (c : ℕ) → is_plain c ≡ true → IsPlain c
IsPlain-char c h = record {
  printed = ground arith;
  no_quote = λ e. ground arith;
  no_escape = λ e. ground arith;
}

IsPlain-name : (s : Text) → all_of is_plain s ≡ true → All IsPlain s
unfolding all_of
IsPlain-name [] h = tt
IsPlain-name (c ∷ s) h =
    let (d, rest) = and_parts (is_plain c) (all_of is_plain s) h in
    (IsPlain-char c d, IsPlain-name s rest)

-- The text of the five fields, one inside the other.
abbrev fields_text : Text → Text → Text → Text → Text → Text
fields_text a b g d points =
    in_quotes (text "alpha")
    ++ b':' ∷ a
    ++ b','
      ∷ (in_quotes (text "beta")
          ++ b':' ∷ b
          ++ b','
            ∷ (in_quotes (text "gamma")
                ++ b':' ∷ g
                ++ b','
                  ∷ (in_quotes (text "delta")
                      ++ b':' ∷ d
                      ++ b',' ∷ (in_quotes (text "ic") ++ b':' ∷ b'[' ∷ points ++ b']' ∷ []))))

assembled :
    (a b g d points : Text)
    → text "{\"alpha\":"
        ++ a
        ++ text ",\"beta\":"
        ++ b
        ++ text ",\"gamma\":"
        ++ g
        ++ text ",\"delta\":"
        ++ d
        ++ text ",\"ic\":["
        ++ points
        ++ text "]}"
      ≡ b'{' ∷ fields_text a b g d points ++ b'}' ∷ []
unfolding text
assembled a b g d points = simp (append_assoc)

fields-IsJson :
    (key : RegistryVerifyingKey)
    → HasBytes key
    → IsJson
        (object (
          field (text "alpha") (string (to_hex key.alpha)) (
            field (text "beta") (string (to_hex key.beta)) (
              field (text "gamma") (string (to_hex key.gamma)) (
                field
                  (text "delta")
                  (string (to_hex key.delta))
                  (field (text "ic") (array (of_list (map string (map to_hex key.ic)))) end))))))
        (b'{'
            ∷ fields_text
                (in_quotes (to_hex key.alpha))
                (in_quotes (to_hex key.beta))
                (in_quotes (to_hex key.gamma))
                (in_quotes (to_hex key.delta))
                (points_text key.ic)
          ++ b'}' ∷ [])
unfolding text all_of
fields-IsJson key h = object_json (
    next (IsPlain-name (text "alpha") refl) (hex-IsJson key.alpha h.alpha) (
      next (IsPlain-name (text "beta") refl) (hex-IsJson key.beta h.beta) (
        next (IsPlain-name (text "gamma") refl) (hex-IsJson key.gamma h.gamma) (
          next (IsPlain-name (text "delta") refl) (hex-IsJson key.delta h.delta)
            (last (IsPlain-name (text "ic") refl) (points-IsJson key.ic h.ic))))))

pub vk_json-IsKeyJson : (key : RegistryVerifyingKey) → HasBytes key → IsKeyJson key (vk_json key)
unfolding vk_json
vk_json-IsKeyJson key h = record {
  alpha = to_hex key.alpha;
  beta = to_hex key.beta;
  gamma = to_hex key.gamma;
  delta = to_hex key.delta;
  ic = map to_hex key.ic;
  alpha_hex = to_hex-IsHex key.alpha h.alpha;
  beta_hex = to_hex-IsHex key.beta h.beta;
  gamma_hex = to_hex-IsHex key.gamma h.gamma;
  delta_hex = to_hex-IsHex key.delta h.delta;
  ic_hex = points-AreHex key.ic h.ic;
  is_json = rw (assembled _ _ _ _ (points_text key.ic)) (fields-IsJson key h);
}
