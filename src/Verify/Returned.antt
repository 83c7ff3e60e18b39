-- ===== src/Verify/Returned.antt =====
-- Which diagnostic event holds the value that a contract returned, stated on the events alone.
use zksoroban.Prelude.{◌≡◌, true, false, List, [], ◌∷◌, some, none}
use zksoroban.Js.Text.{Text}
use zksoroban.Types.Result.{ok}
use zksoroban.Verify.Stellar.{Stellar, Payload}
use zksoroban.Prelude.{Bool}

module _ (s : Stellar) where
  open s use {ScVal, Event, to_boolean, is_fn_return, topics, event_value, event_from_base64}

  -- An event that is passed over: it has fewer than two topics, or its first is not "fn_return".
  pub data Skipped (event : Event) : Type 0 where
    no_topic : topics event ≡ [] → Skipped event
    one_topic : (topic : ScVal) → topics event ≡ topic ∷ [] → Skipped event
    other :
        (topic second : ScVal) (more : List ScVal)
        → topics event ≡ topic ∷ second ∷ more
        → is_fn_return topic ≡ ok false
        → Skipped event

  -- An event with two topics or more, of which the first is "fn_return".
  pub record Returning (event : Event) : Type 0 where
    pub topic : ScVal
    pub second : ScVal
    pub more : List ScVal
    pub has_topics : topics event ≡ topic ∷ second ∷ more
    pub is_return : is_fn_return topic ≡ ok true

  -- The first event that is not passed over returns a value.
  pub data FirstReturn : List Event → ScVal → Type 0 where
    here :
        {event : Event} {events : List Event}
        → Returning event
        → FirstReturn (event ∷ events) (event_value event)
    later :
        {event : Event} {events : List Event} {value : ScVal}
        → Skipped event
        → FirstReturn events value
        → FirstReturn (event ∷ events) value

  -- The same for events in base64, and that all of them are passed over.
  pub data FirstRawReturn : List Text → ScVal → Type 0 where
    raw_here :
        {encoded : Text} {rest : List Text}
        → (event : Event) → event_from_base64 encoded ≡ ok event
        → Returning event
        → FirstRawReturn (encoded ∷ rest) (event_value event)
    raw_later :
        {encoded : Text} {rest : List Text} {value : ScVal}
        → (event : Event) → event_from_base64 encoded ≡ ok event
        → Skipped event
        → FirstRawReturn rest value
        → FirstRawReturn (encoded ∷ rest) value

  pub data AllSkipped : List Text → Type 0 where
    no_events : AllSkipped []
    skip :
        {encoded : Text} {rest : List Text}
        → (event : Event) → event_from_base64 encoded ≡ ok event
        → Skipped event
        → AllSkipped rest
        → AllSkipped (encoded ∷ rest)

  -- The Boolean of the returned value where there is one, else of the first returning event.
  pub data Decoded (p : Payload s) (b : Bool) : Type 0 where
    direct : (value : ScVal) → p.return_value ≡ some value → to_boolean value ≡ ok b → Decoded p b
    in_events :
        (events : List Event) (value : ScVal)
        → p.return_value ≡ none
        → p.diagnostic_events ≡ some events
        → FirstReturn events value
        → to_boolean value ≡ ok b
        → Decoded p b
