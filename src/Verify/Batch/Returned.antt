-- ===== src/Verify/Batch/Returned.antt =====
-- decodeBoolArrayFromDiagnostics finds the array that the first returning event holds.
use zksoroban.Prelude.{
  ◌≡◌, refl, Bool, true, false, List, [], ◌∷◌, Option, some, none, if◌then◌else◌,
}
use zksoroban.Js.Text.{Text}
use zksoroban.Types.Result
use zksoroban.Types.Result.{ok, ok-injective}
use zksoroban.Verify.Stellar.{Stellar}
use zksoroban.Verify.Returned.{
  Skipped, no_topic, one_topic, other, Returning, FirstRawReturn, raw_here, raw_later, AllSkipped,
  no_events, skip,
}
use zksoroban.Verify.Batch.{fn_returns_of, scan_raw_events, decode_bool_array_from_diagnostics}

module _ (s : Stellar) where
  open s use {ScVal, Event, to_booleans, is_fn_return, topics, event_value, event_from_base64}

  -- The array of Booleans that the first returning event holds, or none, where that event holds no
  -- array or there is no such event.
  pub data RawDecoded : List Text → Option (List Bool) → Type 0 where
    returned :
        {events : List Text} {found : Option (List Bool)}
        → (value : ScVal) → FirstRawReturn s events value
        → to_booleans value ≡ ok found
        → RawDecoded events found
    nothing : {events : List Text} → AllSkipped s events → RawDecoded events none

  -- An event that is passed over, in front of others.
  behind :
      {encoded : Text} {rest : List Text} {found : Option (List Bool)}
      → (event : Event) → event_from_base64 encoded ≡ ok event
      → Skipped s event
      → RawDecoded rest found
      → RawDecoded (encoded ∷ rest) found
  behind event d k (returned value first read) = returned value (raw_later event d k first) read
  behind event d k (nothing all) = nothing (skip event d k all)

  marked_raw :
      {encoded : Text} {rest : List Text} {found : Option (List Bool)} (event : Event)
      (topic second : ScVal) (more : List ScVal) (marked : Bool)
      → event_from_base64 encoded ≡ ok event
      → topics event ≡ topic ∷ second ∷ more
      → is_fn_return topic ≡ ok marked
      → (if marked then to_booleans (event_value event) else scan_raw_events s rest) ≡ ok found
      → (scan_raw_events s rest ≡ ok found → RawDecoded rest found)
      → RawDecoded (encoded ∷ rest) found
  marked_raw event topic second more true d e m h k =
      let returning : Returning s event = record {
        topic = topic;
        second = second;
        more = more;
        has_topics = e;
        is_return = m;
      } in
      returned (event_value event) (raw_here event d returning) h
  marked_raw event topic second more false d e m h k =
      behind event d (other topic second more e m) (k h)

  raw_event_found :
      {encoded : Text} {rest : List Text} {found : Option (List Bool)} (event : Event)
      (ts : List ScVal)
      → event_from_base64 encoded ≡ ok event
      → topics event ≡ ts
      → fn_returns_of s event (scan_raw_events s rest) ≡ ok found
      → (scan_raw_events s rest ≡ ok found → RawDecoded rest found)
      → RawDecoded (encoded ∷ rest) found
  unfolding fn_returns_of
  raw_event_found event [] d e h k = behind event d (no_topic e) (k (rw (e, fn_returns_of) at h))
  raw_event_found event (topic ∷ []) d e h k =
      behind event d (one_topic topic e) (k (rw (e, fn_returns_of) at h))
  raw_event_found event (topic ∷ second ∷ more) d e h k =
      let h' = rw (e, fn_returns_of) at h in
      let (marked, m, h'') = Result.>>=-eq-ok (is_fn_return topic) _ h' in
      marked_raw event topic second more marked d e m h'' k

  raw_scan_found :
      (events : List Text) {found : Option (List Bool)}
      → scan_raw_events s events ≡ ok found
      → RawDecoded events found
  unfolding scan_raw_events
  raw_scan_found [] h = rw (← ok-injective h) (nothing no_events)
  raw_scan_found (encoded ∷ rest) h =
      let (event, d, h') = Result.>>=-eq-ok (event_from_base64 encoded) _ h in
      raw_event_found event (topics event) d refl h' (raw_scan_found rest)

  -- The events may be missing.
  pub data BatchDecoded : Option (List Text) → Option (List Bool) → Type 0 where
    missing : BatchDecoded none none
    present :
        {events : List Text} {found : Option (List Bool)}
        → RawDecoded events found
        → BatchDecoded (some events) found

  pub BatchDecoded-of_ok :
      (events : Option (List Text)) {found : Option (List Bool)}
      → decode_bool_array_from_diagnostics s events ≡ ok found
      → BatchDecoded events found
  unfolding decode_bool_array_from_diagnostics
  BatchDecoded-of_ok none h = rw (← ok-injective h) missing
  BatchDecoded-of_ok (some events) h = present (raw_scan_found events h)
