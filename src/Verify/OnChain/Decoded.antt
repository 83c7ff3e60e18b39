-- ===== src/Verify/OnChain/Decoded.antt =====
-- decodeVerifyReturnValue finds the Boolean of the returned value, and nothing else.
use zksoroban.Prelude.{
  ◌≡◌, refl, Bool, true, false, List, [], ◌∷◌, Option, some, none, if◌then◌else◌,
}
use zksoroban.Types.Result
use zksoroban.Types.Result.{Result, ok, err, ok-injective}
use zksoroban.Verify.Stellar.{Stellar, Payload}
use zksoroban.Verify.Returned.{
  no_topic, one_topic, other, Returning, FirstReturn, here, later, Decoded, direct, in_events,
}
use zksoroban.Verify.OnChain.{
  fn_return_of, scan_events, decode_return_value_from_diagnostics, decode_verify_return_value,
}

module _ (s : Stellar) where
  open s use {ScVal, Event, to_boolean, is_fn_return, topics, event_value}

  boolean_of_ok :
      (read : Result Bool) {b : Bool}
      → (Result.◌>>=◌ read (λ c. ok (some c))) ≡ ok (some b)
      → read ≡ ok b
  boolean_of_ok (err t) h = absurd (cc)
  boolean_of_ok (ok c) h = cc

  marked_event :
      (event : Event) (topic second : ScVal) (more : List ScVal) (marked : Bool)
      (events : List Event) {b : Bool}
      → topics event ≡ topic ∷ second ∷ more
      → is_fn_return topic ≡ ok marked
      → (if marked
          then Result.◌>>=◌ (to_boolean (event_value event)) (λ c. ok (some c))
          else scan_events s events)
        ≡ ok (some b)
      → (scan_events s events ≡ ok (some b)
          → (value : ScVal) × FirstReturn s events value × (to_boolean value ≡ ok b))
      → (value : ScVal) × FirstReturn s (event ∷ events) value × (to_boolean value ≡ ok b)
  marked_event event topic second more true events e m h rest =
      let returning : Returning s event = record {
        topic = topic;
        second = second;
        more = more;
        has_topics = e;
        is_return = m;
      } in
      (event_value event, here returning, boolean_of_ok (to_boolean (event_value event)) h)
  marked_event event topic second more false events e m h rest =
      let (value, first, read) = rest h in (value, later (other topic second more e m) first, read)

  event_found :
      (event : Event) (ts : List ScVal) (events : List Event) {b : Bool}
      → topics event ≡ ts
      → fn_return_of s event (scan_events s events) ≡ ok (some b)
      → (scan_events s events ≡ ok (some b)
          → (value : ScVal) × FirstReturn s events value × (to_boolean value ≡ ok b))
      → (value : ScVal) × FirstReturn s (event ∷ events) value × (to_boolean value ≡ ok b)
  unfolding fn_return_of
  event_found event [] events e h rest =
      let (value, first, read) = rest (rw (e, fn_return_of) at h) in
      (value, later (no_topic e) first, read)
  event_found event (topic ∷ []) events e h rest =
      let (value, first, read) = rest (rw (e, fn_return_of) at h) in
      (value, later (one_topic topic e) first, read)
  event_found event (topic ∷ second ∷ more) events e h rest =
      let h' = rw (e, fn_return_of) at h in
      let (marked, m, h'') = Result.>>=-eq-ok (is_fn_return topic) _ h' in
      marked_event event topic second more marked events e m h'' rest

  scan_found :
      (events : List Event) {b : Bool}
      → scan_events s events ≡ ok (some b)
      → (value : ScVal) × FirstReturn s events value × (to_boolean value ≡ ok b)
  unfolding scan_events
  scan_found [] h = absurd (cc)
  scan_found (event ∷ events) h = event_found event (topics event) events refl h (scan_found events)

  fields-Decoded :
      (p : Payload s) (value : Option ScVal) (events : Option (List Event)) {b : Bool}
      → p.return_value ≡ value
      → p.diagnostic_events ≡ events
      → decode_verify_return_value s p ≡ ok (some b)
      → Decoded s p b
  unfolding decode_verify_return_value decode_return_value_from_diagnostics
  fields-Decoded p (some v) events e f h = direct v e (boolean_of_ok (to_boolean v) (rw e at h))
  fields-Decoded p none none e f h = absurd (let h' = rw (e, f) at h in cc)
  fields-Decoded p none (some events) e f h =
      let (v, first, read) = scan_found events (rw (e, f) at h) in in_events events v e f first read

  -- What is decoded is the Boolean of the returned value.
  pub Decoded-of_ok :
      (p : Payload s) {b : Bool} → decode_verify_return_value s p ≡ ok (some b) → Decoded s p b
  Decoded-of_ok p h = fields-Decoded p p.return_value p.diagnostic_events refl refl h

  scan_finds :
      {events : List Event} {value : ScVal} {b : Bool}
      → FirstReturn s events value
      → to_boolean value ≡ ok b
      → scan_events s events ≡ ok (some b)
  unfolding scan_events fn_return_of
  scan_finds (here r) read = rw (r.has_topics, r.is_return, read, scan_events, fn_return_of) refl
  scan_finds (later (no_topic e) rest) read =
      rw (e, scan_events, fn_return_of) (scan_finds rest read)
  scan_finds (later (one_topic t e) rest) read =
      rw (e, scan_events, fn_return_of) (scan_finds rest read)
  scan_finds (later (other t u m e f) rest) read =
      rw (e, f, scan_events, fn_return_of) (scan_finds rest read)

  -- And the Boolean of the returned value is decoded.
  pub ok-of_Decoded :
      (p : Payload s) {b : Bool} → Decoded s p b → decode_verify_return_value s p ≡ ok (some b)
  unfolding decode_verify_return_value decode_return_value_from_diagnostics
  ok-of_Decoded p (direct v e read) = rw (e, read) refl
  ok-of_Decoded p (in_events events v e f first read) = rw (e, f) (scan_finds first read)
