-- ===== src/Metrics/Events.antt =====
-- `EventTracer` of src/dakv/metrics/events.py and the same class of src/dakv/metrics/tracing.py.
use awarekv.Prelude.{
  ℕ, String, Option, none, some, List, [], ◌∷◌, ◌++◌, if◌then◌else◌, ◌==◌, string_eq, ◌≡◌, refl,
  arith,
}

-- The data of an event are a parameter; an empty dictionary replaces `None`.
pub record Event (D : Type 0) : Type 0 where
  pub event_type : String
  pub request_id : String
  pub timestamp_ms : ℕ
  pub event_data : D

module _ {D : Type 0} where
  -- data or {}
  abbrev pub data_or : D → Option D → D
  data_or empty none = empty
  data_or empty (some d) = d

  -- the arguments after the empty dictionary: the time, the type, the request, the data
  unfoldable pub trace : D → ℕ → String → String → Option D → List (Event D) → List (Event D)
  trace empty now type rid d events =
      events
      ++ (record {
        event_type = type;
        request_id = rid;
        timestamp_ms = now;
        event_data = data_or empty d;
      })
        ∷ []

  unfoldable pub events_of : String → List (Event D) → List (Event D)
  events_of rid [] = []
  events_of rid (e ∷ es) =
      let rest = events_of rid es in if e.request_id == rid then e ∷ rest else rest

  unfoldable pub get_events : Option String → List (Event D) → List (Event D)
  unfolding events_of
  get_events none events = events
  get_events (some rid) events = events_of rid events

  unfoldable pub clear : List (Event D) → List (Event D)
  clear events = []

  events_of-append :
      (rid : String) (xs ys : List (Event D))
      → events_of rid (xs ++ ys) ≡ events_of rid xs ++ events_of rid ys
  unfolding events_of
  events_of-append rid [] ys = refl
  events_of-append rid (x ∷ xs) ys = ground (arith, events_of-append rid xs ys)

  -- Tracing an event adds it behind the events of its own request and leaves those of the others.
  pub get_events-trace :
      (empty : D) (now : ℕ) (type rid other : String) (d : Option D) (events : List (Event D))
      → get_events (some other) (trace empty now type rid d events)
        ≡ get_events (some other) events
          ++ (if rid == other
              then (record {
                event_type = type;
                request_id = rid;
                timestamp_ms = now;
                event_data = data_or empty d;
              })
                ∷ []
              else [])
  unfolding get_events trace events_of
  get_events-trace empty now type rid other d events = events_of-append other events _
