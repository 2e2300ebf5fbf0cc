-- ===== src/Models/Dashboard/ProvisionLogEvent.antt =====
-- dashboard.rs, `impl DBTable for ProvisionLogEvent`, with the columns after both migrations.
-- `of_instance` is the field `instance`. As with an aggregate, `to_rowlike` converts `sentiment` to JSON,
-- which the driver does when it runs a statement. So is `time`, a `DateTime` of nanoseconds, cut to the
-- microseconds of a `timestamptz`.
use laas_reflab.Prelude.{ℕ, ◌*◌, ◌/◌, ◌≡◌, arith, true, false, Option, some, List, [], ◌∷◌}
use laas_reflab.Models.Rows.{
  uuid, timestamp, json, uuid_type, timestamptz_type, jsonb_type, Column, ◌>>=◌, >>=-eq-some, Codec,
  RoundTrips, Row, accepts, stored, unwrap_or, get_uuid, get_time, get_json, Keyed,
}
use laas_reflab.Models.Dashboard.{StatusSentiment, unknown, ProvEvent}

pub record ProvisionLogEvent : Type 0 where
  pub id : ℕ
  pub sentiment : StatusSentiment
  pub of_instance : ℕ
  -- in nanoseconds
  pub time : ℕ
  pub prov_status : ProvEvent

abbrev pub columns : List Column
columns =
    record { name = "id"; kind = uuid_type; not_null = true }
    ∷ record { name = "instance"; kind = uuid_type; not_null = true }
    ∷ record { name = "time"; kind = timestamptz_type; not_null = true }
    ∷ record { name = "prov_status"; kind = jsonb_type; not_null = true }
    ∷ record { name = "sentiment"; kind = jsonb_type; not_null = false }
    ∷ []

-- The time of an event as it is read back.
abbrev pub loaded_time : ℕ → ℕ
loaded_time time = time / 1000 * 1000

module _ {J : Type 0} (sentiments : Codec J StatusSentiment) (events : Codec J ProvEvent) where
  abbrev pub to_rowlike : ProvisionLogEvent → Option (Row J)
  to_rowlike p = do
    sentiment ← sentiments.to_value p.sentiment
    prov_status ← events.to_value p.prov_status
    some (
        ("id", uuid p.id)
        ∷ ("sentiment", json sentiment)
        ∷ ("instance", uuid p.of_instance)
        ∷ ("time", timestamp (p.time / 1000))
        ∷ ("prov_status", json prov_status)
        ∷ [])

  abbrev pub from_row : Row J → Option ProvisionLogEvent
  from_row row = do
    id ← get_uuid "id" row
    let sentiment = unwrap_or (unknown) (get_json "sentiment" row >>= sentiments.from_value)
    of_instance ← get_uuid "instance" row
    time ← get_time "time" row
    prov_status_json ← get_json "prov_status" row
    prov_status ← events.from_value prov_status_json
    some (record {
      id = id;
      sentiment = sentiment;
      of_instance = of_instance;
      time = time * 1000;
      prov_status = prov_status;
    })

  pub accepts-columns :
      (p : ProvisionLogEvent) (row : Row J) → to_rowlike p ≡ some row → accepts columns row ≡ true
  accepts-columns p row e =
      let (j1, q1, e1) = >>=-eq-some (sentiments.to_value p.sentiment) _ e in
      let (j2, q2, e2) = >>=-eq-some (events.to_value p.prov_status) _ e1 in ground arith

  pub row-Keyed :
      (p : ProvisionLogEvent) (row : Row J) → to_rowlike p ≡ some row → Keyed columns row p.id
  row-Keyed p row e =
      let (j1, q1, e1) = >>=-eq-some (sentiments.to_value p.sentiment) _ e in
      let (j2, q2, e2) = >>=-eq-some (events.to_value p.prov_status) _ e1 in
      record { all = ground arith; again = ground arith; key = ground arith; one = ground arith }

  pub from_row-stored :
      RoundTrips sentiments
      → RoundTrips events
      → (p : ProvisionLogEvent) (row : Row J) → to_rowlike p ≡ some row
      → from_row (stored columns row) ≡ some (record p { time = loaded_time p.time })
  from_row-stored r_sentiments r_events p row e =
      let (j1, q1, e1) = >>=-eq-some (sentiments.to_value p.sentiment) _ e in
      let (j2, q2, e2) = >>=-eq-some (events.to_value p.prov_status) _ e1 in
      ground (arith, r_sentiments p.sentiment j1 q1, r_events p.prov_status j2 q2)
