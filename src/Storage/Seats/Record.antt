-- ===== src/Storage/Seats/Record.antt =====
-- A seat's record survives its trip through JSON.
use krafton_week.Prelude.{String, ◌≡◌, refl, ap, ◌∙◌, Option, none, some}
use krafton_week.Effects.{ok}
use krafton_week.Json.{IsTextual, loads-dumps, get_field}
use krafton_week.Storage.Seats.{
  seat_document, read_payload, serialize_seat_record, deserialize_seat_record,
}

-- Reading a record that was written gives back its state and its user.
pub deserialize-serialize_seat_record :
    (state : String) (user_id : Option String)
    → deserialize_seat_record (serialize_seat_record state user_id) ≡ ok (state, user_id)
unfolding serialize_seat_record deserialize_seat_record
deserialize-serialize_seat_record state none =
    ap read_payload (loads-dumps (seat_document state none) (unfold IsTextual in (tt, (tt, tt))))
    ∙ (unfold get_field in refl)
deserialize-serialize_seat_record state (some u) =
    ap read_payload
      (loads-dumps (seat_document state (some u)) (unfold IsTextual in (tt, (tt, tt))))
    ∙ (unfold get_field in refl)
