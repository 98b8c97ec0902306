-- ===== src/Tests/Uhid.antt =====
-- uhid.rs at a concrete report.
use gabbro.Prelude.{some, refl, replicate, take, ◌≡◌, ◌∷◌, [], length}
use gabbro.Bytes.{Bytes}
use gabbro.Uhid.{create2_event, input2_event, read_bytes, read_event}
use gabbro.Uhid.RoundTrip.{output_event, read_event-output_event}

abbrev packet : Bytes
packet = 1 ∷ 2 ∷ replicate 62 0

read_event-output_event_example :
    (read_event (read_bytes (output_event packet 1)) ≡ some (some packet))
    × (read_event (read_bytes (output_event (0 ∷ packet) 1)) ≡ some (some packet))
read_event-output_event_example = read_event-output_event packet 1 refl

input_run : take 8 (input2_event packet) ≡ 12 ∷ 0 ∷ 0 ∷ 0 ∷ 64 ∷ 0 ∷ 1 ∷ 2 ∷ []
unfolding input2_event
input_run = refl

create_run : length create2_event ≡ 4376
unfolding create2_event
create_run = refl
