-- ===== src/Uhid/RoundTrip.antt =====
-- The kernel's OUTPUT event, by its layout: type u32, data[4096], size u16, rtype u8.
use gabbro.Bytes.{Bytes}
use gabbro.Prelude.{
  [], arith, length, replicate, some, ℕ, ◌++◌, ◌-◌, ◌<◌, ◌^◌, ◌∷◌, ◌≡◌, ◌≤◌, ap, append_assoc, drop,
  drop-append, false, length-append, length-replicate, ltb, min, refl, take, take-append,
  take_of_length-le, true, ◌+◌, ◌==◌, ◌∙◌,
}
use gabbro.Uhid.{
  from_le, parse_output, to_le, uhid_data_max, uhid_output, frame_of, read_bytes, read_event,
}

abbrev pub output_event : Bytes → ℕ → Bytes
unfolding to_le
output_event report rtype =
    to_le 4 uhid_output
    ++ ((report ++ replicate (uhid_data_max - length report) 0)
        ++ (to_le 2 (length report) ++ rtype ∷ []))

from_le-to_le_two : (v : ℕ) → v < 2 ^ 16 → from_le (to_le 2 v) ≡ v
unfolding from_le to_le
from_le-to_le_two v small = omega arith

-- What is parsed, by what the fields of the event are.
parse_output_fields :
    (event : Bytes) (size : ℕ)
    → ltb (length event) (4 + uhid_data_max + 2) ≡ false
    → (from_le (take 4 event) == uhid_output) ≡ true
    → from_le (take 2 (drop (4 + uhid_data_max) event)) ≡ size
    → parse_output event ≡ some (take (min size uhid_data_max) (drop 4 event))
unfolding parse_output
parse_output_fields event size long kind held = rw (long, kind, held) refl

length-output_event :
    (report : Bytes) (rtype : ℕ)
    → length report ≤ uhid_data_max
    → length (output_event report rtype) ≡ 4 + uhid_data_max + 3
unfolding to_le output_event
length-output_event report rtype fits = omega (
  arith,
  length-append report (replicate (uhid_data_max - length report) 0),
  length-append (report ++ replicate (uhid_data_max - length report) 0)
      (to_le 2 (length report) ++ rtype ∷ []),
  length-replicate {A = ℕ} (uhid_data_max - length report) 0,
)

parse_output-output_event :
    (report : Bytes) (rtype : ℕ)
    → length report ≤ uhid_data_max
    → parse_output (output_event report rtype) ≡ some report
unfolding to_le from_le output_event
parse_output-output_event report rtype fits =
    let n = length report in
    let zeros : Bytes = replicate (uhid_data_max - n) 0 in
    let tail = to_le 2 n ++ rtype ∷ [] in
    let full : length (report ++ zeros) ≡ uhid_data_max =
      omega (arith, length-append report zeros, length-replicate {A = ℕ} (uhid_data_max - n) 0) in
    let seam : drop uhid_data_max ((report ++ zeros) ++ tail) ≡ tail =
      drop-append uhid_data_max (report ++ zeros) tail full in
    let size : from_le (take 2 (drop uhid_data_max ((report ++ zeros) ++ tail))) ≡ n =
      ap (λ bs. from_le (take 2 bs)) seam ∙ from_le-to_le_two n (omega arith) in
    let cut : take (min n uhid_data_max) ((report ++ zeros) ++ tail) ≡ report =
      ap (take (min n uhid_data_max)) (append_assoc report zeros tail)
      ∙ take-append (min n uhid_data_max) report (zeros ++ tail) (omega arith) in
    parse_output_fields (output_event report rtype) n
      (ground (arith, length-output_event report rtype fits)) refl size
    ∙ ap some cut

-- A report of 64 bytes that the host sends comes out of the kernel's event as it is, with the report
-- number 0 in front or without.
pub read_event-output_event :
    (packet : Bytes) (rtype : ℕ)
    → length packet ≡ 64
    → (read_event (read_bytes (output_event packet rtype)) ≡ some (some packet))
      × (read_event (read_bytes (output_event (0 ∷ packet) rtype)) ≡ some (some packet))
unfolding read_event frame_of
read_event-output_event packet rtype size = (
  ap (λ o. some (frame_of o)) (parse_output-output_event packet rtype (omega arith))
      ∙ ap some (rw size (ap some (take_of_length-le 64 packet (omega arith)))),
  ap (λ o. some (frame_of o)) (parse_output-output_event (0 ∷ packet) rtype (omega arith))
      ∙ ap some (rw size (ap some (take_of_length-le 64 packet (omega arith)))),
)
