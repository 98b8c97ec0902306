-- ===== src/Uhid.antt =====
-- uhid.rs and `read_event` of passkey_daemon.rs: the kernel's events. `to_ne_bytes` is little-endian,
-- as on every machine that Gabbro is built for.
pub mod RoundTrip
use gabbro.Bytes.{Bytes}
use gabbro.Prelude.{
  Option, [], codes, drop, if◌then◌else◌, length, ltb, min, none, not, replicate, some, suc, take,
  zero, ℕ, ◌%◌, ◌*◌, ◌++◌, ◌+◌, ◌/◌, ◌==◌, ◌^◌, ◌∷◌,
}

-- `v.to_ne_bytes()` of an integer of `n` bytes
unfoldable pub to_le : ℕ → ℕ → Bytes
to_le zero v = []
to_le (suc n) v = v % 256 ∷ to_le n (v / 256)

unfoldable pub from_le : Bytes → ℕ
from_le [] = 0
from_le (b ∷ bs) = b + 256 * from_le bs

-- `ev[at..at + bytes.len()].copy_from_slice(bytes)`
unfoldable pub copy_at : ℕ → Bytes → Bytes → Bytes
copy_at at bytes ev = take at ev ++ (bytes ++ drop (at + length bytes) ev)

abbrev pub vendor_id : ℕ
vendor_id = 0x1209

abbrev pub product_id : ℕ
product_id = 0x6abb

abbrev pub uhid_create2 : ℕ
uhid_create2 = 11

abbrev pub bus_usb : ℕ
bus_usb = 3

abbrev pub device_name : Bytes
device_name = codes "Gabbro Passkey Authenticator"

abbrev pub report_descriptor : Bytes
report_descriptor =
    0x06 ∷ 0xd0 ∷ 0xf1 ∷ 0x09 ∷ 0x01 ∷ 0xa1 ∷ 0x01 ∷ 0x09 ∷ 0x20 ∷ 0x15 ∷ 0x00 ∷ 0x26 ∷ 0xff ∷ 0x00
    ∷ 0x75 ∷ 0x08 ∷ 0x95 ∷ 0x40 ∷ 0x81 ∷ 0x02 ∷ 0x09 ∷ 0x21 ∷ 0x15 ∷ 0x00 ∷ 0x26 ∷ 0xff ∷ 0x00
    ∷ 0x75 ∷ 0x08 ∷ 0x95 ∷ 0x40 ∷ 0x91 ∷ 0x02 ∷ 0xc0 ∷ []

unfoldable pub create2_event : Bytes
unfolding to_le copy_at
create2_event = copy_at 280 report_descriptor (
    copy_at 268 (to_le 4 product_id) (
      copy_at 264 (to_le 4 vendor_id) (
        copy_at 262 (to_le 2 bus_usb) (
          copy_at 260 (to_le 2 (length report_descriptor % 2 ^ 16)) (
            copy_at 4 device_name (
              copy_at 0 (to_le 4 uhid_create2)
                (replicate (4 + 128 + 64 + 64 + 2 + 2 + 16 + 4096) 0)))))))

abbrev pub uhid_output : ℕ
uhid_output = 6

abbrev pub uhid_input2 : ℕ
uhid_input2 = 12

abbrev pub uhid_data_max : ℕ
uhid_data_max = 4096

unfoldable pub input2_event : Bytes → Bytes
unfolding to_le copy_at
input2_event report = copy_at 6 report (
    copy_at 4 (to_le 2 (length report % 2 ^ 16))
      (copy_at 0 (to_le 4 uhid_input2) (replicate (4 + 2 + uhid_data_max) 0)))

unfoldable pub parse_output : Bytes → Option Bytes
unfolding from_le
parse_output event =
    if ltb (length event) (4 + uhid_data_max + 2)
    then none
    else if not (from_le (take 4 event) == uhid_output)
    then none
    else some (
        take (min (from_le (take 2 (drop (4 + uhid_data_max) event))) uhid_data_max) (drop 4 event))

-- The frame of a report of 64 bytes or more: hidraw may put the report number in front.
unfoldable pub frame_of : Option Bytes → Option Bytes
frame_of none = none
frame_of (some report) =
    if ltb (length report) 64
    then none
    else if length report == 65
    then some (take 64 (drop 1 report))
    else some (take 64 report)

-- What a read of the device comes to: `Ok(n)`, `WouldBlock`, or another error.
pub data DeviceRead : Type 0 where
  read_bytes : Bytes → DeviceRead
  would_block failed : DeviceRead

-- `none` is the error.
unfoldable pub read_event : DeviceRead → Option (Option Bytes)
unfolding parse_output frame_of
read_event (read_bytes event) = some (frame_of (parse_output event))
read_event would_block = some none
read_event failed = none
