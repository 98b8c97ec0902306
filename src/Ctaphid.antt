-- ===== src/Ctaphid.antt =====
-- ctaphid.rs: 64-byte HID reports to (command, payload) messages and back, one state machine for
-- each virtual device. A report is the list of its 64 bytes.
pub mod Encoding
pub mod Invariant
pub mod Isolation
mod Packets
mod Steps
pub mod Reassembly
use Prim.Native.Nat.{bit_and, bit_or, min, suc}
use gabbro.Prelude.{
  ℕ, ◌++◌, ◌∷◌, Option, List, get_or, Bool, none, replicate, ◌%◌, ◌+◌, length, [], take, leb, drop,
  if◌then◌else◌, ◌-◌, ◌^◌, ◌&&◌, some, not, ◌==◌, ltb, zero, suc,
}
use gabbro.Bytes.{Bytes, to_be, from_be}

abbrev pub broadcast_cid : ℕ
broadcast_cid = 0xffff_ffff

abbrev pub frame_init : ℕ
frame_init = 0x80

abbrev pub cmd_ping : ℕ
cmd_ping = 0x01

abbrev pub cmd_init : ℕ
cmd_init = 0x06

abbrev pub cmd_cbor : ℕ
cmd_cbor = 0x10

abbrev pub cmd_keepalive : ℕ
cmd_keepalive = 0x3b

abbrev pub cmd_error : ℕ
cmd_error = 0x3f

abbrev pub keepalive_status_processing : ℕ
keepalive_status_processing = 0x01

abbrev pub err_invalid_command : ℕ
err_invalid_command = 0x01

abbrev pub err_invalid_seq : ℕ
err_invalid_seq = 0x04

abbrev pub err_channel_busy : ℕ
err_channel_busy = 0x06

abbrev pub err_invalid_channel : ℕ
err_invalid_channel = 0x0b

abbrev cap_cbor : ℕ
cap_cbor = 0x04

abbrev cap_nmsg : ℕ
cap_nmsg = 0x08

abbrev protocol_version : ℕ
protocol_version = 2

abbrev init_payload_len : ℕ
init_payload_len = 17

pub record Pending : Type 0 where
  pub cid : ℕ
  pub cmd : ℕ
  pub total : ℕ
  pub buf : Bytes
  pub next_seq : ℕ

pub record Ctaphid : Type 0 where
  pub next_cid : ℕ
  pub pending : Option Pending
  pub complete : Option (ℕ × ℕ × Bytes)

abbrev pub new : Ctaphid
new = record { next_cid = 1; pending = none; complete = none }

-- `[0u8; 64]` with the given bytes copied to its front.
unfoldable pub padded : Bytes → Bytes
padded bytes = bytes ++ replicate (64 - length bytes) 0

-- `slice.chunks(n)`; the fuel is the length of the slice.
unfoldable pub chunks_onto : ℕ → ℕ → Bytes → List Bytes
chunks_onto fuel n [] = []
chunks_onto zero n (x ∷ xs) = []
chunks_onto (suc fuel) n (x ∷ xs) = take n (x ∷ xs) ∷ chunks_onto fuel n (drop n (x ∷ xs))

unfoldable pub chunks : ℕ → Bytes → List Bytes
unfolding chunks_onto
chunks n xs = chunks_onto (length xs) n xs

-- CID | cmd | BCNT | up to 57 bytes
abbrev pub init_bytes : ℕ → ℕ → Bytes → Bytes
init_bytes cid cmd payload =
    to_be 4 cid ++ (bit_or frame_init cmd ∷ (to_be 2 (length payload % 2 ^ 16) ++ take 57 payload))

unfoldable pub init_packet : ℕ → ℕ → Bytes → Bytes
unfolding padded
init_packet cid cmd payload = padded (init_bytes cid cmd payload)

-- CID | sequence number | up to 59 bytes
abbrev pub continuation_bytes : ℕ → ℕ → Bytes → Bytes
continuation_bytes cid seq chunk = to_be 4 cid ++ ((seq % 2 ^ 8) ∷ chunk)

unfoldable pub continuation_packet : ℕ → ℕ → Bytes → Bytes
unfolding padded
continuation_packet cid seq chunk = padded (continuation_bytes cid seq chunk)

-- `for (seq, chunk) in ….enumerate()`
unfoldable pub continuation_packets : ℕ → ℕ → List Bytes → List Bytes
unfolding continuation_packet
continuation_packets cid seq [] = []
continuation_packets cid seq (c ∷ cs) =
    continuation_packet cid seq c ∷ continuation_packets cid (seq + 1) cs

unfoldable pub encode_message : ℕ → ℕ → Bytes → List Bytes
unfolding init_packet continuation_packets chunks
encode_message cid cmd payload =
    init_packet cid cmd payload ∷ continuation_packets cid 0 (chunks 59 (drop 57 payload))

unfoldable pub keepalive_processing : ℕ → Bytes
unfolding encode_message
keepalive_processing cid =
    get_or (encode_message cid cmd_keepalive (keepalive_status_processing ∷ [])) 0 []

unfoldable pub allocated : Ctaphid → ℕ → Bool
allocated s cid = leb 1 cid && ltb cid s.next_cid

unfoldable pub finish : Ctaphid → ℕ → ℕ → Bytes → Ctaphid × List Bytes
finish s cid cmd buf =
    if cmd == cmd_ping
    then (s, encode_message cid cmd_ping buf)
    else if cmd == cmd_cbor
    then (record s { complete = some (cid, cmd, buf) }, [])
    else (s, encode_message cid cmd_error (err_invalid_command ∷ []))

-- The report that answers INIT: the nonce echoed, and the new channel.
unfoldable pub init_report : ℕ → Bytes → Bytes
unfolding padded
init_report cid report = padded (
    to_be 4 broadcast_cid
    ++ (bit_or frame_init cmd_init
        ∷ (to_be 2 init_payload_len
            ++ (take 8 (drop 7 report)
                ++ (to_be 4 cid
                    ++ (protocol_version ∷ 0 ∷ 0 ∷ 0 ∷ bit_or cap_cbor cap_nmsg ∷ []))))))

-- A release build wraps `next_cid += 1`.
unfoldable pub init_response : Ctaphid → Bytes → Ctaphid × Bytes
unfolding init_report
init_response s report =
    (record s { next_cid = (s.next_cid + 1) % 2 ^ 32 }, init_report s.next_cid report)

-- An init packet on a channel that may start a message.
unfoldable pub start_message : Ctaphid → ℕ → ℕ → ℕ → Bytes → Ctaphid × List Bytes
unfolding finish
start_message s cid cmd total report =
    let buf = take (min total 57) (drop 7 report) in
    if length buf == total then finish s cid cmd buf else (
      record s {
        pending = some (record { cid = cid; cmd = cmd; total = total; buf = buf; next_seq = 0 });
      },
      [],
    )

unfoldable pub handle_init : Ctaphid → ℕ → Bytes → Ctaphid × List Bytes
unfolding start_message allocated
handle_init s cid report =
    if not (allocated s cid)
    then (s, encode_message cid cmd_error (err_invalid_channel ∷ []))
    else elim s.pending [
      | some _ ↦ (s, encode_message cid cmd_error (err_channel_busy ∷ []))
      | none ↦
          start_message s cid (bit_and (get_or report 4 0) 0x7f) (from_be (take 2 (drop 5 report)))
            report
    ]

-- A continuation packet while `p` collects; strays on other channels are ignored.
unfoldable pub collect : Ctaphid → Pending → ℕ → Bytes → Ctaphid × List Bytes
unfolding finish
collect s p cid report =
    if not (p.cid == cid)
    then (s, [])
    else if not (get_or report 4 0 == p.next_seq)
    then (record s { pending = none }, encode_message cid cmd_error (err_invalid_seq ∷ []))
    else (let buf = p.buf ++ take (min (p.total - length p.buf) 59) (drop 5 report) in
        if length buf == p.total then finish (record s { pending = none }) p.cid p.cmd buf else (
          record s { pending = some (record p { buf = buf; next_seq = (p.next_seq + 1) % 2 ^ 8 }) },
          [],
        ))

unfoldable pub handle_continuation : Ctaphid → ℕ → Bytes → Ctaphid × List Bytes
unfolding collect
handle_continuation s cid report = elim s.pending [
  | none ↦ (s, [])
  | some p ↦ collect s p cid report
]

unfoldable pub handle_report : Ctaphid → Bytes → Ctaphid × List Bytes
unfolding init_response handle_init handle_continuation
handle_report s report =
    let cid = from_be (take 4 report) in
    if cid == broadcast_cid && get_or report 4 0 == bit_or frame_init cmd_init
    then (let (s', r) = init_response s report in (s', r ∷ []))
    else if not (bit_and (get_or report 4 0) frame_init == 0)
    then handle_init s cid report
    else handle_continuation s cid report

-- The daemon feeds the reports of a message one after another.
unfoldable pub handle_reports : Ctaphid → List Bytes → Ctaphid × List Bytes
unfolding handle_report
handle_reports s [] = (s, [])
handle_reports s (r ∷ rs) =
    let (s', out) = handle_report s r in
    let (s'', out') = handle_reports s' rs in (s'', out ++ out')

unfoldable pub take_message : Ctaphid → Ctaphid × Option (ℕ × ℕ × Bytes)
take_message s = (record s { complete = none }, s.complete)
