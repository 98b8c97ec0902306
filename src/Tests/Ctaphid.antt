-- ===== src/Tests/Ctaphid.antt =====
-- ctaphid.rs at concrete reports.
use gabbro.Prelude.{replicate, [], arith, none, refl, some, take, ◌∷◌, ◌≡◌, ◌≢◌}
use gabbro.Bytes.{Bytes, from_be, to_be}
use gabbro.Ctaphid.{
  Ctaphid, Pending, cmd_cbor, encode_message, handle_report, handle_reports, allocated, finish,
}
use gabbro.Ctaphid.Invariant.{IsCollecting, IsReport, IsValidPending, handle_report-IsValidPending}
use gabbro.Ctaphid.Isolation.{handle_report_other_channel}
use gabbro.Ctaphid.Reassembly.{handle_reports-encode_message}

-- A device that has handed out channel 1.
abbrev device : Ctaphid
device = record { next_cid = 2; pending = none; complete = none }

abbrev payload : Bytes
payload = replicate 200 7

handle_reports-encode_message_example :
    handle_reports device (encode_message 1 cmd_cbor payload) ≡ finish device 1 cmd_cbor payload
unfolding allocated
handle_reports-encode_message_example =
    handle_reports-encode_message device 1 cmd_cbor payload refl refl (omega arith) (omega arith)
      (omega arith)

message_run :
    handle_reports device (encode_message 1 cmd_cbor payload)
    ≡ (record device { complete = some (1, cmd_cbor, payload) }, [])
unfolding handle_reports encode_message from_be to_be
message_run = refl

-- Channel 2 speaks while channel 1 is in the middle of its message.
abbrev waiting : Pending
waiting = record { cid = 1; cmd = cmd_cbor; total = 200; buf = replicate 57 7; next_seq = 0 }

abbrev busy_device : Ctaphid
busy_device = record { next_cid = 3; pending = some waiting; complete = none }

abbrev intruder : Bytes
intruder = 0 ∷ 0 ∷ 0 ∷ 2 ∷ 0x90 ∷ 0 ∷ 1 ∷ replicate 57 0

intruder-IsReport : IsReport intruder
intruder-IsReport = record { report_length = refl; bytes = omega arith }

waiting-IsCollecting : IsCollecting waiting
waiting-IsCollecting = record {
  unfinished = omega arith;
  total_fits = omega arith;
  filled = refl;
  seq_fits = omega arith;
}

intruder_ne : from_be (take 4 intruder) ≢ 1
unfolding from_be
intruder_ne = omega arith

handle_report_other_channel_example :
    ((handle_report busy_device intruder).0.pending ≡ some waiting)
    × ((handle_report busy_device intruder).0.complete ≡ none)
handle_report_other_channel_example =
    handle_report_other_channel busy_device waiting intruder refl intruder_ne

handle_report-IsValidPending_example : IsValidPending (handle_report busy_device intruder).0.pending
handle_report-IsValidPending_example =
    handle_report-IsValidPending busy_device intruder intruder-IsReport waiting-IsCollecting
