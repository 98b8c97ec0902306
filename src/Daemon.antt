-- ===== src/Daemon.antt =====
-- passkey_daemon.rs: the pump between the kernel, the framing and the app. A round of its loop takes
-- what the device reads, which writes it accepts, and whether a keepalive is due. Threads, locks and
-- the clock are left outside: the app's answer comes between two rounds, as the lock has it.
pub mod Invariant
use gabbro.Prelude.{
  Bool, List, Option, [], false, if◌then◌else◌, none, some, true, ℕ, ◌&&◌, ◌++◌, ◌∷◌,
}
use gabbro.Bytes.{Bytes}
use gabbro.Ctaphid.{
  Ctaphid, cmd_cbor, encode_message, handle_report, keepalive_processing, take_message, new,
}
use gabbro.Uhid.{DeviceRead, input2_event, read_event}

pub record Shared : Type 0 where
  pub hid : Ctaphid
  pub inflight_cid : Option ℕ
  pub pending_response : Option Bytes

-- What a round does: the reports that are written as events, the request for the app, and whether
-- the loop goes on.
pub record Round : Type 0 where
  pub shared : Shared
  pub packets : List Bytes
  pub surfaced : Option Bytes
  pub running : Bool

pub record Surroundings : Type 0 where
  pub accepts : Bytes → Bool
  pub event : DeviceRead
  pub keepalive_due : Bool

-- `for packet in … { if s.dev.write_all(&input2_event(&packet)).is_err() { return; } }`
unfoldable pub write_reports : (Bytes → Bool) → List Bytes → List Bytes × Bool
unfolding input2_event
write_reports accepts [] = ([], true)
write_reports accepts (p ∷ ps) =
    let (written, done) = write_reports accepts ps in
    if accepts (input2_event p) then (input2_event p ∷ written, done) else ([], false)

-- Step 3: the keepalive, of which a failed write is ignored.
unfoldable pub keep_alive : Surroundings → Round → Round
unfolding keepalive_processing input2_event
keep_alive env r = elim r.shared.inflight_cid [
  | none ↦ r
  | some cid ↦
      let packet = input2_event (keepalive_processing cid) in
      if env.keepalive_due && env.accepts packet
      then record r { packets = r.packets ++ packet ∷ [] }
      else r
]

-- `if let Some((cid, _cmd, payload)) = s.hid.take_message()`
unfoldable pub take_request : Surroundings → Shared → List Bytes → Round
unfolding take_message keep_alive
take_request env s written =
    let (hid, message) = take_message s.hid in
    elim message [
      | none ↦ keep_alive env (record {
        shared = record s { hid = hid };
        packets = written;
        surfaced = none;
        running = true;
      })
      | some (cid, cmd, payload) ↦ keep_alive env (record {
        shared = record s { hid = hid; inflight_cid = some cid };
        packets = written;
        surfaced = some payload;
        running = true;
      })
    ]

-- Step 2: a report of the host.
unfoldable pub drain : Surroundings → Shared → List Bytes → Option (Option Bytes) → Round
unfolding handle_report write_reports take_request keep_alive
drain env s written none = record {
  shared = s;
  packets = written;
  surfaced = none;
  running = false;
}
drain env s written (some none) =
    keep_alive env (record { shared = s; packets = written; surfaced = none; running = true })
drain env s written (some (some report)) =
    let (hid, outs) = handle_report s.hid report in
    let (answered, done) = write_reports env.accepts outs in
    let after = record s { hid = hid } in
    if done
    then take_request env after (written ++ answered)
    else record { shared = after; packets = written ++ answered; surfaced = none; running = false }

-- Step 1: the app's answer goes out on the channel in flight. `take` clears it in any case.
unfoldable pub pump_round : Surroundings → Shared → Round
unfolding encode_message write_reports read_event drain
pump_round env s = elim s.pending_response [
  | none ↦ drain env s [] (read_event env.event)
  | some response ↦ elim s.inflight_cid [
    | none ↦ drain env (record s { pending_response = none }) [] (read_event env.event)
    | some cid ↦
        let (written, done) = write_reports env.accepts (encode_message cid cmd_cbor response) in
        if done
        then drain env (record s { pending_response = none; inflight_cid = none }) written
            (read_event env.event)
        else record {
          shared = record s { pending_response = none };
          packets = written;
          surfaced = none;
          running = false;
        }
  ]
]

-- `respond`
abbrev pub respond : Bytes → Shared → Shared
respond response s = record s { pending_response = some response }

abbrev pub fresh_shared : Shared
fresh_shared = record { hid = new; inflight_cid = none; pending_response = none }
