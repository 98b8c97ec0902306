-- ===== src/Daemon/Invariant.antt =====
-- The reassembly under the pump, whatever the surroundings do.
use gabbro.Prelude.{
  All, All-drop, All-take, List, Option, [], arith, drop, if_elim, length, length-drop, length-take,
  ltb, none, option_elim, refl, some, subst, sym, ◌==◌, ◌≡◌, if◌then◌else◌, min, not, take, true,
  ◌+◌, false, ◌++◌, eq_of_==, ℕ, ◌≤◌,
}
use gabbro.Bytes.{Bytes, IsByte}
use gabbro.Uhid.{
  DeviceRead, frame_of, parse_output, read_bytes, read_event, would_block, failed, from_le,
  uhid_data_max, uhid_output,
}
use gabbro.Ctaphid.Invariant.{IsReport, IsValidPending, handle_report-IsValidPending}
use gabbro.Daemon.{
  Round, Shared, Surroundings, keep_alive, pump_round, take_request, write_reports, drain,
  fresh_shared, respond,
}
use gabbro.Ctaphid.{cmd_cbor, encode_message, handle_report, take_message}

-- A device reads bytes.
abbrev pub IsByteRead : DeviceRead → Type 0
IsByteRead (read_bytes event) = All IsByte event
IsByteRead would_block = Unit
IsByteRead failed = Unit

abbrev IsByteOption : Option Bytes → Type 0
IsByteOption none = Unit
IsByteOption (some bytes) = All IsByte bytes

-- The daemon over its rounds, with the app's answers between them.
pub data Pumping : Shared → Type 0 where
  started : Pumping fresh_shared
  answered : {s : Shared} (response : Bytes) → Pumping s → Pumping (respond response s)
  pumped :
      {s : Shared} (env : Surroundings)
      → IsByteRead env.event
      → Pumping s
      → Pumping (pump_round env s).shared

keep_alive-hid : (env : Surroundings) (r : Round) → (keep_alive env r).shared ≡ r.shared
unfolding keep_alive
keep_alive-hid env r =
    option_elim (λ (x : Round). x.shared ≡ r.shared) r.shared.inflight_cid (λ _. refl)
      (λ cid _. if_elim (λ (x : Round). x.shared ≡ r.shared) _ (λ _. refl) (λ _. refl))

abbrev IsSound : Shared → Type 0
IsSound s = IsValidPending s.hid.pending

keep_alive-IsSound :
    (env : Surroundings) (r : Round) → IsSound r.shared → IsSound (keep_alive env r).shared
keep_alive-IsSound env r h = subst IsSound (sym (keep_alive-hid env r)) h

take_request-IsSound :
    (env : Surroundings) (s : Shared) (written : List Bytes)
    → IsSound s
    → IsSound (take_request env s written).shared
unfolding take_request take_message
take_request-IsSound env s written h =
    option_elim (λ (x : Round). IsSound x.shared) s.hid.complete
      (λ _.
        keep_alive-IsSound env
          (record {
            shared = record s { hid = (take_message s.hid).0 };
            packets = written;
            surfaced = none;
            running = true;
          })
          h)
      (λ m _.
        keep_alive-IsSound env
          (record {
            shared = record s { hid = (take_message s.hid).0; inflight_cid = some m.0 };
            packets = written;
            surfaced = some m.2;
            running = true;
          })
          h)

-- A report that `read_event` gives has 64 bytes.
abbrev IsReportRead : Option (Option Bytes) → Type 0
IsReportRead none = Unit
IsReportRead (some none) = Unit
IsReportRead (some (some report)) = IsReport report

drain-IsSound :
    (env : Surroundings) (s : Shared) (written : List Bytes) (read : Option (Option Bytes))
    → IsReportRead read
    → IsSound s
    → IsSound (drain env s written read).shared
unfolding drain
drain-IsSound env s written none reads h = h
drain-IsSound env s written (some none) reads h =
    keep_alive-IsSound env
      (record { shared = s; packets = written; surfaced = none; running = true }) h
drain-IsSound env s written (some (some report)) reads h =
    let kept = handle_report-IsValidPending s.hid report reads h in
    if_elim (λ (x : Round). IsSound x.shared)
      (write_reports env.accepts (handle_report s.hid report).1).1
      (λ _.
        take_request-IsSound env (record s { hid = (handle_report s.hid report).0 })
          (written ++ (write_reports env.accepts (handle_report s.hid report).1).0) kept)
      (λ _. kept)

length-shifted : (r : Bytes) → (length r == 65) ≡ true → length (take 64 (drop 1 r)) ≡ 64
length-shifted r exact =
    let whole : length r ≡ 65 = eq_of_== (length r) 65 exact in
    omega (arith, length-take 64 (drop 1 r), length-drop 1 r, whole)

not_below : (a b : ℕ) → ltb a b ≡ false → b ≤ a
not_below a b h = ground arith

length-front : (r : Bytes) → ltb (length r) 64 ≡ false → length (take 64 r) ≡ 64
length-front r long =
    let enough : 64 ≤ length r = not_below (length r) 64 long in
    omega (arith, length-take 64 r, enough)

frame_of-IsReport : (o : Option Bytes) → IsByteOption o → IsReportRead (some (frame_of o))
unfolding frame_of
frame_of-IsReport none h = tt
frame_of-IsReport (some r) h =
    if_elim (λ o. IsReportRead (some o)) (ltb (length r) 64) (λ _. tt)
      (λ long.
        if_elim (λ o. IsReportRead (some o)) (length r == 65)
          (λ exact. record {
            report_length = length-shifted r exact;
            bytes = All-take IsByte 64 (drop 1 r) (All-drop IsByte 1 r h);
          })
          (λ other. record { report_length = length-front r long; bytes = All-take IsByte 64 r h }))

parse_output-bytes : (event : Bytes) → All IsByte event → IsByteOption (parse_output event)
unfolding parse_output
parse_output-bytes event h =
    let size = min (from_le (take 2 (drop (4 + uhid_data_max) event))) uhid_data_max in
    let report : Option Bytes = some (take size (drop 4 event)) in
    let other = not (from_le (take 4 event) == uhid_output) in
    if_elim IsByteOption (ltb (length event) (4 + uhid_data_max + 2)) {x = none}
      {y = if other then none else report} (λ _. tt)
      (λ _.
        if_elim IsByteOption other {x = none} {y = report} (λ _. tt)
          (λ _. All-take IsByte size (drop 4 event) (All-drop IsByte 4 event h)))

read_event-IsReport : (event : DeviceRead) → IsByteRead event → IsReportRead (read_event event)
unfolding read_event
read_event-IsReport (read_bytes event) h =
    frame_of-IsReport (parse_output event) (parse_output-bytes event h)
read_event-IsReport would_block h = tt
read_event-IsReport failed h = tt

pump_round-IsSound :
    (env : Surroundings) (s : Shared)
    → IsByteRead env.event
    → IsSound s
    → IsSound (pump_round env s).shared
unfolding pump_round
pump_round-IsSound env s reads h =
    let read = read_event-IsReport env.event reads in
    option_elim (λ (x : Round). IsSound x.shared) s.pending_response
      (λ _. drain-IsSound env s [] (read_event env.event) read h)
      (λ response _.
        option_elim (λ (x : Round). IsSound x.shared) s.inflight_cid
          (λ _.
            drain-IsSound env (record s { pending_response = none }) [] (read_event env.event) read
              h)
          (λ cid _.
            if_elim (λ (x : Round). IsSound x.shared)
              (write_reports env.accepts (encode_message cid cmd_cbor response)).1
              (λ _.
                drain-IsSound env (record s { pending_response = none; inflight_cid = none })
                  (write_reports env.accepts (encode_message cid cmd_cbor response)).0
                  (read_event env.event) read h)
              (λ _. h)))

-- However reads, writes and the app's answers fall, the buffer of the message that is being received
-- stays below its total and in step with its sequence number.
pub Pumping-IsValidPending : (s : Shared) → Pumping s → IsValidPending s.hid.pending
Pumping-IsValidPending s started = tt
Pumping-IsValidPending s (answered response p) = Pumping-IsValidPending _ p
Pumping-IsValidPending s (pumped env reads p) =
    pump_round-IsSound env _ reads (Pumping-IsValidPending _ p)
