-- ===== src/Tests/Daemon.antt =====
-- The pump of passkey_daemon.rs at concrete events.
use gabbro.Prelude.{
  All, All-append, [], arith, drop, false, map, refl, replicate, suc, take, true, zero, ℕ, ◌++◌,
  ◌∷◌, ◌≡◌,
}
use gabbro.Bytes.{Bytes, IsByte, from_be, to_be}
use gabbro.Daemon.Invariant.{IsByteRead, Pumping-IsValidPending, pumped, started}
use gabbro.Ctaphid.Invariant.{IsValidPending}
use gabbro.Daemon.{Shared, Surroundings, pump_round, respond, fresh_shared}
use gabbro.Uhid.RoundTrip.{output_event}
use gabbro.Uhid.{read_bytes, to_le, would_block}
use gabbro.Ctaphid.{new}

zeros-IsByte : (n : ℕ) → All IsByte (replicate n 0)
zeros-IsByte zero = tt
zeros-IsByte (suc n) = (ground arith, zeros-IsByte n)

-- A CBOR request of one byte on a channel.
abbrev request_on : ℕ → Bytes
request_on cid = 0 ∷ 0 ∷ 0 ∷ cid ∷ 0x90 ∷ 0 ∷ 1 ∷ 4 ∷ replicate 56 0

abbrev event_on : ℕ → Surroundings
event_on cid = record {
  accepts = λ packet. true;
  event = read_bytes (output_event (request_on cid) 1);
  keepalive_due = false;
}

abbrev quiet : Surroundings
quiet = record { accepts = λ packet. true; event = would_block; keepalive_due = false }

event-IsByteRead : IsByteRead (event_on 1).event
unfolding to_le
event-IsByteRead =
    let head : All IsByte (6 ∷ 0 ∷ 0 ∷ 0 ∷ []) = omega arith in
    let request : All IsByte (request_on 1) = omega arith in
    let tail : All IsByte (64 ∷ 0 ∷ 1 ∷ []) = omega arith in
    All-append IsByte (6 ∷ 0 ∷ 0 ∷ 0 ∷ []) ((request_on 1 ++ replicate 4032 0) ++ 64 ∷ 0 ∷ 1 ∷ [])
      head
      (All-append IsByte (request_on 1 ++ replicate 4032 0) (64 ∷ 0 ∷ 1 ∷ [])
        (All-append IsByte (request_on 1) (replicate 4032 0) request (zeros-IsByte 4032)) tail)

Pumping-IsValidPending_example :
    IsValidPending (pump_round (event_on 1) fresh_shared).shared.hid.pending
Pumping-IsValidPending_example =
    Pumping-IsValidPending (pump_round (event_on 1) fresh_shared).shared
      (pumped (event_on 1) event-IsByteRead started)

-- Two channels have a request each; the app's answer, to the first, goes out on the second.
abbrev two_channels : Shared
two_channels = record fresh_shared { hid = record new { next_cid = 3 } }

abbrev both_waiting : Shared
both_waiting = (pump_round (event_on 2) (pump_round (event_on 1) two_channels).shared).shared

crossed_run :
    map (λ e. take 4 (drop 6 e)) (pump_round quiet (respond (0 ∷ []) both_waiting)).packets
    ≡ (0 ∷ 0 ∷ 0 ∷ 2 ∷ []) ∷ []
unfolding pump_round from_be to_be
crossed_run = refl
