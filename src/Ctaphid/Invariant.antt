-- ===== src/Ctaphid/Invariant.antt =====
-- The state machine keeps its counters and its buffer in range.
use gabbro.Ctaphid.{
  Ctaphid, Pending, handle_report, finish, start_message, collect, handle_init, handle_continuation,
  broadcast_cid, allocated, frame_init, cmd_init,
}
use gabbro.Prelude.{
  Option, length, ◌≡◌, ◌<◌, some, All, ◌^◌, none, ◌+◌, ◌*◌, ◌≤◌, ℕ, arith, get_or, take, min, ◌∷◌,
  drop, suc, [], length-take, zero, length-drop, Bool-cases, ◌==◌, inl, subst, sym, ◌∙◌, inr, List,
  if_elim, ◌-◌, not, ◌++◌, length-append, ◌&&◌, All-drop, option_elim, false,
}
use gabbro.Bytes.{Bytes, IsByte, from_be}
use gabbro.Bits.{top_bit}
use Prim.Native.Nat.{bit_or, bit_and}

-- While a message is pending, the buffer holds an init packet's 57 bytes and 59 for each
-- continuation, and is not yet full: `total - buf.len()` does not go below 0. The next sequence
-- number is at most 128, so its `u8` does not wrap.
pub record IsCollecting (p : Pending) : Type 0 where
  pub unfinished : length p.buf < p.total
  pub total_fits : p.total < 2 ^ 16
  pub filled : length p.buf ≡ 57 + 59 * p.next_seq
  pub seq_fits : p.next_seq ≤ 128

abbrev pub IsValidPending : Option Pending → Type 0
IsValidPending none = Unit
IsValidPending (some p) = IsCollecting p

pub record IsReport (report : Bytes) : Type 0 where
  pub report_length : length report ≡ 64
  pub bytes : All IsByte report

pub pending-finish :
    (s : Ctaphid) (cid cmd : ℕ) (buf : Bytes) → (finish s cid cmd buf).0.pending ≡ s.pending
unfolding finish
pending-finish s cid cmd buf = ground arith

get_or-IsByte : (bytes : Bytes) (i : ℕ) → All IsByte bytes → IsByte (get_or bytes i 0)
get_or-IsByte [] i h = omega arith
get_or-IsByte (b ∷ bs) zero h = h.0
get_or-IsByte (b ∷ bs) (suc i) h = get_or-IsByte bs i h.1

-- Two bytes make a `u16`.
from_be_two : (bytes : Bytes) → All IsByte bytes → from_be (take 2 bytes) < 2 ^ 16
unfolding from_be
from_be_two [] h = omega arith
from_be_two (a ∷ []) h = omega arith
from_be_two (a ∷ b ∷ bytes) h = omega arith

-- What a step leaves pending is valid.
abbrev Keeps : Ctaphid × List Bytes → Type 0
Keeps r = IsValidPending r.0.pending

start_message-IsValidPending :
    (s : Ctaphid) (cid cmd total : ℕ) (report : Bytes)
    → length report ≡ 64
    → total < 2 ^ 16
    → s.pending ≡ none
    → IsValidPending (start_message s cid cmd total report).0.pending
unfolding start_message
start_message-IsValidPending s cid cmd total report len fits idle =
    let buf = take (min total 57) (drop 7 report) in
    let size : length buf ≡ min total 57 =
      omega (arith, length-take (min total 57) (drop 7 report), length-drop 7 report) in
    elim (Bool-cases (length buf == total)) [
      | inl whole ↦ rw whole (subst IsValidPending (sym (pending-finish s cid cmd buf ∙ idle)) tt)
      | inr part ↦ rw part (record {
        unfinished = ground arith;
        total_fits = fits;
        filled = ground arith;
        seq_fits = omega arith;
      })
    ]

collect-IsValidPending :
    (s : Ctaphid) (p : Pending) (cid : ℕ) (report : Bytes)
    → length report ≡ 64
    → get_or report 4 0 < 128
    → s.pending ≡ some p
    → IsCollecting p
    → IsValidPending (collect s p cid report).0.pending
unfolding collect
collect-IsValidPending s p cid report len low busy h =
    let rest = take (min (p.total - length p.buf) 59) (drop 5 report) in
    let size : length (p.buf ++ rest) ≡ length p.buf + min (p.total - length p.buf) 59 = omega (
      arith,
      length-append p.buf rest,
      length-take (min (p.total - length p.buf) 59) (drop 5 report),
      length-drop 5 report,
    ) in
    if_elim Keeps (not (p.cid == cid)) (λ stray. subst IsValidPending (sym busy) h)
      (λ own.
        if_elim Keeps (not (get_or report 4 0 == p.next_seq)) (λ aborted. tt)
          (λ in_order.
            if_elim Keeps (length (p.buf ++ rest) == p.total)
              (λ whole.
                subst IsValidPending
                  (sym (pending-finish (record s { pending = none }) p.cid p.cmd (p.buf ++ rest)))
                  tt)
              (λ part. record {
                unfinished = ground arith;
                total_fits = h.total_fits;
                filled = ground arith;
                seq_fits = ground arith;
              })))

handle_init-IsValidPending :
    (s : Ctaphid) (cid : ℕ) (report : Bytes)
    → IsReport report
    → IsValidPending s.pending
    → IsValidPending (handle_init s cid report).0.pending
unfolding handle_init
handle_init-IsValidPending s cid report hr h =
    if_elim Keeps (not (allocated s cid)) (λ unknown. h)
      (λ known.
        option_elim Keeps s.pending
          (λ idle.
            start_message-IsValidPending s cid (bit_and (get_or report 4 0) 0x7f)
              (from_be (take 2 (drop 5 report))) report hr.report_length
              (from_be_two (drop 5 report) (All-drop IsByte 5 report hr.bytes)) idle)
          (λ p busy. h))

handle_continuation-IsValidPending :
    (s : Ctaphid) (cid : ℕ) (report : Bytes)
    → IsReport report
    → get_or report 4 0 < 128
    → IsValidPending s.pending
    → IsValidPending (handle_continuation s cid report).0.pending
unfolding handle_continuation
handle_continuation-IsValidPending s cid report hr low h =
    option_elim Keeps s.pending (λ idle. h)
      (λ p busy.
        collect-IsValidPending s p cid report hr.report_length low busy
          (subst IsValidPending busy h))

-- A byte whose frame bit is clear is a sequence number.
clear_frame_bit : (b : ℕ) → b < 256 → not (bit_and b frame_init == 0) ≡ false → b < 128
clear_frame_bit b byte h = ground (arith, top_bit b byte)

-- Every report keeps the invariant, whatever it holds.
pub handle_report-IsValidPending :
    (s : Ctaphid) (report : Bytes)
    → IsReport report
    → IsValidPending s.pending
    → IsValidPending (handle_report s report).0.pending
unfolding handle_report
handle_report-IsValidPending s report hr h =
    let cid = from_be (take 4 report) in
    if_elim Keeps (cid == broadcast_cid && get_or report 4 0 == bit_or frame_init cmd_init)
      (λ init. h)
      (λ other.
        if_elim Keeps (not (bit_and (get_or report 4 0) frame_init == 0))
          (λ first. handle_init-IsValidPending s cid report hr h)
          (λ later.
            handle_continuation-IsValidPending s cid report hr
              (clear_frame_bit (get_or report 4 0) (get_or-IsByte report 4 hr.bytes) later) h))
