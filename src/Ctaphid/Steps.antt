-- ===== src/Ctaphid/Steps.antt =====
-- One report of a message that is sent as its packets.
use gabbro.Bytes.{Bytes, from_be}
use gabbro.Ctaphid.{
  Ctaphid, Pending, broadcast_cid, handle_report, allocated, finish, frame_init, handle_reports,
}
use gabbro.Prelude.{
  [], if◌then◌else◌, length, min, none, some, take, true, ℕ, ◌++◌, ◌+◌, ◌-◌, ◌<◌, ◌==◌, ◌≡◌, arith,
  drop, false, get_or, not, ◌∙◌, ◌∷◌, List, append-nil,
}
use Prim.Native.Nat.{bit_and, bit_or}
use gabbro.Bits.{frame_or, low_bits, top_bit}
use native.Mathlib.Nat.{mod-eq_of_lt}

-- The state while `p` collects.
abbrev pub collecting : Ctaphid → Pending → Ctaphid
collecting s p = record s { pending = some p }

abbrev pub idle : Ctaphid → Ctaphid
idle s = record s { pending = none }

-- A report that reads as the next continuation of the pending message.
pub continuation_step :
    (s : Ctaphid) (p : Pending) (report chunk : Bytes)
    → from_be (take 4 report) ≡ p.cid
    → get_or report 4 0 ≡ p.next_seq
    → take (min (p.total - length p.buf) 59) (drop 5 report) ≡ chunk
    → p.cid < broadcast_cid
    → p.next_seq < 128
    → handle_report (collecting s p) report ≡ (
        if length (p.buf ++ chunk) == p.total
        then finish (idle s) p.cid p.cmd (p.buf ++ chunk)
        else (collecting s (record p { buf = p.buf ++ chunk; next_seq = p.next_seq + 1 }), []))
unfolding handle_report
continuation_step s p report chunk cid head body small low =
    let other : (p.cid == broadcast_cid) ≡ false = ground arith in
    let frame : (bit_and p.next_seq frame_init == 0) ≡ true =
      ground (arith, top_bit p.next_seq (omega arith)) in
    let own : (p.cid == p.cid) ≡ true = ground arith in
    let in_order : (p.next_seq == p.next_seq) ≡ true = ground arith in
    rw (cid, head, body, other, frame, own, in_order)
      (rw (mod-eq_of_lt {n = p.next_seq + 1} {m = 256} (omega arith)))

-- A report that reads as the first of a message, on an allocated channel.
pub init_step :
    (s : Ctaphid) (report chunk : Bytes) (cid cmd total : ℕ)
    → from_be (take 4 report) ≡ cid
    → get_or report 4 0 ≡ bit_or frame_init cmd
    → from_be (take 2 (drop 5 report)) ≡ total
    → take (min total 57) (drop 7 report) ≡ chunk
    → allocated s cid ≡ true
    → cid < broadcast_cid
    → cmd < 128
    → handle_report (idle s) report ≡ (
        if length chunk == total then finish (idle s) cid cmd chunk else (
          collecting s (record { cid = cid; cmd = cmd; total = total; buf = chunk; next_seq = 0 }),
          [],
        ))
unfolding handle_report
init_step s report chunk cid cmd total hcid head htotal body known small low =
    let other : (cid == broadcast_cid) ≡ false = ground arith in
    let frame : not (bit_and (bit_or frame_init cmd) frame_init == 0) ≡ true =
      ground (arith, frame_or cmd low, top_bit (128 + cmd) (omega arith)) in
    let command : bit_and (bit_or frame_init cmd) 0x7f ≡ cmd =
      rw (frame_or cmd low) (low_bits (128 + cmd) (omega arith) ∙ omega arith) in
    rw (hcid, head, htotal, body, other, frame, command, known)

pub handle_reports-cons :
    (s : Ctaphid) (report : Bytes) (rest : List Bytes) {t : Ctaphid} {out : List Bytes}
    → handle_report s report ≡ (t, out)
    → handle_reports s (report ∷ rest)
      ≡ ((handle_reports t rest).0, out ++ (handle_reports t rest).1)
unfolding handle_reports
handle_reports-cons s report rest e = rw e

-- After the last report of a message there is nothing to handle.
pub handle_reports-last :
    (s : Ctaphid) (report : Bytes) (rest : List Bytes)
    → rest ≡ []
    → handle_reports s (report ∷ rest) ≡ handle_report s report
unfolding handle_reports
handle_reports-last s report rest e = rw (e, append-nil)
