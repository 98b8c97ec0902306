-- ===== src/Ctaphid/Isolation.antt =====
-- Channels: how they are handed out, and that one cannot disturb another.
use gabbro.Ctaphid.{
  Ctaphid, handle_report, allocated, Pending, broadcast_cid, frame_init, cmd_init, init_report,
  padded,
}
use gabbro.Bytes.{Bytes, from_be, to_be}
use gabbro.Prelude.{
  ◌≡◌, some, take, ◌≢◌, get_or, arith, ◌≤◌, ◌+◌, ◌<◌, ◌^◌, false, ℕ, [], drop, if◌then◌else◌, true,
  ◌++◌, ◌==◌, ap, append_assoc, length, length-append, length-drop, length-take, take-append, ◌%◌,
  ◌∙◌, ◌∷◌,
}
use gabbro.Ctaphid.Invariant.{IsReport}
use Prim.Native.Nat.{bit_or}

-- While a message is pending, a report on another channel changes neither it nor a message that
-- waits for the daemon: it is answered or ignored.
pub handle_report_other_channel :
    (s : Ctaphid) (p : Pending) (report : Bytes)
    → s.pending ≡ some p
    → from_be (take 4 report) ≢ p.cid
    → ((handle_report s report).0.pending ≡ some p)
      × ((handle_report s report).0.complete ≡ s.complete)
unfolding handle_report
handle_report_other_channel s p report busy other = ground arith

regroup : (a b c d : Bytes) → (a ++ (b ++ c)) ++ d ≡ (a ++ b) ++ (c ++ d)
regroup a b c d = simp append_assoc

-- The answer to INIT holds the nonce and the channel.
init_report_answer :
    (cid : ℕ) (report : Bytes)
    → length report ≡ 64
    → take 12 (drop 7 (init_report cid report)) ≡ take 8 (drop 7 report) ++ to_be 4 cid
unfolding init_report padded to_be
init_report_answer cid report len =
    ap (take 12) (regroup (take 8 (drop 7 report)) (to_be 4 cid) _ _)
    ∙ take-append 12 (take 8 (drop 7 report) ++ to_be 4 cid) _ (
        omega (
          arith,
          length-append (take 8 (drop 7 report)) (to_be 4 cid),
          length-take 8 (drop 7 report),
          length-drop 7 report,
        ))

init_step :
    (s : Ctaphid) (report : Bytes)
    → from_be (take 4 report) ≡ broadcast_cid
    → get_or report 4 0 ≡ bit_or frame_init cmd_init
    → handle_report s report
      ≡ (record s { next_cid = (s.next_cid + 1) % 2 ^ 32 }, init_report s.next_cid report ∷ [])
unfolding handle_report
init_step s report broadcast init = rw (broadcast, init)

-- A broadcast INIT hands out exactly one new channel, which was not allocated before, and names it
-- in its answer behind the echoed nonce, while the channel counter is below its last value.
handle_report_init :
    (s : Ctaphid) (report : Bytes)
    → IsReport report
    → from_be (take 4 report) ≡ broadcast_cid
    → get_or report 4 0 ≡ bit_or frame_init cmd_init
    → 1 ≤ s.next_cid
    → s.next_cid + 1 < 2 ^ 32
    → (allocated s s.next_cid ≡ false)
      × ((c : ℕ)
          → allocated (handle_report s report).0 c
            ≡ (if c == s.next_cid then true else allocated s c))
      × (take 12 (drop 7 (get_or (handle_report s report).1 0 []))
          ≡ take 8 (drop 7 report) ++ to_be 4 s.next_cid)
unfolding allocated
handle_report_init s report hr broadcast init first more =
    rw (init_step s report broadcast init)
      (ground arith, λ c. ground arith, init_report_answer s.next_cid report hr.report_length)
