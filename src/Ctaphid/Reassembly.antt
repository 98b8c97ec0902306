-- ===== src/Ctaphid/Reassembly.antt =====
-- A message that is sent as its packets arrives as the message.
use gabbro.Bytes.{Bytes}
use gabbro.Ctaphid.{
  Ctaphid, Pending, broadcast_cid, continuation_packet, handle_report, init_packet, allocated,
  finish, chunks_onto, continuation_packets, handle_reports, encode_message, chunks,
}
use gabbro.Prelude.{
  [], if◌then◌else◌, length, none, take, true, ℕ, ◌++◌, ◌+◌, ◌<◌, ◌==◌, ◌≡◌, ◌≤◌, arith, drop, ◌∙◌,
  Bool-cases, inl, inr, length-take, suc, zero, ◌*◌, ◌∷◌, append_assoc, drop_of_length-le,
  length-append, length-drop, take-append-drop, take_of_length-le, eq_of_==, ne_of_==, ap, refl,
  subst, sym,
}
use gabbro.Ctaphid.Packets.{
  cid-continuation_packet, head-continuation_packet, payload-continuation_packet, cid-init_packet,
  head-init_packet, payload-init_packet, total-init_packet,
}
use gabbro.Ctaphid.Steps.{
  continuation_step, handle_reports-cons, handle_reports-last, init_step, collecting, idle,
}

-- The remaining bytes, sent from the next sequence number on, complete the message.
collect_rest :
    (fuel : ℕ) (s : Ctaphid) (p : Pending) (rest : Bytes)
    → length rest ≤ fuel
    → 0 < length rest
    → p.total ≡ length p.buf + length rest
    → p.cid < broadcast_cid
    → length rest + 59 * p.next_seq ≤ 59 * 128
    → handle_reports
        (collecting s p)
        (continuation_packets p.cid p.next_seq (chunks_onto fuel 59 rest))
      ≡ finish (idle s) p.cid p.cmd (p.buf ++ rest)
unfolding handle_reports continuation_packets chunks_onto
collect_rest fuel s p [] enough some_left total small room = absurd (omega arith)
collect_rest zero s p (x ∷ xs) enough some_left total small room = absurd (omega arith)
collect_rest (suc fuel) s p (x ∷ xs) enough some_left total small room =
    elim (Bool-cases (length (p.buf ++ take 59 (x ∷ xs)) == p.total)) [
      | inl whole ↦
          let short : length xs ≤ 58 = omega (
            arith,
            eq_of_== (length (p.buf ++ take 59 (x ∷ xs))) p.total whole,
            length-append p.buf (take 59 (x ∷ xs)),
            length-take 59 (x ∷ xs),
          ) in
          handle_reports-last (collecting s p) _ _ (rw (drop_of_length-le 58 xs short))
          ∙ step
          ∙ rw (whole, take_of_length-le 58 xs short)
      | inr part ↦
          let long : 58 < length xs = omega (
            arith,
            ne_of_== (length (p.buf ++ take 59 (x ∷ xs))) p.total part,
            length-append p.buf (take 59 (x ∷ xs)),
            length-take 59 (x ∷ xs),
          ) in
          handle_reports-cons (collecting s p) _ _
            {t = collecting s
              (record p { buf = p.buf ++ take 59 (x ∷ xs); next_seq = p.next_seq + 1 })}
            {out = []} (step ∙ rw part)
          ∙ collect_rest fuel s
              (record p { buf = p.buf ++ take 59 (x ∷ xs); next_seq = p.next_seq + 1 }) (drop 58 xs)
              (omega (arith, length-drop 58 xs)) (omega (arith, length-drop 58 xs))
              (omega (
                arith,
                length-drop 58 xs,
                length-append p.buf (take 59 (x ∷ xs)),
                length-take 59 (x ∷ xs),
              ))
              small (omega (arith, length-drop 58 xs))
          ∙ ap (finish (idle s) p.cid p.cmd) (
              append_assoc p.buf (take 59 (x ∷ xs)) (drop 58 xs)
              ∙ ap (λ ys. p.buf ++ ys) (take-append-drop 59 (x ∷ xs)))
    ]
  where
    step :
        handle_report (collecting s p) (continuation_packet p.cid p.next_seq (take 59 (x ∷ xs))) ≡ (
          if length (p.buf ++ take 59 (x ∷ xs)) == p.total
          then finish (idle s) p.cid p.cmd (p.buf ++ take 59 (x ∷ xs))
          else (
            collecting s (record p { buf = p.buf ++ take 59 (x ∷ xs); next_seq = p.next_seq + 1 }),
            [],
          ))
    step =
        continuation_step s p (continuation_packet p.cid p.next_seq (take 59 (x ∷ xs)))
          (take 59 (x ∷ xs))
          (cid-continuation_packet p.cid p.next_seq (take 59 (x ∷ xs)) (omega arith))
          (head-continuation_packet p.cid p.next_seq (take 59 (x ∷ xs)) (omega arith))
          (payload-continuation_packet p.cid p.next_seq (take 59 (x ∷ xs)) _
            (omega (arith, length-take 59 (x ∷ xs))))
          small (omega arith)

allocated_small :
    (s : Ctaphid) (cid : ℕ)
    → allocated s cid ≡ true
    → s.next_cid ≤ broadcast_cid
    → cid < broadcast_cid
unfolding allocated
allocated_small s cid known few = ground arith

message_from_idle :
    (s : Ctaphid) (cid cmd : ℕ) (payload : Bytes)
    → allocated s cid ≡ true
    → cid < broadcast_cid
    → cmd < 128
    → length payload ≤ 57 + 59 * 128
    → handle_reports (idle s) (encode_message cid cmd payload) ≡ finish (idle s) cid cmd payload
unfolding encode_message chunks
message_from_idle s cid cmd payload known small low fits =
    elim (Bool-cases (length (take 57 payload) == length payload)) [
      | inl whole ↦
          let short : length payload ≤ 57 = omega (
            arith,
            eq_of_== (length (take 57 payload)) (length payload) whole,
            length-take 57 payload,
          ) in
          handle_reports-last (idle s) _ _ (rw (drop_of_length-le 57 payload short))
          ∙ step
          ∙ rw (whole, take_of_length-le 57 payload short)
      | inr part ↦
          let long : 57 < length payload = omega (
            arith,
            ne_of_== (length (take 57 payload)) (length payload) part,
            length-take 57 payload,
          ) in
          handle_reports-cons (idle s) _ _
            {t = collecting s (record {
              cid = cid;
              cmd = cmd;
              total = length payload;
              buf = take 57 payload;
              next_seq = 0;
            })}
            {out = []} (step ∙ rw part)
          ∙ collect_rest (length (drop 57 payload)) s
              (record {
                cid = cid;
                cmd = cmd;
                total = length payload;
                buf = take 57 payload;
                next_seq = 0;
              })
              (drop 57 payload) (omega arith) (omega (arith, length-drop 57 payload))
              (omega (arith, length-drop 57 payload, length-take 57 payload)) small
              (omega (arith, length-drop 57 payload))
          ∙ ap (finish (idle s) cid cmd) (take-append-drop 57 payload)
    ]
  where
    step : handle_report (idle s) (init_packet cid cmd payload) ≡ (
        if length (take 57 payload) == length payload
        then finish (idle s) cid cmd (take 57 payload)
        else (
          collecting s (record {
            cid = cid;
            cmd = cmd;
            total = length payload;
            buf = take 57 payload;
            next_seq = 0;
          }),
          [],
        ))
    step =
        init_step s (init_packet cid cmd payload) (take 57 payload) cid cmd (length payload)
          (cid-init_packet cid cmd payload (omega arith)) (head-init_packet cid cmd payload)
          (total-init_packet cid cmd payload (omega arith))
          (payload-init_packet cid cmd payload _ refl) known small low

-- On an idle device with an allocated channel, the reports of a message of up to 7609 bytes have
-- the same effect and the same answer as the whole message at once: nothing is lost, reordered or
-- left pending.
pub handle_reports-encode_message :
    (s : Ctaphid) (cid cmd : ℕ) (payload : Bytes)
    → s.pending ≡ none
    → allocated s cid ≡ true
    → s.next_cid ≤ broadcast_cid
    → cmd < 128
    → length payload ≤ 57 + 59 * 128
    → handle_reports s (encode_message cid cmd payload) ≡ finish s cid cmd payload
handle_reports-encode_message s cid cmd payload free known few low fits =
    let same : idle s ≡ s = (λ i. record s { pending = sym free i }) in
    subst (λ t. handle_reports t (encode_message cid cmd payload) ≡ finish t cid cmd payload) same
      (message_from_idle s cid cmd payload known (allocated_small s cid known few) low fits)
