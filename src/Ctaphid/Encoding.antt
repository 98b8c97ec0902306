-- ===== src/Ctaphid/Encoding.antt =====
-- What `encode_message` sends.
use gabbro.Prelude.{
  ℕ, length, All, ◌<◌, List, ◌≡◌, ◌≤◌, ◌∷◌, flatten, arith, length-append, suc, drop, ◌+◌,
  replicate, length-take, length-drop, [], take-append-drop, ◌-◌, zero, length-replicate, refl,
}
use gabbro.Ctaphid.{
  encode_message, continuation_packet, init_packet, padded, continuation_packets, chunks_onto,
  chunks, init_bytes, continuation_bytes,
}
use gabbro.Bytes.{Bytes}
use gabbro.Bytes.Words.{length-to_be}

length-padded : (bytes : Bytes) → length bytes ≤ 64 → length (padded bytes) ≡ 64
unfolding padded
length-padded bytes h = omega (
  arith,
  length-append bytes (replicate (64 - length bytes) 0),
  length-replicate {A = ℕ} (64 - length bytes) 0,
)

length-init_packet : (cid cmd : ℕ) (payload : Bytes) → length (init_packet cid cmd payload) ≡ 64
unfolding init_packet
length-init_packet cid cmd payload =
    length-padded (init_bytes cid cmd payload)
      (omega (arith, length-append {0}, length-to_be, length-take 57 payload))

length-continuation_packet :
    (cid seq : ℕ) (chunk : Bytes)
    → length chunk ≤ 59
    → length (continuation_packet cid seq chunk) ≡ 64
unfolding continuation_packet
length-continuation_packet cid seq chunk h =
    length-padded (continuation_bytes cid seq chunk)
      (omega (arith, length-append {0}, length-to_be))

pub chunks_onto-le : (fuel n : ℕ) (xs : Bytes) → All (λ c. length c ≤ n) (chunks_onto fuel n xs)
unfolding chunks_onto
chunks_onto-le fuel n [] = tt
chunks_onto-le zero n (x ∷ xs) = tt
chunks_onto-le (suc fuel) n (x ∷ xs) =
    (omega (arith, length-take n (x ∷ xs)), chunks_onto-le fuel n (drop n (x ∷ xs)))

-- With fuel for every byte the chunks are the slice, in order.
pub flatten-chunks_onto :
    (fuel n : ℕ) (xs : Bytes) → 0 < n → length xs ≤ fuel → flatten (chunks_onto fuel n xs) ≡ xs
unfolding chunks_onto flatten
flatten-chunks_onto fuel n [] pos h = refl
flatten-chunks_onto zero n (x ∷ xs) pos h = absurd (omega arith)
flatten-chunks_onto (suc fuel) n (x ∷ xs) pos h =
    rw (flatten-chunks_onto fuel n (drop n (x ∷ xs)) pos (omega (arith, length-drop n (x ∷ xs))))
      (take-append-drop n (x ∷ xs))

length-continuation_packets :
    (cid seq : ℕ) (cs : List Bytes)
    → All (λ c. length c ≤ 59) cs
    → All (λ r. length r ≡ 64) (continuation_packets cid seq cs)
unfolding continuation_packets
length-continuation_packets cid seq [] h = tt
length-continuation_packets cid seq (c ∷ cs) h =
    (length-continuation_packet cid seq c h.0, length-continuation_packets cid (seq + 1) cs h.1)

-- Every report of a message has 64 bytes.
length-encode_message :
    (cid cmd : ℕ) (payload : Bytes) → All (λ r. length r ≡ 64) (encode_message cid cmd payload)
unfolding encode_message
length-encode_message cid cmd payload = (
  length-init_packet cid cmd payload,
  length-continuation_packets cid 0 (chunks 59 (drop 57 payload))
      (chunks_onto-le (length (drop 57 payload)) 59 (drop 57 payload)),
)
