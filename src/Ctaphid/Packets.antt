-- ===== src/Ctaphid/Packets.antt =====
-- What the state machine reads in the packets that `encode_message` builds.
use gabbro.Prelude.{
  ℕ, refl, ◌≡◌, length, get_or, ◌<◌, min, take, ◌^◌, drop, take-append, arith, length-take,
}
use gabbro.Bytes.{Bytes, to_be, from_be}
use gabbro.Ctaphid.{init_packet, continuation_packet, padded, frame_init}
use gabbro.Bytes.Words.{from_be-to_be}
use native.Mathlib.Nat.{mod-eq_of_lt}
use Prim.Native.Nat.{bit_or}

module _ (cid cmd : ℕ) (payload : Bytes) where
  abbrev packet : Bytes
  packet = init_packet cid cmd payload

  pub cid-init_packet : cid < 2 ^ 32 → from_be (take 4 (init_packet cid cmd payload)) ≡ cid
  unfolding init_packet padded to_be
  cid-init_packet fits = unfold to_be in from_be-to_be 4 cid fits

  pub head-init_packet : get_or (init_packet cid cmd payload) 4 0 ≡ bit_or frame_init cmd
  unfolding init_packet padded to_be
  head-init_packet = refl

  pub total-init_packet :
      length payload < 2 ^ 16
      → from_be (take 2 (drop 5 (init_packet cid cmd payload))) ≡ length payload
  unfolding init_packet padded to_be
  total-init_packet fits =
      rw (mod-eq_of_lt fits) (unfold to_be in from_be-to_be 2 (length payload) fits)

  pub payload-init_packet :
      (n : ℕ)
      → n ≡ min (length payload) 57
      → take n (drop 7 (init_packet cid cmd payload)) ≡ take 57 payload
  unfolding init_packet padded to_be
  payload-init_packet n h =
      take-append n (take 57 payload) _ (omega (arith, length-take 57 payload))

module _ (cid seq : ℕ) (chunk : Bytes) where
  pub cid-continuation_packet :
      cid < 2 ^ 32 → from_be (take 4 (continuation_packet cid seq chunk)) ≡ cid
  unfolding continuation_packet padded to_be
  cid-continuation_packet fits = unfold to_be in from_be-to_be 4 cid fits

  pub head-continuation_packet : seq < 2 ^ 8 → get_or (continuation_packet cid seq chunk) 4 0 ≡ seq
  unfolding continuation_packet padded to_be
  head-continuation_packet fits = mod-eq_of_lt fits

  pub payload-continuation_packet :
      (n : ℕ) → length chunk ≡ n → take n (drop 5 (continuation_packet cid seq chunk)) ≡ chunk
  unfolding continuation_packet padded to_be
  payload-continuation_packet n h = take-append n chunk _ h
