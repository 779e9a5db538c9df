-- ===== src/Net/Loopback/Laws.antt =====
-- The mask is its own inverse.
use clave.Prelude.{
  ℕ, zero, suc, nat_eq, ◌==◌, ◌+◌, ◌*◌, ◌/◌, ◌%◌, ◌^◌, ◌<◌, ◌≡◌, ◌∷◌, [], refl, arith, ap, Bytes,
  All, map, if◌then◌else◌, ◌∙◌,
}
use native.Mathlib.Nat.{pow-suc}
use clave.Net.Tunnel.{send_to_gateway, to_process}
use clave.Net.Loopback.{xor_bits, xor, LoopbackTunnel, encapsulate, decapsulate}

half_bound : (w a : ℕ) → a < 2 ^ suc w → a / 2 < 2 ^ w
half_bound w a h = let double : a < 2 ^ w * 2 = rw pow-suc at h in omega arith

-- The lowest bit of the exclusive or, before the others.
abbrev bit : ℕ → ℕ → ℕ
bit a k = if a % 2 == k % 2 then 0 else 1

bit_small : (a k : ℕ) → bit a k < 2
bit_small a k = ground arith

half : (a k x : ℕ) → (bit a k + 2 * x) / 2 ≡ x
half a k x = omega (arith, bit_small a k)

bit_twice : (a k x : ℕ) → bit (bit a k + 2 * x) k ≡ a % 2
bit_twice a k x =
    let low : (bit a k + 2 * x) % 2 ≡ bit a k = omega (arith, bit_small a k) in ground arith

xor_bits_twice : (w a k : ℕ) → a < 2 ^ w → xor_bits w (xor_bits w a k) k ≡ a
unfolding xor_bits
xor_bits_twice zero a k h = omega arith
xor_bits_twice (suc w) a k h =
    let rest = xor_bits w (a / 2) (k / 2) in
    ap (λ low. low + 2 * xor_bits w ((bit a k + 2 * rest) / 2) (k / 2)) (bit_twice a k rest)
    ∙ ap (λ x. a % 2 + 2 * xor_bits w x (k / 2)) (half a k rest)
    ∙ ap (λ x. a % 2 + 2 * x) (xor_bits_twice w (a / 2) (k / 2) (half_bound w a h))
    ∙ omega arith

xor_twice : (a k : ℕ) → a < 256 → xor (xor a k) k ≡ a
unfolding xor
xor_twice a k h = xor_bits_twice 8 a k h

mask_twice :
    (key : ℕ) (p : Bytes) → All (λ b. b < 256) p → map (λ b. xor b key) (map (λ b. xor b key) p) ≡ p
mask_twice key [] h = refl
mask_twice key (b ∷ p) (hb, hp) = ground (arith, xor_twice b key hb, mask_twice key p hp)

-- What the loopback tunnel encapsulates, it decapsulates to the same packet, when the packet is not empty.
pub decapsulate-encapsulate :
    (b : ℕ) (p datagram : Bytes) (t t' : LoopbackTunnel)
    → All (λ x. x < 256) (b ∷ p)
    → encapsulate (b ∷ p) t ≡ (t', send_to_gateway datagram)
    → decapsulate datagram t' ≡ (t', to_process (b ∷ p))
unfolding encapsulate decapsulate
decapsulate-encapsulate b p datagram t t' h e = ground (arith, mask_twice t.key (b ∷ p) h)
