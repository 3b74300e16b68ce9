-- ===== src/WebSocket/Words.antt =====
-- `int.to_bytes`, `int.from_bytes` and the exclusive or of bytes, as echocorn/websocket.py uses them.
use echocorn.Base.{
  ℕ, zero, suc, ◌+◌, ◌*◌, ◌/◌, ◌%◌, ◌^◌, ◌<◌, ◌≡◌, refl, ap, ◌∙◌, [], ◌∷◌, ◌++◌, arith, length,
  length-append, get_or, All,
}
use echocorn.Base.Bytes.{Bytes}

-- `n.to_bytes(k, "big")`
unfoldable pub to_bytes : ℕ → ℕ → Bytes
to_bytes zero n = []
to_bytes (suc k) n = to_bytes k (n / 256) ++ (n % 256 ∷ [])

-- `int.from_bytes(s, "big")`, behind the digits of `n`
unfoldable pub from_bytes : ℕ → Bytes → ℕ
from_bytes n [] = n
from_bytes n (c ∷ s) = from_bytes (n * 256 + c) s

from_bytes-append :
    (n : ℕ) (s : Bytes) (c : ℕ) → from_bytes n (s ++ (c ∷ [])) ≡ from_bytes n s * 256 + c
unfolding from_bytes
from_bytes-append n [] c = refl
from_bytes-append n (x ∷ s) c = from_bytes-append (n * 256 + x) s c

pub from_bytes-to_bytes : (k n : ℕ) → n < 256 ^ k → from_bytes 0 (to_bytes k n) ≡ n
unfolding from_bytes to_bytes
from_bytes-to_bytes zero n h = omega arith
from_bytes-to_bytes (suc k) n h =
    from_bytes-append 0 (to_bytes k (n / 256)) (n % 256)
    ∙ ap (λ m. m * 256 + n % 256) (from_bytes-to_bytes k (n / 256) (omega arith))
    ∙ omega arith

pub length-to_bytes : (k n : ℕ) → length (to_bytes k n) ≡ k
unfolding to_bytes
length-to_bytes zero n = refl
length-to_bytes (suc k) n =
    length-append (to_bytes k (n / 256)) (n % 256 ∷ []) ∙ omega (arith, length-to_bytes k (n / 256))

-- the exclusive or of the lowest `k` bits
unfoldable xor : ℕ → ℕ → ℕ → ℕ
xor zero a b = 0
xor (suc k) a b = (a % 2 + b % 2) % 2 + 2 * xor k (a / 2) (b / 2)

xor-xor : (k a b : ℕ) → a < 2 ^ k → xor k (xor k a b) b ≡ a
unfolding xor
xor-xor zero a b h = omega arith
xor-xor (suc k) a b h =
    let low : (xor (suc k) a b) % 2 ≡ (a % 2 + b % 2) % 2 = omega arith in
    let high : (xor (suc k) a b) / 2 ≡ xor k (a / 2) (b / 2) = omega arith in
    let back = ap (λ x. xor k x (b / 2)) high ∙ xor-xor k (a / 2) (b / 2) (omega arith) in
    omega (arith, low, back)

-- the payload from its `i`th byte on, combined with the mask, of which byte `i & 3` is used
unfoldable mask_from : ℕ → Bytes → Bytes → Bytes
unfolding xor
mask_from i mask [] = []
mask_from i mask (c ∷ payload) = xor 8 c (get_or mask (i % 4) 0) ∷ mask_from (suc i) mask payload

-- `_mask_payload`, for a mask of four bytes
unfoldable pub mask_payload : Bytes → Bytes → Bytes
unfolding mask_from
mask_payload payload mask = mask_from 0 mask payload

mask_from-mask_from :
    (i : ℕ) (mask payload : Bytes)
    → All (λ c. c < 256) payload
    → mask_from i mask (mask_from i mask payload) ≡ payload
unfolding mask_from
mask_from-mask_from i mask [] h = refl
mask_from-mask_from i mask (c ∷ payload) h =
    rw (xor-xor 8 c (get_or mask (i % 4) 0) h.0, mask_from-mask_from (suc i) mask payload h.1) refl

-- Masking a payload of bytes twice with the same key gives it back.
pub mask_payload-mask_payload :
    (payload mask : Bytes)
    → All (λ c. c < 256) payload
    → mask_payload (mask_payload payload mask) mask ≡ payload
unfolding mask_payload
mask_payload-mask_payload payload mask h = mask_from-mask_from 0 mask payload h

length-mask_from :
    (i : ℕ) (mask payload : Bytes) → length (mask_from i mask payload) ≡ length payload
unfolding mask_from
length-mask_from i mask [] = refl
length-mask_from i mask (c ∷ payload) = ap suc (length-mask_from (suc i) mask payload)

pub length-mask_payload :
    (payload mask : Bytes) → length (mask_payload payload mask) ≡ length payload
unfolding mask_payload
length-mask_payload payload mask = length-mask_from 0 mask payload
