-- ===== src/Proxy/Checksum/Sums.antt =====
-- The one's complement sum by which a receiver checks a header, and what `csum_adj` of
-- main/http_proxy.c does to it.
use vetera_bridge.Prelude.{ℕ, ◌+◌, ◌/◌, ◌%◌, ◌≤◌, ◌<◌, ◌≡◌, ◌↔◌, List, [], ◌∷◌, arith, All, u16}
use vetera_bridge.Proxy.Checksum.{csum_adj, csum_adj32}

-- Addition with the end-around carry, as a receiver sums up 16-bit words.
unfoldable pub sum_from : ℕ → List ℕ → ℕ
sum_from acc [] = acc
sum_from acc (w ∷ ws) = sum_from ((acc + w) % 65536 + (acc + w) / 65536) ws

-- A receiver takes a header whose words, the checksum among them, sum up to all ones.
abbrev pub IsAccepted : List ℕ → Type 0
IsAccepted ws = sum_from 0 ws ≡ 65535

abbrev pub total : List ℕ → ℕ
total [] = 0
total (w ∷ ws) = w + total ws

abbrev pub AreWords : List ℕ → Type 0
AreWords = All (λ w. w < 65536)

pub sum_from_lem :
    (ws : List ℕ) (acc : ℕ)
    → acc < 65536
    → AreWords ws
    → (sum_from acc ws < 65536)
      × (sum_from acc ws % 65535 ≡ (acc + total ws) % 65535)
      × (0 < acc + total ws → 0 < sum_from acc ws)
      × (sum_from acc ws ≤ acc + total ws)
unfolding sum_from
sum_from_lem [] acc h k = omega arith
sum_from_lem (w ∷ ws) acc h k =
    let carry : (acc + w) % 65536 + (acc + w) / 65536 < 65536 = omega (arith, k.0) in
    let ih = sum_from_lem ws ((acc + w) % 65536 + (acc + w) / 65536) carry k.1 in
    omega (arith, ih, k.0)

-- The receiver's test in terms of the plain sum.
pub IsAccepted-iff-total :
    (ws : List ℕ) → AreWords ws → IsAccepted ws ↔ ((total ws % 65535 ≡ 0) × (0 < total ws))
IsAccepted-iff-total ws k =
    let l = sum_from_lem ws 0 (omega arith) k in
    (λ h. (omega (arith, l), omega (arith, l)), λ h. omega (arith, l, h.0, h.1))

-- One step of the update keeps the plain sum modulo 65535.
pub csum_adj_lem :
    (sum old new' : ℕ)
    → sum < 65536
    → old < 65536
    → new' < 65536
    → (csum_adj sum old new' < 65536)
      × ((csum_adj sum old new' + new') % 65535 ≡ (sum + old) % 65535)
unfolding csum_adj
csum_adj_lem sum old new' h k l = omega arith

pub csum_adj32_lem :
    (sum old new' : ℕ)
    → sum < 65536
    → old < 4294967296
    → new' < 4294967296
    → (csum_adj32 sum old new' < 65536)
      × ((csum_adj32 sum old new' + new' / 65536 + new' % 65536) % 65535
          ≡ (sum + old / 65536 + old % 65536) % 65535)
unfolding csum_adj32
csum_adj32_lem sum old new' h k l =
    let first =
      csum_adj_lem sum (u16 (old / 65536)) (u16 (new' / 65536)) h (omega arith) (omega arith) in
    let second =
      csum_adj_lem (csum_adj sum (u16 (old / 65536)) (u16 (new' / 65536))) (u16 old) (u16 new')
        first.0 (omega arith) (omega arith) in
    omega (arith, first, second)
