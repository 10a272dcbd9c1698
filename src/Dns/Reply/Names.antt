-- ===== src/Dns/Reply/Names.antt =====
-- The walk over a question's name in main/dns_fwd.c.
use vetera_bridge.Prelude.{
  ℕ, zero, suc, ◌+◌, ◌-◌, ◌≤◌, ◌<◌, bit_and, ◌≡◌, refl, ap, ◌∙◌, true, false, not, List, [], ◌∷◌,
  ◌++◌, append_assoc, arith, ◌==◌, all_below, all_below→eq, length, All, length-append,
}
use vetera_bridge.Dns.Reply.{byte_at, skip_name}

-- More fuel than there are bytes left changes nothing: the loop has ended by its own tests.
pub skip_name_fuel :
    (f g : ℕ) (q : List ℕ) (off : ℕ)
    → length q - off ≤ f
    → length q - off ≤ g
    → skip_name f q off ≡ skip_name g q off
unfolding skip_name
skip_name_fuel zero zero q off h k = refl
skip_name_fuel zero (suc g) q off h k = ground arith
skip_name_fuel (suc f) zero q off h k = ground arith
skip_name_fuel (suc f) (suc g) q off h k =
    ground (arith, skip_name_fuel f g q (off + (1 + byte_at q off)))

-- A label is its length and its bytes.
abbrev pub IsLabel : List ℕ → Type 0
IsLabel l = (0 < length l) × (length l < 64)

abbrev pub encode_name : List (List ℕ) → List ℕ
encode_name [] = 0 ∷ []
encode_name (l ∷ ls) = (length l ∷ l) ++ encode_name ls

no_pointer_bits_table : all_below 64 (λ n. not (bit_and n 0xc0 == 0xc0)) ≡ true
unfolding all_below
no_pointer_bits_table = refl

pub no_pointer_bits : (n : ℕ) → n < 64 → (bit_and n 0xc0 == 0xc0) ≡ false
no_pointer_bits n h =
    ground (arith, all_below→eq 64 (λ m. not (bit_and m 0xc0 == 0xc0)) n no_pointer_bits_table h)

root :
    (f : ℕ) (q : List ℕ) (off : ℕ)
    → byte_at q off ≡ 0
    → off < length q - 4
    → skip_name (suc f) q off ≡ off + 1
unfolding skip_name
root f q off b h = ground arith

label :
    (f : ℕ) (q : List ℕ) (off n : ℕ)
    → 0 < n
    → n < 64
    → byte_at q off ≡ n
    → off < length q - 4
    → skip_name (suc f) q off ≡ skip_name f q (off + (1 + n))
unfolding skip_name
label f q off n pos small b h = ground (arith, no_pointer_bits n small)

pub byte_at-append : (q xs ys : List ℕ) (y : ℕ) → q ≡ xs ++ (y ∷ ys) → byte_at q (length xs) ≡ y
byte_at-append q [] ys y e = rw e
byte_at-append q (x ∷ xs) ys y e = rw e (byte_at-append (xs ++ (y ∷ ys)) xs ys y refl)

regroup :
    (q before l ls after : List ℕ) (n : ℕ)
    → q ≡ before ++ (((n ∷ l) ++ ls) ++ after)
    → q ≡ (before ++ (n ∷ l)) ++ (ls ++ after)
regroup q before l ls after n e = e ∙ simp append_assoc

-- The walk over a well-formed name, with four bytes or more behind it and a round for each of its
-- bytes, ends just after its root label.
pub skip_name-encode_name :
    (ls : List (List ℕ)) (f : ℕ) (q before after : List ℕ) (off : ℕ)
    → All IsLabel ls
    → q ≡ before ++ (encode_name ls ++ after)
    → off ≡ length before
    → 4 ≤ length after
    → length (encode_name ls) ≤ f
    → skip_name f q off ≡ off + length (encode_name ls)
skip_name-encode_name [] zero q before after off ok e o room fuel = absurd (omega arith)
skip_name-encode_name [] (suc f) q before after off ok e o room fuel =
    root f q off (rw o (byte_at-append q before after 0 e))
      (omega (arith, ap length e, length-append before (0 ∷ after)))
skip_name-encode_name (l ∷ ls) zero q before after off ok e o room fuel = absurd (omega arith)
skip_name-encode_name (l ∷ ls) (suc f) q before after off ok e o room fuel =
    let sizes = length-append l (encode_name ls) in
    let whole = length-append before (((length l ∷ l) ++ encode_name ls) ++ after) in
    let parts = length-append ((length l ∷ l) ++ encode_name ls) after in
    let here : byte_at q off ≡ length l = rw o (byte_at-append q before _ (length l) e) in
    let step = label f q off (length l) ok.0.0 ok.0.1 here (omega (arith, ap length e)) in
    let below = length-append before (length l ∷ l) in
    let rest =
      skip_name-encode_name ls f q (before ++ (length l ∷ l)) after (off + (1 + length l)) ok.1
        (regroup q before l (encode_name ls) after (length l) e) (omega arith) room (omega arith) in
    step ∙ rest ∙ omega arith
