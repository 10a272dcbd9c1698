-- ===== src/Dns/Desc/Terminator.antt =====
-- Whether `dns_query_desc` of main/dns_fwd.c leaves a terminated text in the caller's buffer.
use vetera_bridge.Prelude.{
  ℕ, zero, suc, ◌+◌, ◌-◌, ◌≤◌, ◌<◌, bit_and, ◌≡◌, refl, sym, ap, ◌∙◌, ◌≢◌, inl, inr, true, false,
  List, [], ◌∷◌, ◌++◌, append_assoc, arith, ltb, ◌==◌, Bool-cases, all_below, all_below→eq, length,
  set, take, drop, All, length-append, take-append, drop-append_one,
}
use vetera_bridge.Dns.Reply.{byte_at}
use vetera_bridge.Dns.Reply.Names.{IsLabel, byte_at-append}
use vetera_bridge.Dns.Desc.{printable, put_chars, malformed, desc_loop, desc_of, query_desc}

printable-ne-zero : (c : ℕ) → printable c ≢ 0
printable-ne-zero c = ground arith

abbrev NonZero : List ℕ → Type 0
NonZero = All (λ b. b ≢ 0)

set-NonZero : (xs : List ℕ) (i v : ℕ) → v ≢ 0 → NonZero xs → NonZero (set xs i v)
set-NonZero [] i v n h = tt
set-NonZero (x ∷ xs) zero v n h = (n, h.1)
set-NonZero (x ∷ xs) (suc i) v n h = (h.0, set-NonZero xs i v n h.1)

put_chars-NonZero :
    (nmax : ℕ) (cs : List ℕ) (w : ℕ) (name : List ℕ)
    → NonZero name
    → NonZero (put_chars nmax cs w name).1
unfolding put_chars
put_chars-NonZero nmax [] w name h = h
put_chars-NonZero nmax (c ∷ cs) w name h = elim (Bool-cases (ltb w (nmax - 1))) [
  | inl t ↦
      rw t (put_chars-NonZero nmax cs (w + 1) _ (set-NonZero name w _ (printable-ne-zero c) h))
  | inr f ↦ rw f h
]

-- The first character of the first label takes the place of the terminator.
put_chars-first :
    (nmax c : ℕ) (cs : List ℕ) (x : ℕ) (name : List ℕ)
    → 1 < nmax
    → NonZero name
    → NonZero (put_chars nmax (c ∷ cs) 0 (0 ∷ name)).1
unfolding put_chars
put_chars-first nmax c cs x name h k =
    let t : ltb 0 (nmax - 1) ≡ true = ground arith in
    rw t (put_chars-NonZero nmax cs (0 + 1) (printable c ∷ name) (printable-ne-zero c, k))

label_bits_table : all_below 64 (λ n. bit_and n 0xc0 == 0) ≡ true
unfolding all_below
label_bits_table = refl

label_bits : (n : ℕ) → n < 64 → (bit_and n 0xc0 == 0) ≡ true
label_bits n h = all_below→eq 64 (λ m. bit_and m 0xc0 == 0) n label_bits_table h

ne_zero_of_bits : (p : ℕ) → (bit_and p 0xc0 == 0) ≡ false → (p == 0) ≡ false
ne_zero_of_bits zero h = cc
ne_zero_of_bits (suc p) h = ground arith

desc_loop_label :
    (f : ℕ) (q : List ℕ) (nmax off n : ℕ) (name : List ℕ)
    → byte_at q off ≡ n
    → 0 < n
    → n < 64
    → off + 1 + n ≤ length q
    → let put = put_chars nmax (take n (drop (off + 1) q)) 0 name in
      desc_loop (suc f) q nmax off 0 name ≡ desc_loop f q nmax (off + (1 + n)) put.0 put.1
unfolding desc_loop
desc_loop_label f q nmax off n name b pos small room =
    let inside : ltb off (length q) ≡ true = ground arith in
    let some_bytes : (n == 0) ≡ false = ground arith in
    let fits : ltb (length q) (off + 1 + n) ≡ false = ground arith in
    rw (b, inside, some_bytes, label_bits n small, fits) refl

desc_loop_bad :
    (f : ℕ) (q : List ℕ) (nmax off w : ℕ) (name : List ℕ)
    → off < length q
    → (bit_and (byte_at q off) 0xc0 == 0) ≡ false
    → desc_loop (suc f) q nmax off w name ≡ malformed name
unfolding desc_loop
desc_loop_bad f q nmax off w name h b =
    let inside : ltb off (length q) ≡ true = ground arith in
    rw (inside, ne_zero_of_bits (byte_at q off) b, b) refl

walk_malformed :
    (f : ℕ) (q before : List ℕ) (c : ℕ) (cs : List ℕ) (p : ℕ) (after name : List ℕ) (nmax : ℕ)
    → q ≡ before ++ (length (c ∷ cs) ∷ ((c ∷ cs) ++ (p ∷ after)))
    → length before ≡ 12
    → IsLabel (c ∷ cs)
    → (bit_and p 0xc0 == 0) ≡ false
    → desc_loop (suc (suc f)) q nmax 12 0 (0 ∷ name)
      ≡ malformed (put_chars nmax (c ∷ cs) 0 (0 ∷ name)).1
walk_malformed f q before c cs p after name nmax e head ok bad =
    let n = length (c ∷ cs) in
    let body = (c ∷ cs) ++ (p ∷ after) in
    let sizes = length-append before (n ∷ body) in
    let sizes' = length-append (c ∷ cs) (p ∷ after) in
    let whole : length q ≡ 12 + (1 + (n + (1 + length after))) = omega (arith, ap length e) in
    let len_at : byte_at q 12 ≡ n = rw (← head) (byte_at-append q before body n e) in
    let tail_at : drop 13 q ≡ body =
      ap (drop 13) e
      ∙ ap (λ k. drop (suc k) (before ++ (n ∷ body))) (sym head)
      ∙ drop-append_one before body n in
    let bytes : take n (drop (12 + 1) q) ≡ c ∷ cs = rw tail_at (take-append (c ∷ cs) (p ∷ after)) in
    let head_size = length-append before (n ∷ (c ∷ cs)) in
    let bad_at : byte_at q (12 + (1 + n)) ≡ p =
      ap (byte_at q) (omega arith)
      ∙ byte_at-append q (before ++ (n ∷ (c ∷ cs))) after p (e ∙ simp append_assoc) in
    desc_loop_label (suc f) q nmax 12 n (0 ∷ name) len_at ok.0 ok.1 (omega arith)
    ∙ rw bytes (desc_loop_bad f q nmax (12 + (1 + n)) _ _ (omega arith) (rw bad_at bad))

-- A query whose first label is well formed and is followed by a length byte with a pointer or
-- reserved bit set leaves the caller's buffer without a terminator, if the bytes after the buffer's
-- first held none before the call: the log then reads past the buffer.
pub query_desc_unterminated :
    (before : List ℕ) (c : ℕ) (cs : List ℕ) (p : ℕ) (after : List ℕ) (x : ℕ) (name : List ℕ)
    (nmax : ℕ)
    → length before ≡ 12
    → IsLabel (c ∷ cs)
    → (bit_and p 0xc0 == 0) ≡ false
    → 1 < nmax
    → All (λ b. b ≢ 0) name
    → All
        (λ b. b ≢ 0)
        (query_desc (before ++ (length (c ∷ cs) ∷ ((c ∷ cs) ++ (p ∷ after)))) (x ∷ name) nmax).name
unfolding query_desc desc_of
query_desc_unterminated before c cs p after x name nmax head ok bad room clean =
    let q = before ++ (length (c ∷ cs) ∷ ((c ∷ cs) ++ (p ∷ after))) in
    let size = length-append before (length (c ∷ cs) ∷ ((c ∷ cs) ++ (p ∷ after))) in
    let rounds : length q ≡ suc (suc (length q - 2)) = omega arith in
    rw (rounds, walk_malformed (length q - 2) q before c cs p after name nmax refl head ok bad)
      (put_chars-first nmax c cs x name room clean)
