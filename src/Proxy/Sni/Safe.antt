-- ===== src/Proxy/Sni/Safe.antt =====
-- The parser of main/http_proxy.c reads no byte out of bounds, whatever the phone sends.
use vetera_bridge.Prelude.{
  ℕ, zero, suc, ◌+◌, ◌*◌, ◌≤◌, ◌<◌, ◌≡◌, refl, sym, subst, inl, inr, Bool, true, false, not, ◌&&◌,
  some, List, [], ◌∷◌, arith, ltb, leb, ◌==◌, if◌then◌else◌, ltb_false→le, leb→le, Bool-cases,
  length, get_elem?, take, drop, length-take,
}
use vetera_bridge.Proxy.Sni.{
  Found, fault, absent, named, host_ok, c_string, with_byte, with_word, copy_name, name_loop,
  ext_loop, least, skip8, skip16, hello_body, tls_sni,
}

-- No fault; a name that is found is a host name that fits the buffer.
abbrev pub IsSafe : ℕ → Found → Type 0
IsSafe on fault = ⊥
IsSafe on absent = Unit
IsSafe on (named h) = (host_ok h ≡ true) × (0 < length h) × (length h < on)

byte_there : (b : List ℕ) (p : ℕ) → p < length b → (x : ℕ) × (get_elem? b p ≡ some x)
byte_there [] p h = absurd (omega (arith, h))
byte_there (x ∷ xs) zero h = (x, refl)
byte_there (x ∷ xs) (suc p) h = byte_there xs p (omega (arith, h))

module _ (on : ℕ) (b : List ℕ) where
  with_byte-IsSafe :
      (p : ℕ) (f : ℕ → Found)
      → p < length b
      → ((x : ℕ) → IsSafe on (f x))
      → IsSafe on (with_byte b p f)
  with_byte-IsSafe p f h k =
      let (x, e) = byte_there b p h in
      let same : with_byte b p f ≡ f x = ground (arith, e) in subst (IsSafe on) (sym same) (k x)

  with_word-IsSafe :
      (p : ℕ) (f : ℕ → Found)
      → p + 1 < length b
      → ((x : ℕ) → IsSafe on (f x))
      → IsSafe on (with_word b p f)
  with_word-IsSafe p f h k =
      with_byte-IsSafe p (λ hi. with_byte b (p + 1) (λ lo. f (hi * 256 + lo))) (omega (arith, h))
        (λ hi. with_byte-IsSafe (p + 1) (λ lo. f (hi * 256 + lo)) h (λ lo. k (hi * 256 + lo)))

  skip8-IsSafe :
      (end p : ℕ) (f : ℕ → Found)
      → end ≤ length b
      → ((q : ℕ) → IsSafe on (f q))
      → IsSafe on (skip8 b end p f)
  unfolding skip8
  skip8-IsSafe end p f h k = elim (Bool-cases (ltb end (p + 1))) [
    | inl short ↦ rw short tt
    | inr there ↦ rw there (
        with_byte-IsSafe p (λ x. f (p + (1 + x))) (omega (arith, h, ltb_false→le end (p + 1) there))
          (λ x. k (p + (1 + x))))
  ]

  skip16-IsSafe :
      (end p : ℕ) (f : ℕ → Found)
      → end ≤ length b
      → ((q : ℕ) → IsSafe on (f q))
      → IsSafe on (skip16 b end p f)
  unfolding skip16
  skip16-IsSafe end p f h k = elim (Bool-cases (ltb end (p + 2))) [
    | inl short ↦ rw short tt
    | inr there ↦ rw there (
        with_word-IsSafe p (λ x. f (p + (2 + x))) (omega (arith, h, ltb_false→le end (p + 2) there))
          (λ x. k (p + (2 + x))))
  ]

length-c_string : (s : List ℕ) → length (c_string s) ≤ length s
unfolding c_string
length-c_string [] = omega arith
length-c_string (c ∷ cs) = ground (arith, length-c_string cs)

host_ok_pos : (h : List ℕ) → host_ok h ≡ true → 0 < length h
unfolding host_ok
host_ok_pos [] e = ground arith
host_ok_pos (c ∷ cs) e = omega arith

copy_name-IsSafe :
    (on : ℕ) (b : List ℕ) (q nl : ℕ) → q + nl ≤ length b → nl < on → IsSafe on (copy_name b q nl)
copy_name-IsSafe on b q nl h lt =
    let name = c_string (take nl (drop q b)) in
    let inside : ltb (length b) (q + nl) ≡ false = ground (arith, h) in
    elim (Bool-cases (host_ok name)) [
      | inl good ↦
          rw (inside, good)
            (
              good,
              host_ok_pos name good,
              omega (arith, length-c_string (take nl (drop q b)), length-take nl (drop q b), lt),
            )
      | inr bad ↦ rw (inside, bad) tt
    ]

name_step-IsSafe :
    (b : List ℕ) (on q qe nt nl : ℕ) (rest : Found)
    → qe ≤ length b
    → IsSafe on rest
    → IsSafe on (
        if ltb qe (q + 3 + nl)
        then absent
        else if nt == 0 && ltb 0 nl && ltb nl on
        then copy_name b (q + 3) nl
        else rest)
name_step-IsSafe b on q qe nt nl rest h k = elim (Bool-cases (ltb qe (q + 3 + nl))) [
  | inl past ↦ rw past tt
  | inr inside ↦ elim (Bool-cases (nt == 0 && ltb 0 nl && ltb nl on)) [
    | inl taken ↦
        rw (inside, taken) (copy_name-IsSafe on b (q + 3) nl (ground (arith, h)) (ground arith))
    | inr other ↦ rw (inside, other) k
  ]
]

name_loop-IsSafe :
    (fuel : ℕ) (b : List ℕ) (on q qe : ℕ) → qe ≤ length b → IsSafe on (name_loop fuel b on q qe)
unfolding name_loop
name_loop-IsSafe zero b on q qe h = tt
name_loop-IsSafe (suc fuel) b on q qe h = elim (Bool-cases (leb (q + 3) qe)) [
  | inr done ↦ rw done tt
  | inl more ↦
      let fits = leb→le (q + 3) qe more in
      let later = λ (nl : ℕ). name_loop-IsSafe fuel b on (q + 3 + nl) qe h in
      let step = λ (nt nl : ℕ).
        name_step-IsSafe b on q qe nt nl (name_loop fuel b on (q + 3 + nl) qe) h (later nl) in
      rw more (
        with_byte-IsSafe on b q _ (omega (arith, h, fits))
          (λ nt. with_word-IsSafe on b (q + 1) _ (omega (arith, h, fits)) (λ nl. step nt nl)))
]

ext_step-IsSafe :
    (b : List ℕ) (on p ext_end type len : ℕ) (rest : Found)
    → ext_end ≤ length b
    → IsSafe on rest
    → IsSafe on (
        if ltb ext_end (p + 4 + len)
        then absent
        else if type == 0
        then name_loop (length b) b on (p + 4 + 2) (p + 4 + len)
        else rest)
ext_step-IsSafe b on p ext_end type len rest h k = elim (Bool-cases (ltb ext_end (p + 4 + len))) [
  | inl past ↦ rw past tt
  | inr inside ↦ elim (Bool-cases (type == 0)) [
    | inl names ↦
        rw (inside, names)
          (name_loop-IsSafe (length b) b on (p + 4 + 2) (p + 4 + len) (ground (arith, h)))
    | inr other ↦ rw (inside, other) k
  ]
]

ext_loop-IsSafe :
    (fuel : ℕ) (b : List ℕ) (on p ext_end : ℕ)
    → ext_end ≤ length b
    → IsSafe on (ext_loop fuel b on p ext_end)
unfolding ext_loop
ext_loop-IsSafe zero b on p ext_end h = tt
ext_loop-IsSafe (suc fuel) b on p ext_end h = elim (Bool-cases (leb (p + 4) ext_end)) [
  | inr done ↦ rw done tt
  | inl more ↦
      let fits = leb→le (p + 4) ext_end more in
      let later = λ (len : ℕ). ext_loop-IsSafe fuel b on (p + 4 + len) ext_end h in
      let step = λ (type len : ℕ).
        ext_step-IsSafe b on p ext_end type len (ext_loop fuel b on (p + 4 + len) ext_end) h
          (later len) in
      rw more (
        with_word-IsSafe on b p _ (omega (arith, h, fits))
          (λ type. with_word-IsSafe on b (p + 2) _ (omega (arith, h, fits)) (λ len. step type len)))
]

hello_body-IsSafe : (b : List ℕ) (on end : ℕ) → end ≤ length b → IsSafe on (hello_body b on end)
unfolding hello_body
hello_body-IsSafe b on end h = skip8-IsSafe on b end (5 + 38) _ h (λ p.
    skip16-IsSafe on b end p _ h (λ p. skip8-IsSafe on b end p _ h (λ p.
      skip16-IsSafe on b end p _ h
        (λ q. ext_loop-IsSafe (length b) b on (p + 2) (least q end) (ground (arith, h))))))

-- A branch that finds nothing.
guard-IsSafe :
    (on : ℕ) (c : Bool) (y : Found)
    → (c ≡ false → IsSafe on y)
    → IsSafe on (if c then absent else y)
guard-IsSafe on true y k = tt
guard-IsSafe on false y k = k refl

only_if-IsSafe : (on : ℕ) (c : Bool) (x : Found) → IsSafe on x → IsSafe on (if c then x else absent)
only_if-IsSafe on true x k = k
only_if-IsSafe on false x k = tt

-- Whatever bytes the phone sends, and however many, the search for the server name reads none
-- beyond them; and a name that it finds is a host name of letters, digits and . - _ : [ ], is not
-- empty, and fits the buffer with its NUL.
pub tls_sni-IsSafe : (b : List ℕ) (on : ℕ) → IsSafe on (tls_sni b on)
unfolding tls_sni
tls_sni-IsSafe b on = guard-IsSafe on (ltb (length b) 5) _ (λ long.
    with_byte-IsSafe on b 0 _ (omega (arith, ltb_false→le (length b) 5 long)) (λ kind.
      guard-IsSafe on (not (kind == 0x16)) _ (λ record_type.
        with_word-IsSafe on b 3 _ (omega (arith, ltb_false→le (length b) 5 long)) (λ len.
          let end = least (5 + len) (length b) in
          guard-IsSafe on (ltb end (5 + 4)) _ (λ there.
            with_byte-IsSafe on b 5 _ (ground (arith, there)) (λ hello.
              only_if-IsSafe on (hello == 0x01) _ (hello_body-IsSafe b on end (ground arith))))))))
