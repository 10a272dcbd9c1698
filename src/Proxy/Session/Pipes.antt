-- ===== src/Proxy/Session/Pipes.antt =====
-- The copying of main/http_proxy.c as two pipes: first in, first out, with nothing lost or made up.
use native.Mathlib.Numerals.{unary_clauses}
use vetera_bridge.Prelude.{
  ℕ, zero, suc, ◌+◌, ◌≡◌, refl, sym, ap, ◌∙◌, subst, ◌≢◌, inl, inr, Option, some, List, [], ◌∷◌,
  ◌++◌, append-nil, append_assoc, arith, ◌==◌, if◌then◌else◌, ==→eq, Bool-cases, length, take, drop,
  take-append-drop,
}
use vetera_bridge.Proxy.Session.{Session, Call, shuts, receives, sends, Shared, on_fd}
use vetera_bridge.Proxy.Session.Splice.{
  sent_up, sent_down, up_sent, up_received, down_sent, down_received,
}

-- The bytes that came from a socket, and those that went to it, oldest first.
unfoldable pub bytes_in : ℕ → List Call → List ℕ
bytes_in fd [] = []
bytes_in fd (receives g bs ∷ cs) = bytes_in fd cs ++ (if g == fd then bs else [])
bytes_in fd (_ ∷ cs) = bytes_in fd cs

unfoldable pub bytes_out : ℕ → List Call → List ℕ
bytes_out fd [] = []
bytes_out fd (sends g bs ∷ cs) = bytes_out fd cs ++ (if g == fd then bs else [])
bytes_out fd (_ ∷ cs) = bytes_out fd cs

abbrev pub pending_up : Session → List ℕ
pending_up s = drop s.up_off s.up

abbrev pub pending_down : Session → List ℕ
pending_down s = drop s.down_off s.down

drop-add : (m n : ℕ) (xs : List ℕ) → drop n (drop m xs) ≡ drop (m + n) xs
drop-add zero n xs = ap (λ k. drop k xs) (omega arith)
drop-add (suc m) zero [] = simp unary_clauses refl
drop-add (suc m) (suc n) [] = simp unary_clauses refl
drop-add (suc m) n (x ∷ xs) =
    let e : suc (m + n) ≡ suc m + n = omega arith in drop-add m n xs ∙ ap (λ k. drop k (x ∷ xs)) e

drop_nil : (n : ℕ) (xs : List ℕ) → length xs ≡ 0 → drop n xs ≡ []
drop_nil zero [] h = refl
drop_nil (suc n) [] h = refl
drop_nil n (x ∷ xs) h = absurd (omega arith)

nil_of_length : (xs : List ℕ) → length xs ≡ 0 → xs ≡ []
nil_of_length xs h = drop_nil 0 xs h

drop_all : (xs : List ℕ) → drop (length xs) xs ≡ []
drop_all [] = refl
drop_all (x ∷ xs) = drop_all xs

-- An empty buffer is set back to its start, which changes nothing of what is pending.
pending_reset : (xs : List ℕ) (m : ℕ) → (if m == length xs then [] else drop m xs) ≡ drop m xs
pending_reset xs m = elim (Bool-cases (m == length xs)) [
  | inl c ↦ rw c (sym (subst (λ n. drop n xs ≡ []) (sym (==→eq m (length xs) c)) (drop_all xs)))
  | inr c ↦ rw c refl
]

taken-rest :
    (xs gone : List ℕ) (off : ℕ)
    → take (length gone) (drop off xs) ≡ gone
    → gone ++ drop (off + length gone) xs ≡ drop off xs
taken-rest xs gone off e =
    let whole : gone ++ drop (length gone) (drop off xs) ≡ drop off xs =
      ap (λ l. l ++ drop (length gone) (drop off xs)) (sym e)
      ∙ take-append-drop (length gone) (drop off xs) in
    subst (λ l. gone ++ l ≡ drop off xs) (drop-add off (length gone) xs) whole

pending-sent_up : (n : ℕ) (s : Session) → pending_up (sent_up n s) ≡ drop (s.up_off + n) s.up
pending-sent_up n s = ground (arith, pending_reset s.up (s.up_off + n))

pending-sent_down :
    (n : ℕ) (s : Session) → pending_down (sent_down n s) ≡ drop (s.down_off + n) s.down
pending-sent_down n s = ground (arith, pending_reset s.down (s.down_off + n))

-- The pipe after a receive into its empty buffer, and what then went into it.
refilled :
    (out start came fresh left : List ℕ)
    → left ≡ []
    → out ++ left ≡ start ++ came
    → out ++ fresh ≡ start ++ (came ++ fresh)
refilled out start came fresh left e h =
    let whole : out ≡ start ++ came =
      sym (append-nil out) ∙ subst (λ l. out ++ l ≡ start ++ came) e h in
    ap (λ l. l ++ fresh) whole ∙ append_assoc start came fresh

pending-up_received :
    (fresh : List ℕ) (s : Session) (w : Shared)
    → length s.up ≡ 0
    → pending_up (up_received fresh s w).session ≡ fresh
pending-up_received fresh s w e = ground (arith, drop_nil s.up_off s.up e, nil_of_length fresh)

pending-down_received :
    (fresh : List ℕ) (s : Session) (w : Shared)
    → length s.down ≡ 0
    → pending_down (down_received fresh s w).session ≡ fresh
pending-down_received fresh s w e =
    ground (arith, drop_nil s.down_off s.down e, nil_of_length fresh)

module _ (fd : ℕ) (o : Option ℕ) (bs : List ℕ) (cs : List Call) where
  out_sent : o ≡ some fd → bytes_out fd (on_fd o (λ g. sends g bs) cs) ≡ bytes_out fd cs ++ bs
  unfolding bytes_out
  out_sent e = ground (arith, e)

  in_received : o ≡ some fd → bytes_in fd (on_fd o (λ g. receives g bs) cs) ≡ bytes_in fd cs ++ bs
  unfolding bytes_in
  in_received e = ground (arith, e)

  in_sent : bytes_in fd (on_fd o (λ g. sends g bs) cs) ≡ bytes_in fd cs
  unfolding bytes_in
  in_sent = ground arith

  out_received : bytes_out fd (on_fd o (λ g. receives g bs) cs) ≡ bytes_out fd cs
  unfolding bytes_out
  out_received = ground arith

  out_other :
      (g : ℕ) → g ≢ fd → o ≡ some g → bytes_out fd (on_fd o (λ g. sends g bs) cs) ≡ bytes_out fd cs
  unfolding bytes_out
  out_other g ne e = ground (arith, ne, e, append-nil (bytes_out fd cs))

  in_other :
      (g : ℕ) → g ≢ fd → o ≡ some g → bytes_in fd (on_fd o (λ g. receives g bs) cs) ≡ bytes_in fd cs
  unfolding bytes_in
  in_other g ne e = ground (arith, ne, e, append-nil (bytes_in fd cs))

module _ (fd : ℕ) (o : Option ℕ) (cs : List Call) where
  pub in_shut : bytes_in fd (on_fd o shuts cs) ≡ bytes_in fd cs
  unfolding bytes_in
  in_shut = ground arith

  pub out_shut : bytes_out fd (on_fd o shuts cs) ≡ bytes_out fd cs
  unfolding bytes_out
  out_shut = ground arith

-- Both pipes of a session with the sockets `p` and `x`, which began with `up0` and `down0` in them.
pub record IsPiped (p x : ℕ) (up0 down0 : List ℕ) (r : Session × Shared) : Type 0 where
  pub ph : r.0.ph ≡ some p
  pub px : r.0.px ≡ some x
  pub up : bytes_out x r.1.calls ++ pending_up r.0 ≡ up0 ++ bytes_in p r.1.calls
  pub down : bytes_out p r.1.calls ++ pending_down r.0 ≡ down0 ++ bytes_in x r.1.calls

module _ (p x : ℕ) (up0 down0 : List ℕ) where
  -- Bytes taken from the front of the pipe to the proxy.
  pub up_sent-IsPiped :
      (gone : List ℕ) (s : Session) (w : Shared)
      → p ≢ x
      → take (length gone) (drop s.up_off s.up) ≡ gone
      → IsPiped p x up0 down0 (s, w)
      → let h = up_sent gone s w in IsPiped p x up0 down0 (h.session, h.shared)
  up_sent-IsPiped gone s w ne e v = record {
    ph = ground (arith, v.ph);
    px = ground (arith, v.px);
    up =
        rw
          (
            out_sent x s.px gone w.calls v.px,
            in_sent p s.px gone w.calls,
            pending-sent_up (length gone) s,
            append_assoc (bytes_out x w.calls) gone (drop (s.up_off + length gone) s.up),
            taken-rest s.up gone s.up_off e,
          )
          v.up;
    down =
        rw (out_other p s.px gone w.calls x (λ q. ne (sym q)) v.px, in_sent x s.px gone w.calls)
          (ground (arith, v.down));
  }

  -- Bytes received into the empty pipe to the proxy.
  pub up_received-IsPiped :
      (fresh : List ℕ) (s : Session) (w : Shared)
      → p ≢ x
      → length s.up ≡ 0
      → IsPiped p x up0 down0 (s, w)
      → let h = up_received fresh s w in IsPiped p x up0 down0 (h.session, h.shared)
  up_received-IsPiped fresh s w ne e v = record {
    ph = ground (arith, v.ph);
    px = ground (arith, v.px);
    up =
        rw
          (
            out_received x s.ph fresh w.calls,
            in_received p s.ph fresh w.calls v.ph,
            pending-up_received fresh s w e,
          )
          (refilled (bytes_out x w.calls) up0 (bytes_in p w.calls) fresh (pending_up s)
            (drop_nil s.up_off s.up e) v.up);
    down =
        rw (out_received p s.ph fresh w.calls, in_other x s.ph fresh w.calls p ne v.ph)
          (ground (arith, v.down));
  }

  -- Bytes taken from the front of the pipe to the phone.
  pub down_sent-IsPiped :
      (gone : List ℕ) (s : Session) (w : Shared)
      → p ≢ x
      → take (length gone) (drop s.down_off s.down) ≡ gone
      → IsPiped p x up0 down0 (s, w)
      → let h = down_sent gone s w in IsPiped p x up0 down0 (h.session, h.shared)
  down_sent-IsPiped gone s w ne e v = record {
    ph = ground (arith, v.ph);
    px = ground (arith, v.px);
    down =
        rw
          (
            out_sent p s.ph gone w.calls v.ph,
            in_sent x s.ph gone w.calls,
            pending-sent_down (length gone) s,
            append_assoc (bytes_out p w.calls) gone (drop (s.down_off + length gone) s.down),
            taken-rest s.down gone s.down_off e,
          )
          v.down;
    up =
        rw (out_other x s.ph gone w.calls p ne v.ph, in_sent p s.ph gone w.calls)
          (ground (arith, v.up));
  }

  -- Bytes received into the empty pipe to the phone.
  pub down_received-IsPiped :
      (fresh : List ℕ) (s : Session) (w : Shared)
      → p ≢ x
      → length s.down ≡ 0
      → IsPiped p x up0 down0 (s, w)
      → let h = down_received fresh s w in IsPiped p x up0 down0 (h.session, h.shared)
  down_received-IsPiped fresh s w ne e v = record {
    ph = ground (arith, v.ph);
    px = ground (arith, v.px);
    down =
        rw
          (
            out_received p s.px fresh w.calls,
            in_received x s.px fresh w.calls v.px,
            pending-down_received fresh s w e,
          )
          (refilled (bytes_out p w.calls) down0 (bytes_in x w.calls) fresh (pending_down s)
            (drop_nil s.down_off s.down e) v.down);
    up =
        rw
          (
            out_received x s.px fresh w.calls,
            in_other p s.px fresh w.calls x (λ q. ne (sym q)) v.px,
          )
          (ground (arith, v.up));
  }
