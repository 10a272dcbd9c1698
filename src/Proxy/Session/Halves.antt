-- ===== src/Proxy/Session/Halves.antt =====
-- What one half of the copying in main/http_proxy.c can do, as a rule for predicates.
use vetera_bridge.Prelude.{
  ℕ, zero, suc, ◌+◌, ◌≤◌, ◌≡◌, refl, ap, ◌⊎◌, inl, inr, not, ◌&&◌, List, [], ◌∷◌, arith, ltb, ◌==◌,
  if_cases, length, take, drop, length-take, length-drop,
}
use vetera_bridge.Proxy.Session.{
  up_sz, down_sz, Stage, head, connecting, reply, splicing, Session, Shared, Recv, got, got_nothing,
  got_error, Send, took, took_nothing, took_error, Answers, sess_close,
}
use vetera_bridge.Proxy.Session.Splice.{
  Half, still, end_half, up_sent, send_up, up_received, receive_up, splice_up, down_sent, send_down,
  down_received, receive_down, splice_down,
}

length-taken :
    (k off : ℕ) (xs : List ℕ) → off ≤ length xs → off + length (take k (drop off xs)) ≤ length xs
length-taken k off xs h = omega (arith, length-take k (drop off xs), length-drop off xs)

take-length : (k : ℕ) (xs : List ℕ) → take (length (take k xs)) xs ≡ take k xs
take-length zero xs = refl
take-length (suc k) [] = refl
take-length (suc k) (x ∷ xs) = ap (λ l. x ∷ l) (take-length k xs)

Send-cases : (t : Send) → (t ≡ took_error) ⊎ ((t ≡ took_nothing) ⊎ ((k : ℕ) × (t ≡ took k)))
Send-cases (took k) = inr (inr (k, refl))
Send-cases took_nothing = inr (inl refl)
Send-cases took_error = inl refl

pub Recv-cases : (t : Recv) → (t ≡ got_error) ⊎ ((t ≡ got_nothing) ⊎ ((bs : List ℕ) × (t ≡ got bs)))
Recv-cases (got bs) = inr (inr (bs, refl))
Recv-cases got_nothing = inr (inl refl)
Recv-cases got_error = inl refl

pub Stage-cases : (t : Stage) → (t ≡ head) ⊎ ((t ≡ connecting) ⊎ ((t ≡ reply) ⊎ (t ≡ splicing)))
Stage-cases head = inl refl
Stage-cases connecting = inr (inl refl)
Stage-cases reply = inr (inr (inl refl))
Stage-cases splicing = inr (inr (inr refl))

module _ (P : Half → Type 0) (io : Answers) (s : Session) (w : Shared) where
  pub splice_up_cases :
      P (end_half (sess_close io s w))
      → P (still s w)
      → ((gone : List ℕ)
          → s.up_off + length gone ≤ length s.up
          → take (length gone) (drop s.up_off s.up) ≡ gone
          → P (up_sent gone s w))
      → ((fresh : List ℕ) → length s.up ≡ 0 → length fresh ≤ up_sz → P (up_received fresh s w))
      → P (splice_up io s w)
  unfolding splice_up send_up receive_up sess_close
  splice_up_cases ends stays sends_on receives_on =
      if_cases P (ltb s.up_off (length s.up) && io.px_writable)
        (λ c. elim (Send-cases io.send_px) [
          | inl e ↦ rw e ends
          | inr (inl e) ↦ rw e stays
          | inr (inr (k, e)) ↦ rw e (
              sends_on (take k (drop s.up_off s.up))
                (length-taken k s.up_off s.up (ground (arith, c)))
                (take-length k (drop s.up_off s.up)))
        ])
        (λ _.
          if_cases P (length s.up == 0 && not s.ph_eof && io.ph_readable)
            (λ c. elim (Recv-cases io.recv_ph) [
              | inl e ↦ rw e ends
              | inr (inl e) ↦ rw e stays
              | inr (inr (bs, e)) ↦ rw e (
                  receives_on (take up_sz bs) (ground (arith, c))
                    (omega (arith, length-take up_sz bs)))
            ])
            (λ _. stays))

  pub splice_down_cases :
      P (end_half (sess_close io s w))
      → P (still s w)
      → ((gone : List ℕ)
          → s.down_off + length gone ≤ length s.down
          → take (length gone) (drop s.down_off s.down) ≡ gone
          → P (down_sent gone s w))
      → ((fresh : List ℕ)
          → length s.down ≡ 0
          → length fresh ≤ down_sz
          → P (down_received fresh s w))
      → P (splice_down io s w)
  unfolding splice_down send_down receive_down sess_close
  splice_down_cases ends stays sends_on receives_on =
      if_cases P (ltb s.down_off (length s.down) && io.ph_writable)
        (λ c. elim (Send-cases io.send_ph) [
          | inl e ↦ rw e ends
          | inr (inl e) ↦ rw e stays
          | inr (inr (k, e)) ↦ rw e (
              sends_on (take k (drop s.down_off s.down))
                (length-taken k s.down_off s.down (ground (arith, c)))
                (take-length k (drop s.down_off s.down)))
        ])
        (λ _.
          if_cases P (length s.down == 0 && not s.px_eof && io.px_readable)
            (λ c. elim (Recv-cases io.recv_px) [
              | inl e ↦ rw e ends
              | inr (inl e) ↦ rw e stays
              | inr (inr (bs, e)) ↦ rw e (
                  receives_on (take down_sz bs) (ground (arith, c))
                    (omega (arith, length-take down_sz bs)))
            ])
            (λ _. stays))
