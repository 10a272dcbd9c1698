-- ===== src/Web/Posts/Submitted.antt =====
-- What a browser submits to main/web_ui.c arrives whole, and a network is saved as it was typed.
use vetera_bridge.Prelude.{
  ℕ, zero, suc, ◌-◌, ◌≤◌, ◌≡◌, refl, sym, ap, ◌∙◌, inl, inr, List, [], ◌∷◌, ◌++◌, arith, ltb,
  ltb→lt, ltb_false→le, Bool-cases, length, take, length-append, length-take, take_of_le,
}
use vetera_bridge.Gateway.{Gateway}
use vetera_bridge.Web.Posts.{Received, piece, timed_out, broken, whole, recv_from, recv_body}

-- Pieces and timeouts, with the bytes of the pieces in order.
pub data Sends : List Received → List ℕ → Type 0 where
  sends_nil : Sends [] []
  sends_later : {rs : List Received} {bs : List ℕ} → Sends rs bs → Sends (timed_out ∷ rs) bs
  sends_piece :
      {rs : List Received} {bs : List ℕ} (c : ℕ) (q : List ℕ)
      → Sends rs bs
      → Sends (piece (c ∷ q) ∷ rs) (c ∷ q ++ bs)

take-over : (k : ℕ) (p bs : List ℕ) → take k (p ++ bs) ≡ take k p ++ take (k - length (take k p)) bs
take-over zero p bs = refl
take-over (suc k) [] bs = let same : suc k ≡ suc k - 0 = omega arith in ap (λ j. take j bs) same
take-over (suc k) (x ∷ p) bs =
    let same : k - length (take k p) ≡ suc k - suc (length (take k p)) = omega arith in
    ap (λ l. x ∷ l) (take-over k p bs ∙ ap (λ j. take k p ++ take j bs) same)

recv_from_lem :
    (left : ℕ) (rs : List Received) (bs : List ℕ)
    → Sends rs bs
    → left ≤ length bs
    → recv_from left rs ≡ whole (take left bs)
unfolding recv_from
recv_from_lem zero rs bs s h = refl
recv_from_lem (suc left) [] _ sends_nil h = absurd (omega arith)
recv_from_lem (suc left) (timed_out ∷ rs) bs (sends_later s) h = recv_from_lem (suc left) rs bs s h
recv_from_lem (suc left) (broken ∷ rs) bs s h = elim s [ ]
recv_from_lem (suc left) (piece [] ∷ rs) bs s h = elim s [ ]
recv_from_lem (suc left) (piece (b ∷ p) ∷ rs) _ (sends_piece {bs = bs} _ _ s) h =
    let size = length-append p bs in
    let got = length-take left p in
    rw (recv_from_lem (left - length (take left p)) rs bs s (omega arith), take-over left p bs) refl

-- However a body is cut into pieces, and whatever timeouts come between, the page gets it whole, up to one
-- byte fewer than its buffer has, if the pieces hold as many bytes as the request says.
pub recv_body_lem :
    (content_len size : ℕ) (rs : List Received) (bs : List ℕ)
    → Sends rs bs
    → length bs ≡ content_len
    → recv_body content_len size rs ≡ whole (take (size - 1) bs)
unfolding recv_body
recv_body_lem content_len size rs bs s len = elim (Bool-cases (ltb (size - 1) content_len)) [
  | inl e ↦ rw e (recv_from_lem (size - 1) rs bs s (omega (arith, ltb→lt _ _ e)))
  | inr e ↦ rw e (
      recv_from_lem content_len rs bs s (omega arith)
      ∙ ap whole (
          take_of_le content_len bs (omega arith)
          ∙ sym (take_of_le (size - 1) bs (omega (arith, ltb_false→le _ _ e)))))
]
