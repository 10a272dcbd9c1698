-- ===== src/Web/Reading.antt =====
-- What a reader of HTML makes of the texts that main/web_ui.c escapes.
use vetera_bridge.Prelude.{
  ℕ, zero, suc, ◌+◌, ◌*◌, ◌≤◌, ◌<◌, ◌≡◌, refl, sym, ap, ◌∙◌, subst, inl, inr, Bool, true, false,
  not, ◌&&◌, ◌||◌, List, [], ◌∷◌, ◌++◌, arith, ltb, ◌==◌, if◌then◌else◌, lt→ltb, ==→eq, Bool-cases,
  if_cases, length, length-append, codes,
}
use vetera_bridge.Bookmarks.Text.{bm_title_max, bm_url_max}
use vetera_bridge.Bookmarks.Store.{Bookmark}
use vetera_bridge.Web.{entity, escape_from, html_escape_len, bm_escape}

unfoldable pub begins : List ℕ → List ℕ → Bool
begins [] cs = true
begins (x ∷ xs) [] = false
begins (x ∷ xs) (c ∷ cs) = x == c && begins xs cs

-- The character that stands after an ampersand, and how many bytes name it; an ampersand that begins no
-- such name stands for itself.
unfoldable pub named : List ℕ → ℕ × ℕ
named cs =
    if begins (codes "amp;") cs
    then (b'&', 4)
    else if begins (codes "lt;") cs
    then (b'<', 3)
    else if begins (codes "gt;") cs
    then (b'>', 3)
    else if begins (codes "quot;") cs
    then (b'"', 5)
    else (b'&', 0)

-- The text that a reader of HTML sees; the number counts the bytes that it still skips.
unfoldable pub read_from : ℕ → List ℕ → List ℕ
read_from skip [] = []
read_from (suc skip) (c ∷ cs) = read_from skip cs
read_from zero (c ∷ cs) =
    let (x, skip) = (if c == b'&' then named cs else (c, 0)) in x ∷ read_from skip cs

-- No byte opens a tag or closes the quotes of an attribute.
unfoldable pub is_inert : List ℕ → Bool
is_inert [] = true
is_inert (c ∷ cs) = not (c == b'<' || c == b'>' || c == b'"') && is_inert cs

-- A byte is one of the four that are replaced, or none of them.
entity_cases :
    (c : ℕ) (P : ℕ → List ℕ → Type 0)
    → P b'&' (codes "&amp;")
    → P b'<' (codes "&lt;")
    → P b'>' (codes "&gt;")
    → P b'"' (codes "&quot;")
    → ((c == b'&') ≡ false
        → (c == b'<') ≡ false
        → (c == b'>') ≡ false
        → (c == b'"') ≡ false
        → P c (c ∷ []))
    → P c (entity c)
entity_cases c P amp lt gt quot other =
    if_cases (P c) (c == b'&') (λ e. subst (λ d. P d (codes "&amp;")) (sym (==→eq c b'&' e)) amp)
      (λ n1.
        if_cases (P c) (c == b'<') (λ e. subst (λ d. P d (codes "&lt;")) (sym (==→eq c b'<' e)) lt)
          (λ n2.
            if_cases (P c) (c == b'>')
              (λ e. subst (λ d. P d (codes "&gt;")) (sym (==→eq c b'>' e)) gt)
              (λ n3.
                if_cases (P c) (c == b'"')
                  (λ e. subst (λ d. P d (codes "&quot;")) (sym (==→eq c b'"' e)) quot)
                  (λ n4. other n1 n2 n3 n4))))

read_entity : (c : ℕ) (cs : List ℕ) → read_from 0 (entity c ++ cs) ≡ c ∷ read_from 0 cs
unfolding read_from named begins
read_entity c cs =
    entity_cases c (λ d e. read_from 0 (e ++ cs) ≡ d ∷ read_from 0 cs) refl refl refl refl
      (λ n1 n2 n3 n4. rw n1 refl)

inert_entity : (c : ℕ) (cs : List ℕ) → is_inert cs ≡ true → is_inert (entity c ++ cs) ≡ true
unfolding is_inert
inert_entity c cs h =
    entity_cases c (λ d e. is_inert (e ++ cs) ≡ true) h h h h (λ n1 n2 n3 n4. rw (n2, n3, n4) h)

length-entity :
    (c : ℕ) (cs : List ℕ) → html_escape_len (c ∷ cs) ≡ length (entity c) + html_escape_len cs
unfolding html_escape_len
length-entity c cs =
    entity_cases c (λ d e. html_escape_len (d ∷ cs) ≡ length e + html_escape_len cs) (omega arith)
      (omega arith) (omega arith) (omega arith) (λ n1 n2 n3 n4. rw (n1, n2, n3, n4) (omega arith))

short_entity : (c : ℕ) → length (entity c) ≤ 6
short_entity c =
    entity_cases c (λ d e. length e ≤ 6) (omega arith) (omega arith) (omega arith) (omega arith)
      (λ n1 n2 n3 n4. omega arith)

pub escape_from-is_inert : (n w : ℕ) (src : List ℕ) → is_inert (escape_from n w src) ≡ true
unfolding escape_from
escape_from-is_inert n w [] = unfold is_inert in refl
escape_from-is_inert n w (c ∷ cs) =
    if_cases (λ e. is_inert e ≡ true) (ltb (w + 7) n)
      (λ _. inert_entity c _ (escape_from-is_inert n (w + length (entity c)) cs))
      (λ _. unfold is_inert in refl)

pub read_from-escape_from :
    (n w : ℕ) (src : List ℕ) → length src * 6 + w + 2 ≤ n → read_from 0 (escape_from n w src) ≡ src
unfolding escape_from
read_from-escape_from n w [] fits = unfold read_from in refl
read_from-escape_from n w (c ∷ cs) fits =
    let short = short_entity c in
    rw (lt→ltb (w + 7) n (omega arith)) (
      read_entity c _
      ∙ ap (λ t. c ∷ t) (read_from-escape_from n (w + length (entity c)) cs (omega arith)))

pub length-escape_from :
    (n w : ℕ) (src : List ℕ)
    → length src * 6 + w + 2 ≤ n
    → length (escape_from n w src) ≡ html_escape_len src
unfolding escape_from
length-escape_from n w [] fits = unfold html_escape_len in refl
length-escape_from n w (c ∷ cs) fits =
    let short = short_entity c in
    rw (lt→ltb (w + 7) n (omega arith)) (
      length-append (entity c) _
      ∙ ap (λ l. length (entity c) + l)
          (length-escape_from n (w + length (entity c)) cs (omega arith))
      ∙ sym (length-entity c cs))

-- A bookmark whose texts fit their fields is shown as it is: a reader of HTML sees its address in the link,
-- and its title as the label, or the address where there is no title. Neither text opens a tag or
-- closes the quotes of the link, and the address has the length that the page counts for it.
pub bm_escape_lem :
    (b : Bookmark)
    → length b.url < bm_url_max
    → length b.title < bm_title_max
    → let shown = bm_escape b (bm_url_max * 6) (bm_title_max * 6) in
      (read_from 0 shown.0 ≡ b.url)
      × (read_from 0 shown.1 ≡ (if length b.title == 0 then b.url else b.title))
      × (is_inert shown.0 ≡ true)
      × (is_inert shown.1 ≡ true)
      × (length shown.0 ≡ html_escape_len b.url)
unfolding bm_escape
bm_escape_lem b url title =
    let seen = read_from-escape_from 960 0 b.url (omega arith) in
    (
      seen,
      elim (Bool-cases (length b.title == 0)) [
        | inl e ↦ rw e seen
        | inr e ↦ rw e (read_from-escape_from 192 0 b.title (omega arith))
      ],
      escape_from-is_inert 960 0 b.url,
      if_cases (λ e. is_inert e ≡ true) (length b.title == 0)
          (λ _. escape_from-is_inert 960 0 b.url) (λ _. escape_from-is_inert 192 0 b.title),
      length-escape_from 960 0 b.url (omega arith),
    )
