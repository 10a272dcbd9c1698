-- ===== src/Web/Forms.antt =====
-- The forms that a browser submits to main/web_ui.c.
use vetera_bridge.Prelude.{
  ℕ, zero, suc, ◌+◌, ◌-◌, ◌/◌, ◌%◌, ◌≤◌, ◌<◌, ◌≡◌, refl, ap, ◌∙◌, Bool, true, ◌&&◌, ◌||◌, List, [],
  ◌∷◌, ◌++◌, arith, ltb, leb, ◌==◌, if◌then◌else◌, ltb→lt, ==→eq, if_cases, all_below, all_below→eq,
  length,
}
use vetera_bridge.Proxy.Sni.{c_string}
use vetera_bridge.Web.{hex_byte, decode_at, decode_from, form_decode}

-- The digit of a value below sixteen.
abbrev upper : ℕ → ℕ
upper d = if ltb d 10 then d + 48 else d + 55

-- What a browser leaves as it is: letters, digits, and `*-._`.
abbrev is_plain : ℕ → Bool
is_plain c =
    leb 48 c && leb c 57
    || leb 65 c && leb c 90
    || leb 97 c && leb c 122
    || c == b'*'
    || c == b'-'
    || c == b'.'
    || c == b'_'

abbrev encoded : ℕ → List ℕ
encoded c =
    if is_plain c
    then c ∷ []
    else if c == b' '
    then b'+' ∷ []
    else b'%' ∷ upper (c / 16) ∷ upper (c % 16) ∷ []

-- A text of bytes, with no NUL in it.
unfoldable pub is_text : List ℕ → Bool
is_text [] = true
is_text (c ∷ cs) = ltb 0 c && ltb c 256 && is_text cs

-- A form's value as a browser submits it, application/x-www-form-urlencoded.
unfoldable pub form_encode : List ℕ → List ℕ
form_encode [] = []
form_encode (c ∷ cs) = encoded c ++ form_encode cs

hex_upper : (c : ℕ) → c < 256 → hex_byte (upper (c / 16)) (upper (c % 16)) ≡ c
hex_upper c h = ==→eq _ _ (
    all_below→eq 256 (λ c. hex_byte (upper (c / 16)) (upper (c % 16)) == c) c
      (unfold all_below hex_byte in refl) h)

plain_at : (c : ℕ) (cs : List ℕ) → is_plain c ≡ true → decode_at c cs ≡ (c, 0)
unfolding decode_at
plain_at c [] h = ground (arith, h)
plain_at c (a ∷ []) h = ground (arith, h)
plain_at c (a ∷ b ∷ cs) h = ground (arith, h)

plus_at : (cs : List ℕ) → decode_at b'+' cs ≡ (b' ', 0)
unfolding decode_at
plus_at [] = refl
plus_at (a ∷ []) = refl
plus_at (a ∷ b ∷ cs) = refl

decode_encoded :
    (c room : ℕ) (cs : List ℕ)
    → c < 256
    → decode_from 0 (suc room) (encoded c ++ cs) ≡ c ∷ decode_from 0 room cs
unfolding decode_from decode_at
decode_encoded c room cs h =
    if_cases (λ e. decode_from 0 (suc room) (e ++ cs) ≡ c ∷ decode_from 0 room cs) (is_plain c)
      (λ p. rw (plain_at c cs p) refl)
      (λ _.
        if_cases (λ e. decode_from 0 (suc room) (e ++ cs) ≡ c ∷ decode_from 0 room cs) (c == b' ')
          (λ e. (rw (==→eq c b' ' e, plus_at cs) refl)) (λ _. (rw (hex_upper c h) refl)))

decode_all :
    (room : ℕ) (s : List ℕ)
    → is_text s ≡ true
    → length s ≤ room
    → decode_from 0 room (form_encode s) ≡ s
unfolding form_encode is_text
decode_all room [] bytes fits = unfold decode_from in refl
decode_all zero (c ∷ cs) bytes fits = absurd (omega arith)
decode_all (suc room) (c ∷ cs) bytes fits =
    let one : ltb c 256 ≡ true = ground (arith, bytes) in
    let more : is_text cs ≡ true = ground (arith, bytes) in
    decode_encoded c room (form_encode cs) (ltb→lt c 256 one)
    ∙ ap (λ t. c ∷ t) (decode_all room cs more (omega arith))

-- The text that a decoded buffer holds is the whole of it.
c_string_text : (s : List ℕ) → is_text s ≡ true → c_string s ≡ s
unfolding is_text c_string
c_string_text [] h = refl
c_string_text (c ∷ cs) h =
    let more : is_text cs ≡ true = ground (arith, h) in ground (arith, c_string_text cs more, h)

-- What a browser encodes of a text of bytes is decoded to that text, in a buffer with room for it and its
-- NUL, however much longer the encoding is.
pub form_decode-form_encode :
    (s : List ℕ) (n : ℕ) → is_text s ≡ true → length s < n → form_decode (form_encode s) n ≡ s
form_decode-form_encode s n bytes fits = decode_all (n - 1) s bytes (omega arith)

-- So is the C string in the buffer.
pub c_string-form_decode :
    (s : List ℕ) (n : ℕ)
    → is_text s ≡ true
    → length s < n
    → c_string (form_decode (form_encode s) n) ≡ s
c_string-form_decode s n text fits =
    ap c_string (form_decode-form_encode s n text fits) ∙ c_string_text s text
