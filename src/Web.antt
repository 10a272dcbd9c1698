-- ===== src/Web.antt =====
-- The helpers of the pages of main/web_ui.c: the escaping of texts, the decoding of submitted forms, and
-- the list of bookmarks on the start page. A text is the list of its bytes before the NUL.
pub mod Reading
pub mod Forms
pub mod Links
pub mod Posts
mod Tests
use vetera_bridge.Prelude.{
  ℕ, zero, suc, ◌+◌, ◌-◌, ◌*◌, ◌%◌, Bool, ◌&&◌, ◌||◌, Option, none, some, List, [], ◌∷◌, ◌++◌, ltb,
  leb, ◌==◌, if◌then◌else◌, length, take, codes,
}
use vetera_bridge.Bookmarks.Text.{bm_title_max, bm_url_max}
use vetera_bridge.Bookmarks.Store.{Bookmark}

-- What `html_escape` writes for a byte.
abbrev pub entity : ℕ → List ℕ
entity c =
    if c == b'&'
    then codes "&amp;"
    else if c == b'<'
    then codes "&lt;"
    else if c == b'>'
    then codes "&gt;"
    else if c == b'"'
    then codes "&quot;"
    else c ∷ []

-- The loop of `html_escape` into a buffer of `n` bytes, of which `w` are written.
unfoldable pub escape_from : ℕ → ℕ → List ℕ → List ℕ
escape_from n w [] = []
escape_from n w (c ∷ cs) =
    if ltb (w + 7) n then entity c ++ escape_from n (w + length (entity c)) cs else []

abbrev pub html_escape : List ℕ → ℕ → List ℕ
html_escape src n = escape_from n 0 src

unfoldable pub html_escape_len : List ℕ → ℕ
html_escape_len [] = 0
html_escape_len (c ∷ cs) =
    let rest = html_escape_len cs in
    if c == b'&'
    then rest + 5
    else if c == b'<' || c == b'>'
    then rest + 4
    else if c == b'"'
    then rest + 6
    else rest + 1

-- `bm_escape`: the address and the label.
unfoldable pub bm_escape : Bookmark → ℕ → ℕ → List ℕ × List ℕ
bm_escape b url_n title_n =
    let url = html_escape b.url url_n in
    (url, if length b.title == 0 then url else html_escape b.title title_n)

-- `bm_escaped_total`, over what `bookmarks_get` gives at each index.
unfoldable pub bm_escaped_total : List (Option Bookmark) → ℕ
bm_escaped_total [] = 0
bm_escaped_total (none ∷ bs) = bm_escaped_total bs
bm_escaped_total (some b ∷ bs) =
    html_escape_len b.title + html_escape_len b.url + bm_escaped_total bs

-- `page_add`, which `vsnprintf` clips; the page has fewer than `n` bytes.
unfoldable pub page_add : ℕ → List ℕ → List ℕ → List ℕ
page_add n page s = page ++ take (n - 1 - length page) s

abbrev pub row : List ℕ × List ℕ → List ℕ
row (url, label) =
    codes "<a href=\"" ++ url ++ codes "\" style='font-size:120%;'>" ++ label ++ codes "</a><br>"

abbrev pub links_head : List ℕ
links_head = codes "<div style='text-align:left;padding:8px 0;'>"

abbrev pub links_tail : List ℕ
links_tail = codes "</div><hr>"

-- The loop of `bm_render_links`.
unfoldable pub add_rows : ℕ → List ℕ → List (Option Bookmark) → List ℕ
add_rows n page [] = page
add_rows n page (none ∷ bs) = add_rows n page bs
add_rows n page (some b ∷ bs) =
    add_rows n (page_add n page (row (bm_escape b (bm_url_max * 6) (bm_title_max * 6)))) bs

unfoldable pub bm_render_links : ℕ → List (Option Bookmark) → List ℕ
bm_render_links n bs =
    if length bs == 0 then [] else page_add n (add_rows n (page_add n [] links_head) bs) links_tail

-- `isspace`, in the C locale.
abbrev pub is_space : ℕ → Bool
is_space c = c == 32 || leb 9 c && leb c 13

-- A digit to the base of sixteen.
abbrev pub digit : ℕ → Option ℕ
digit c =
    if leb 48 c && leb c 57
    then some (c - 48)
    else if leb 65 c && leb c 70
    then some (c - 55)
    else if leb 97 c && leb c 102
    then some (c - 87)
    else none

abbrev pub or_zero : Option ℕ → ℕ
or_zero none = 0
or_zero (some d) = d

-- `(char)strtol(hex, NULL, 16)` for a text of two bytes: a blank or a sign may stand first.
unfoldable pub hex_byte : ℕ → ℕ → ℕ
hex_byte a b =
    if is_space a || a == b'+'
    then or_zero (digit b)
    else if a == b'-'
    then (256 - or_zero (digit b)) % 256
    else elim (digit a) [ none ↦ 0 | some x ↦ elim (digit b) [ none ↦ x | some y ↦ x * 16 + y ] ]

-- What the loop of `form_decode` makes of the bytes from `c` on: a byte, and how many more it skips.
unfoldable pub decode_at : ℕ → List ℕ → ℕ × ℕ
decode_at c (a ∷ b ∷ rest) =
    if c == b'+' then (b' ', 0) else if c == b'%' then (hex_byte a b, 2) else (c, 0)
decode_at c rest = if c == b'+' then (b' ', 0) else (c, 0)

-- `form_decode` into a buffer with room for so many bytes before the NUL; the first number counts the
-- bytes that are still skipped.
unfoldable pub decode_from : ℕ → ℕ → List ℕ → List ℕ
decode_from skip room [] = []
decode_from (suc skip) room (c ∷ cs) = decode_from skip room cs
decode_from zero zero (c ∷ cs) = []
decode_from zero (suc room) (c ∷ cs) =
    let (x, skip) = decode_at c cs in x ∷ decode_from skip room cs

abbrev pub form_decode : List ℕ → ℕ → List ℕ
form_decode src n = decode_from 0 (n - 1) src
