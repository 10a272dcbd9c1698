-- ===== src/Web/Tests.antt =====
-- The helpers of main/web_ui.c on concrete texts.
use vetera_bridge.Prelude.{
  ℕ, ◌+◌, ◌*◌, ◌≡◌, refl, Bool, true, false, if◌then◌else◌, bytes_eq, Option, none, some, List, [],
  ◌∷◌, ◌++◌, arith, ltb, length, replicate, codes,
}
use vetera_bridge.Bookmarks.Store.{Bookmark}
use vetera_bridge.Proxy.Sni.{c_string}
use vetera_bridge.Web.{
  decode_from, decode_at, hex_byte, escape_from, html_escape_len, bm_escape, bm_escaped_total,
  links_head, links_tail, bm_render_links, form_decode,
}
use vetera_bridge.Web.Reading.{read_from, is_inert, bm_escape_lem}
use vetera_bridge.Web.Forms.{is_text, form_encode, form_decode-form_encode}
use vetera_bridge.Gateway
use vetera_bridge.Web.Posts.{Received, piece, timed_out, recv_body, whole}
use vetera_bridge.Web.Posts.Submitted.{sends_nil, sends_later, sends_piece, recv_body_lem}
use vetera_bridge.Web.Links.{
  AllTitled, titled_nil, titled_skip, titled_keep, rows, bm_render_links_lem,
}

abbrev search_page : Bookmark
search_page = record { title = codes "A & B <new>"; url = codes "http://a.b/?x=\"1\"&y=2" }

bm_escape_lem_example :
    let shown = bm_escape search_page 960 192 in
    (read_from 0 shown.0 ≡ codes "http://a.b/?x=\"1\"&y=2")
    × (read_from 0 shown.1 ≡ codes "A & B <new>")
    × (is_inert shown.0 ≡ true)
    × (is_inert shown.1 ≡ true)
    × (length shown.0 ≡ html_escape_len search_page.url)
bm_escape_lem_example = bm_escape_lem search_page (omega arith) (omega arith)

form_decode-form_encode_example :
    form_decode (form_encode (codes "Tom & Jerry 100%")) 17 ≡ codes "Tom & Jerry 100%"
form_decode-form_encode_example =
    form_decode-form_encode (codes "Tom & Jerry 100%") 17 (unfold is_text in refl) (omega arith)

abbrev two_links : List (Option Bookmark)
two_links = some search_page ∷ none ∷ []

two_links-AllTitled : AllTitled two_links
two_links-AllTitled = titled_keep (omega arith) (omega arith) (omega arith) (titled_skip titled_nil)

bm_render_links_lem_example :
    bm_render_links 400 two_links ≡ links_head ++ rows two_links ++ links_tail
bm_render_links_lem_example =
    bm_render_links_lem 400 two_links two_links-AllTitled (omega arith)
      (unfold bm_escaped_total html_escape_len in omega arith)

abbrev cut_up : List Received
cut_up = piece (codes "name=Ve") ∷ timed_out ∷ piece (codes "tera") ∷ []

recv_body_lem_example : recv_body 11 128 cut_up ≡ whole (codes "name=Vetera")
recv_body_lem_example =
    recv_body_lem 11 128 cut_up (codes "name=Vetera")
      (sends_piece _ (codes "ame=Ve") (sends_later (sends_piece _ (codes "era") sends_nil)))
      (omega arith)

-- An address of ampersands with no title, which stands twice in its row and is counted once.
abbrev untitled : Bookmark
untitled = record { title = []; url = codes "http://" ++ replicate 150 b'&' }

-- Five of them do not fit in the whole page, which is 3072 bytes, the lengths that are counted, and
-- 64 bytes for each.
untitled_clipped :
    let links = replicate 5 (some untitled) in
    ltb (3072 + bm_escaped_total links + 64 * 5) (length (links_head ++ rows links ++ links_tail))
    ≡ true
unfolding bm_escaped_total html_escape_len rows bm_escape escape_from
untitled_clipped = refl

-- The form of the page for networks: each key has its value, which fits its buffer.
abbrev home_form : List ℕ → List ℕ → ℕ → Bool × List ℕ
home_form buf key size =
    if bytes_eq key (codes "ssid")
    then (true, form_encode (codes "Home & Co"))
    else if bytes_eq key (codes "pass")
    then (true, form_encode (codes "p=1"))
    else (false, [])

-- A NUL that is submitted ends the text.
nul_ends : c_string (form_decode (codes "a%00b") 64) ≡ codes "a"
unfolding decode_from decode_at hex_byte c_string
nul_ends = refl
