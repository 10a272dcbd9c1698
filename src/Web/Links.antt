-- ===== src/Web/Links.antt =====
-- The size of the list of bookmarks on the start page of main/web_ui.c.
use vetera_bridge.Prelude.{
  ℕ, ◌+◌, ◌-◌, ◌*◌, ◌≤◌, ◌<◌, ◌≡◌, sym, ap, ap₂, ◌∙◌, Option, none, some, List, [], ◌∷◌, ◌++◌,
  append-nil, append_assoc, arith, ==_of_ne, length, length-append, take_of_le, codes,
}
use vetera_bridge.Bookmarks.Text.{bm_title_max, bm_url_max}
use vetera_bridge.Bookmarks.Store.{Bookmark}
use vetera_bridge.Web.{
  html_escape, html_escape_len, bm_escape, bm_escaped_total, page_add, row, links_head, links_tail,
  add_rows, bm_render_links,
}
use vetera_bridge.Web.Reading.{length-escape_from}

-- The bookmarks that can be read have a title, and texts that fit their fields.
pub data AllTitled : List (Option Bookmark) → Type 0 where
  titled_nil : AllTitled []
  titled_skip : {bs : List (Option Bookmark)} → AllTitled bs → AllTitled (none ∷ bs)
  titled_keep :
      {b : Bookmark} {bs : List (Option Bookmark)}
      → 0 < length b.title
      → length b.title < bm_title_max
      → length b.url < bm_url_max
      → AllTitled bs
      → AllTitled (some b ∷ bs)

-- The rows, with nothing clipped.
unfoldable pub rows : List (Option Bookmark) → List ℕ
rows [] = []
rows (none ∷ bs) = rows bs
rows (some b ∷ bs) = row (bm_escape b (bm_url_max * 6) (bm_title_max * 6)) ++ rows bs

page_add_fits :
    (n : ℕ) (page s : List ℕ) → length page + length s < n → page_add n page s ≡ page ++ s
unfolding page_add
page_add_fits n page s fits = ap (λ t. page ++ t) (take_of_le (n - 1 - length page) s (omega arith))

length-row : (url label : List ℕ) → length (row (url, label)) ≡ 43 + length url + length label
length-row url label =
    let start = codes "<a href=\"" in
    let between = codes "\" style='font-size:120%;'>" in
    let close = codes "</a><br>" in
    omega (
      arith,
      length-append start url,
      length-append (start ++ url) between,
      length-append (start ++ url ++ between) label,
      length-append (start ++ url ++ between ++ label) close,
    )

length-row_of :
    (b : Bookmark)
    → 0 < length b.title
    → length b.title < bm_title_max
    → length b.url < bm_url_max
    → length (row (bm_escape b (bm_url_max * 6) (bm_title_max * 6)))
      ≡ 43 + html_escape_len b.url + html_escape_len b.title
unfolding bm_escape
length-row_of b some_title title url =
    let url_len = length-escape_from 960 0 b.url (omega arith) in
    let title_len = length-escape_from 192 0 b.title (omega arith) in
    rw (==_of_ne (length b.title) 0 (λ e. omega arith)) (
      length-row (html_escape b.url 960) (html_escape b.title 192)
      ∙ ap₂ (λ u l. 43 + u + l) url_len title_len)

length-rows :
    (bs : List (Option Bookmark))
    → AllTitled bs
    → length (rows bs) ≤ bm_escaped_total bs + 64 * length bs
unfolding rows bm_escaped_total
length-rows [] titled_nil = omega arith
length-rows (none ∷ bs) (titled_skip t) = omega (arith, length-rows bs t)
length-rows (some b ∷ bs) (titled_keep h title url t) =
    let one = length-row_of b h title url in
    let whole = length-append (row (bm_escape b (bm_url_max * 6) (bm_title_max * 6))) (rows bs) in
    omega (arith, length-rows bs t)

add_rows_fits :
    (n : ℕ) (page : List ℕ) (bs : List (Option Bookmark))
    → length page + length (rows bs) < n
    → add_rows n page bs ≡ page ++ rows bs
unfolding add_rows rows
add_rows_fits n page [] fits = sym (append-nil page)
add_rows_fits n page (none ∷ bs) fits = add_rows_fits n page bs fits
add_rows_fits n page (some b ∷ bs) fits =
    let one = row (bm_escape b (bm_url_max * 6) (bm_title_max * 6)) in
    let whole = length-append one (rows bs) in
    let longer = length-append page one in
    rw (page_add_fits n page one (omega arith))
      (add_rows_fits n (page ++ one) bs (omega arith) ∙ append_assoc page one (rows bs))

-- With 64 bytes for each bookmark and 64 more, beside the lengths that the page counts, no link of the
-- start page is clipped, if every bookmark that can be read has a title.
pub bm_render_links_lem :
    (n : ℕ) (bs : List (Option Bookmark))
    → AllTitled bs
    → 0 < length bs
    → bm_escaped_total bs + 64 * length bs + 64 < n
    → bm_render_links n bs ≡ links_head ++ rows bs ++ links_tail
unfolding bm_render_links
bm_render_links_lem n bs titled more fits =
    let short = length-rows bs titled in
    let begun = length-append links_head (rows bs) in
    rw
      (
        ==_of_ne (length bs) 0 (λ e. omega arith),
        page_add_fits n [] links_head (omega arith),
        add_rows_fits n links_head bs (omega arith),
        page_add_fits n (links_head ++ rows bs) links_tail (omega arith),
      )
      (append_assoc links_head (rows bs) links_tail)
