-- ===== src/Bookmarks/Tests.antt =====
-- The theorems on main/bookmarks.c at concrete bookmarks.
use vetera_bridge.Prelude.{
  ℕ, zero, suc, ◌<◌, ◌≡◌, refl, ◌≢◌, true, Option, none, some, List, ◌∷◌, ◌++◌, arith, codes,
}
use vetera_bridge.Ppp.Handshake.{starts_with, contains}
use vetera_bridge.Bookmarks.Text.{
  skip_blanks, copy_clean, trim_end, sanitize, index_of, are_digits, is_port, is_bare_host,
  with_scheme, normalize_url,
}
use vetera_bridge.Bookmarks.Text.Clean.{IsAddress, normalize_url-IsAddress}
use vetera_bridge.Bookmarks.Store.{Shelf, readable, bookmarks_get, slot_for, bookmarks_set}
use vetera_bridge.Bookmarks.Store.Edits.{all_succeed, bookmarks_get-bookmarks_set}

-- A bare host gets the scheme.
bare_host : normalize_url (codes " frogfind.com") 160 ≡ some (codes "http://frogfind.com")
unfolding normalize_url with_scheme sanitize trim_end copy_clean skip_blanks contains starts_with
    is_bare_host index_of
bare_host = refl

-- A script is no address.
script_refused : normalize_url (codes "javascript:alert(1)") 160 ≡ none
unfolding normalize_url with_scheme sanitize trim_end copy_clean skip_blanks contains starts_with
    is_bare_host index_of is_port are_digits
script_refused = refl

-- A control character before a space keeps the space at the start of a title.
space_kept : sanitize (1 ∷ codes " news") 32 ≡ codes " news"
unfolding sanitize trim_end copy_clean skip_blanks
space_kept = refl

normalize_url-IsAddress_example : IsAddress (codes "http://frogfind.com") 160
normalize_url-IsAddress_example =
    normalize_url-IsAddress (codes " frogfind.com") 160 (codes "http://frogfind.com") bare_host

abbrev stored_text : ℕ → Option (List ℕ)
stored_text zero = some (codes "one" ++ (10 ∷ codes "http://1.org"))
stored_text (suc zero) = some (codes "two" ++ (10 ∷ codes "http://2.org"))
stored_text _ = none

abbrev two_marks : Shelf
two_marks = record { opened = true; count = 2; saved_count = some 2; entry = stored_text }

bookmarks_get-bookmarks_set_example :
    let r = bookmarks_set two_marks none (codes "frog") (codes " frogfind.com") all_succeed in
    (r.1 ≡ true)
    × (bookmarks_get r.0 2
        ≡ some (record { title = sanitize (codes "frog") 32; url = codes "http://frogfind.com" }))
    × (◌≢◌ {A = ℕ} 1 2 → bookmarks_get r.0 1 ≡ bookmarks_get two_marks 1)
unfolding slot_for
bookmarks_get-bookmarks_set_example =
    bookmarks_get-bookmarks_set two_marks none (codes "frog") (codes " frogfind.com")
      (codes "http://frogfind.com") 2 1 refl bare_host refl

two_marks_readable :
    (m : ℕ) → m < 2 → (readable (stored_text m) ≡ stored_text m) × (stored_text m ≢ none)
two_marks_readable zero h = (refl, λ e. cc)
two_marks_readable (suc zero) h = (refl, λ e. cc)
two_marks_readable (suc (suc m)) h = absurd (omega (arith, h))
