-- ===== src/Bookmarks/Store.antt =====
-- The bookmarks in flash (main/bookmarks.c). The flash is a map from an entry's number to its text,
-- and the saved count; whether a call of it succeeds comes with the operation, and a call that
-- fails writes nothing. A negative index is `none` where it means "append", and out of range
-- elsewhere.
pub mod Edits
use vetera_bridge.Prelude.{
  ℕ, zero, suc, ◌+◌, ◌-◌, Bool, true, false, not, ◌&&◌, ◌||◌, Option, none, some, List, [], ◌∷◌,
  ◌++◌, ltb, leb, ◌==◌, if◌then◌else◌, length, take,
}
use vetera_bridge.Proxy.Settings.{strlcpy}
use vetera_bridge.Bookmarks.Text.{sanitize, bm_title_max, bm_url_max, normalize_url}

abbrev pub bm_max : ℕ
bm_max = 24

abbrev pub bm_raw_max : ℕ
bm_raw_max = bm_title_max + bm_url_max

pub record Shelf : Type 0 where
  pub opened : Bool  -- `bm_nvs != 0`
  pub count : ℕ  -- `bm_count`
  pub saved_count : Option ℕ  -- "bmc", uint8
  pub entry : ℕ → Option (List ℕ)  -- "bm00" and so on

-- `bookmark_t`
pub record Bookmark : Type 0 where
  pub title : List ℕ
  pub url : List ℕ

-- What `bookmarks_init` finds in flash.
abbrev pub count_of : Option ℕ → ℕ
count_of none = 0
count_of (some c) = if ltb bm_max c then bm_max else c

unfoldable pub bookmarks_init : Shelf → Bool → Shelf
bookmarks_init s ok =
    if ok
    then record s { opened = true; count = count_of s.saved_count }
    else record s { opened = false }

-- `raw_read`: a text that does not fit the buffer is not read.
abbrev pub readable : Option (List ℕ) → Option (List ℕ)
readable none = none
readable (some raw) = if ltb (length raw) bm_raw_max then some raw else none

-- `raw_write`
abbrev pub write_at : (ℕ → Option (List ℕ)) → ℕ → Option (List ℕ) → ℕ → Option (List ℕ)
write_at entry i v j = if j == i then v else entry j

-- The text up to the first newline, and what follows it.
unfoldable pub split_line : List ℕ → Option (List ℕ × List ℕ)
split_line [] = none
split_line (b ∷ bs) =
    if b == 10
    then some ([], bs)
    else elim (split_line bs) [ none ↦ none | some (front, rest) ↦ some (b ∷ front, rest) ]

abbrev pub read_as : Option (List ℕ × List ℕ) → List ℕ → Bookmark
read_as none raw = record { title = []; url = strlcpy raw bm_url_max }
read_as (some (front, rest)) raw = record {
  title = strlcpy front bm_title_max;
  url = strlcpy rest bm_url_max;
}

-- `bookmarks_get`
unfoldable pub parse_entry : Option (List ℕ) → Option Bookmark
parse_entry none = none
parse_entry (some raw) =
    let b = read_as (split_line raw) raw in if length b.url == 0 then none else some b

unfoldable pub bookmarks_get : Shelf → ℕ → Option Bookmark
bookmarks_get s i =
    if not s.opened || not (ltb i s.count) then none else parse_entry (readable (s.entry i))

-- The slot that `bookmarks_set` writes.
unfoldable pub slot_for : ℕ → Option ℕ → Option ℕ
slot_for count none = if leb bm_max count then none else some count
slot_for count (some i) = if leb count i then none else some i

abbrev pub is_append : Option ℕ → Bool
is_append none = true
is_append (some i) = false

abbrev pub entry_text : List ℕ → List ℕ → List ℕ
entry_text title url = take (bm_raw_max - 1) (title ++ (10 ∷ url))

-- Which of the calls of the flash succeed.
pub record Calls : Type 0 where
  pub raw_ok : Bool
  pub count_ok : Bool
  pub commit_ok : Bool

-- The writes: the entry first, then the count.
unfoldable pub save_entry : Shelf → ℕ → Bool → List ℕ → Calls → Shelf × Bool
save_entry s i append raw calls =
    let written = record s { entry = write_at s.entry i (some raw) } in
    let counted = if append then record written { saved_count = some (i + 1) } else written in
    if not calls.raw_ok
    then (s, false)
    else if append && not calls.count_ok
    then (written, false)
    else if calls.commit_ok
    then (if append then record counted { count = i + 1 } else counted, true)
    else (counted, false)

-- `bookmarks_set`, with whether it saved.
unfoldable pub bookmarks_set : Shelf → Option ℕ → List ℕ → List ℕ → Calls → Shelf × Bool
bookmarks_set s index title url calls =
    if not s.opened then (s, false) else elim (normalize_url url bm_url_max) [
      | none ↦ (s, false)
      | some clean_url ↦ elim (slot_for s.count index) [
        | none ↦ (s, false)
        | some i ↦
            save_entry s i (is_append index) (entry_text (sanitize title bm_title_max) clean_url)
              calls
      ]
    ]

-- Whether the next write succeeds; a list that ends stands for success.
abbrev pub next_ok : List Bool → Bool
next_ok [] = true
next_ok (ok ∷ oks) = ok

abbrev pub later_oks : List Bool → List Bool
later_oks [] = []
later_oks (ok ∷ oks) = oks

-- The loop of `bookmarks_remove` for `n` slots from `j` on, with whether every write succeeded.
unfoldable pub shift : ℕ → ℕ → (ℕ → Option (List ℕ)) → List Bool → (ℕ → Option (List ℕ)) × Bool
shift zero j entry oks = (entry, true)
shift (suc n) j entry oks = elim (readable (entry (suc j))) [
  | none ↦ shift n (suc j) entry oks
  | some raw ↦
      if next_ok oks
      then shift n (suc j) (write_at entry j (some raw)) (later_oks oks)
      else (entry, false)
]

-- `bookmarks_remove`: the count first, then the entries behind it, then the last key.
unfoldable pub bookmarks_remove : Shelf → ℕ → Bool → List Bool → Bool → Shelf × Bool
bookmarks_remove s i count_ok oks commit_ok =
    let last = s.count - 1 in
    let counted = record s { count = last; saved_count = some last } in
    let (moved, done) = shift (last - i) i s.entry oks in
    if not s.opened || not (ltb i s.count) || not count_ok
    then (s, false)
    else if done
    then (record counted { entry = write_at moved last none }, commit_ok)
    else (record counted { entry = moved }, false)
