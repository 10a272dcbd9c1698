-- ===== src/Bookmarks/Store/Edits.antt =====
-- What an edit of the bookmarks in main/bookmarks.c changes for a later reader.
use native.Mathlib.Decide.{ℕ_discrete}
use vetera_bridge.Prelude.{
  ℕ, zero, suc, ◌+◌, ◌-◌, ◌≤◌, ◌<◌, ◌≡◌, refl, sym, ap, ◌∙◌, subst, ◌≢◌, inl, inr, Bool, true,
  false, ◌&&◌, Option, none, some, List, [], ◌∷◌, ◌++◌, arith, ltb, leb, ◌==◌, if◌then◌else◌,
  lt→ltb, ==_refl, ==_of_ne, Bool-cases, Option-cases, length, length-append, take_of_le,
}
use vetera_bridge.Bookmarks.Text.{sanitize, normalize_url}
use vetera_bridge.Bookmarks.Text.Clean.{IsClean, sanitize_lem, scheme_ne, normalize_url-IsAddress}
use vetera_bridge.Bookmarks.Store.{
  Shelf, Bookmark, readable, write_at, split_line, parse_entry, bookmarks_get, slot_for, is_append,
  entry_text, Calls, save_entry, bookmarks_set, shift, bookmarks_remove,
}

split_line-append :
    (title url : List ℕ) → IsClean title → split_line (title ++ (10 ∷ url)) ≡ some (title, url)
unfolding split_line
split_line-append [] url k = refl
split_line-append (b ∷ bs) url k = ground (arith, k.0, split_line-append bs url k.1)

parse_entry_text :
    (title url : List ℕ)
    → IsClean title
    → length title < 32
    → length url < 160
    → 0 < length url
    → parse_entry (readable (some (entry_text title url)))
      ≡ some (record { title = title; url = url })
unfolding parse_entry
parse_entry_text title url k t u pos =
    let size = length-append title (10 ∷ url) in
    let whole : entry_text title url ≡ title ++ (10 ∷ url) =
      take_of_le 191 (title ++ (10 ∷ url)) (omega (arith, size, t, u)) in
    let fits : ltb (length (title ++ (10 ∷ url))) 192 ≡ true =
      lt→ltb (length (title ++ (10 ∷ url))) 192 (omega (arith, size, t, u)) in
    let some_url : (length url == 0) ≡ false =
      ==_of_ne (length url) 0 (λ z. absurd (omega (arith, z, pos))) in
    rw
      (
        whole,
        fits,
        split_line-append title url k,
        take_of_le 31 title (omega (arith, t)),
        take_of_le 159 url (omega (arith, u)),
        some_url,
      )
      refl

-- A text that is there and can be read.
abbrev IsReadable : Option (List ℕ) → Type 0
IsReadable o = (readable o ≡ o) × (o ≢ none)

write_at_ne :
    (entry : ℕ → Option (List ℕ)) (i : ℕ) (v : Option (List ℕ)) (j : ℕ)
    → j ≢ i
    → write_at entry i v j ≡ entry j
write_at_ne entry i v j h = rw (==_of_ne j i h) refl

write_at_self :
    (entry : ℕ → Option (List ℕ)) (i : ℕ) (v : Option (List ℕ)) → write_at entry i v i ≡ v
write_at_self entry i v = rw (==_refl i) refl

-- One write, and what the later rounds do with it.
shifted :
    (n j : ℕ) (entry : ℕ → Option (List ℕ)) (raw : List ℕ) (k : ℕ)
    → entry (suc j) ≡ some raw
    → (if leb (suc j) k && ltb k (suc j + n)
        then write_at entry j (some raw) (suc k)
        else write_at entry j (some raw) k)
      ≡ (if leb j k && ltb k (j + suc n) then entry (suc k) else entry k)
shifted n j entry raw k h = elim (ℕ_discrete k j) [
  | yes same ↦ ground (arith, ap (λ x. entry (suc x)) same)
  | no other ↦ ground arith
]

-- Each slot between two gets its successor's text; the others keep theirs.
shift_lem :
    (n j : ℕ) (entry : ℕ → Option (List ℕ)) (k : ℕ)
    → ((m : ℕ) → j < m → m ≤ j + n → IsReadable (entry m))
    → ((shift n j entry []).1 ≡ true)
      × ((shift n j entry []).0 k ≡ (if leb j k && ltb k (j + n) then entry (suc k) else entry k))
unfolding shift
shift_lem zero j entry k h = ground arith
shift_lem (suc n) j entry k h =
    let (reads, there) = h (suc j) (omega arith) (omega arith) in
    elim (Option-cases (readable (entry (suc j)))) [
      | inl e ↦ absurd (there (sym reads ∙ e))
      | inr (raw, e) ↦
          let moved = write_at entry j (some raw) in
          let later : (m : ℕ) → suc j < m → m ≤ suc j + n → IsReadable (moved m) = λ m lo hi.
            subst IsReadable
              (sym (write_at_ne entry j (some raw) m (λ s. absurd (omega (arith, s, lo)))))
              (h m (omega (arith, lo)) (omega (arith, hi))) in
          let ih = shift_lem n (suc j) moved k later in
          let one : shift (suc n) j entry [] ≡ shift n (suc j) moved [] = ground (arith, e) in
          (
            ap (λ (r : (ℕ → Option (List ℕ)) × Bool). r.1) one ∙ ih.0,
            ap (λ (r : (ℕ → Option (List ℕ)) × Bool). r.0 k) one
                ∙ ih.1
                ∙ shifted n j entry raw k (sym reads ∙ e),
          )
    ]

abbrev pub all_succeed : Calls
all_succeed = record { raw_ok = true; count_ok = true; commit_ok = true }

abbrev made : List ℕ → List ℕ → Bookmark
made title u = record { title = sanitize title 32; url = u }

slot_for-lt :
    (count : ℕ) (index : Option ℕ) (i : ℕ)
    → slot_for count index ≡ some i
    → (is_append index ≡ true → i ≡ count) × (is_append index ≡ false → i < count)
unfolding slot_for
slot_for-lt count none i h = ground arith
slot_for-lt count (some k) i h = ground arith

-- The shelf after a save.
abbrev saved_shelf : Shelf → ℕ → Bool → List ℕ → Shelf
saved_shelf s i append raw = record s {
  entry = write_at s.entry i (some raw);
  count = if append then i + 1 else s.count;
  saved_count = if append then some (i + 1) else s.saved_count;
}

bookmarks_set_lem :
    (s : Shelf) (index : Option ℕ) (title url u : List ℕ) (i : ℕ)
    → s.opened ≡ true
    → normalize_url url 160 ≡ some u
    → slot_for s.count index ≡ some i
    → bookmarks_set s index title url all_succeed
      ≡ (saved_shelf s i (is_append index) (entry_text (sanitize title 32) u), true)
unfolding bookmarks_set save_entry
bookmarks_set_lem s none title url u i o n h = rw (n, h) (ground (arith, o))
bookmarks_set_lem s (some k) title url u i o n h = rw (n, h) (ground (arith, o))

get_saved_here :
    (s : Shelf) (i : ℕ) (append : Bool) (raw : List ℕ)
    → s.opened ≡ true
    → i < (if append then i + 1 else s.count)
    → bookmarks_get (saved_shelf s i append raw) i ≡ parse_entry (readable (some raw))
unfolding bookmarks_get
get_saved_here s i append raw o lt =
    rw (==_refl i, lt→ltb i (if append then i + 1 else s.count) lt) (ground (arith, o))

get_saved_elsewhere :
    (s : Shelf) (i : ℕ) (append : Bool) (raw : List ℕ) (k : ℕ)
    → k ≢ i
    → (append ≡ true → i ≡ s.count)
    → bookmarks_get (saved_shelf s i append raw) k ≡ bookmarks_get s k
unfolding bookmarks_get
get_saved_elsewhere s i append raw k other at = rw (==_of_ne k i other) (ground (arith, at, other))

some_length : (u : List ℕ) → (length u == 0) ≡ false → 0 < length u
some_length [] h = ground arith
some_length (b ∷ bs) h = omega arith

-- A bookmark that is saved, at a place in the list or at its end, is read back with its cleaned
-- title and its normalized address, and every other bookmark reads as before, if every call of the
-- flash succeeds.
pub bookmarks_get-bookmarks_set :
    (s : Shelf) (index : Option ℕ) (title url u : List ℕ) (i k : ℕ)
    → s.opened ≡ true
    → normalize_url url 160 ≡ some u
    → slot_for s.count index ≡ some i
    → let r = bookmarks_set s index title url all_succeed in
      (r.1 ≡ true)
      × (bookmarks_get r.0 i ≡ some (record { title = sanitize title 32; url = u }))
      × (k ≢ i → bookmarks_get r.0 k ≡ bookmarks_get s k)
bookmarks_get-bookmarks_set s index title url u i k o n h =
    let set = bookmarks_set_lem s index title url u i o n h in
    let place = slot_for-lt s.count index i h in
    let address = normalize_url-IsAddress url 160 u n in
    let title_ok = sanitize_lem title 32 in
    let raw = entry_text (sanitize title 32) u in
    let inside : i < (if is_append index then i + 1 else s.count) = ground (arith, place) in
    let some_byte : 0 < length u = some_length u (scheme_ne u address.scheme) in
    rw set (
      refl,
      get_saved_here s i (is_append index) raw o inside
          ∙ parse_entry_text (sanitize title 32) u title_ok.0 (omega (arith, title_ok.1))
              address.short some_byte,
      (λ other. get_saved_elsewhere s i (is_append index) raw k other place.0),
    )

-- The shelf after a removal, where the entries were moved to `moved`.
abbrev removed_shelf : Shelf → (ℕ → Option (List ℕ)) → Shelf
removed_shelf s moved =
    let last = s.count - 1 in
    record s { count = last; saved_count = some last; entry = write_at moved last none }

bookmarks_remove_lem :
    (s : Shelf) (i : ℕ)
    → s.opened ≡ true
    → i < s.count
    → (shift (s.count - 1 - i) i s.entry []).1 ≡ true
    → bookmarks_remove s i true [] true
      ≡ (removed_shelf s (shift (s.count - 1 - i) i s.entry []).0, true)
unfolding bookmarks_remove
bookmarks_remove_lem s i o lt h = rw (lt→ltb i s.count lt, h) (ground (arith, o))

get_removed :
    (s : Shelf) (moved : ℕ → Option (List ℕ)) (i k : ℕ)
    → i < s.count
    → moved k ≡ (if leb i k && ltb k (i + (s.count - 1 - i)) then s.entry (suc k) else s.entry k)
    → bookmarks_get (removed_shelf s moved) k ≡ bookmarks_get s (if ltb k i then k else suc k)
unfolding bookmarks_get
get_removed s moved i k lt h = elim (Bool-cases (ltb k (s.count - 1))) [
  | inl inside ↦ elim (Bool-cases (ltb k i)) [
    | inl front ↦ ground (arith, h, lt, ap parse_entry (ap readable (read_moved front)))
    | inr back ↦ ground (arith, h, lt)
  ]
  | inr outside ↦ ground (arith, lt)
]
  where
    read_moved : ltb k i ≡ true → moved k ≡ s.entry k
    read_moved f = h ∙ ground arith

-- After a bookmark is removed, those before it read as before, those behind it are one place
-- further up, and the list is one shorter, if every call of the flash succeeds and every entry of
-- the list is there and fits the buffer that it is read into.
pub bookmarks_get-bookmarks_remove :
    (s : Shelf) (i k : ℕ)
    → s.opened ≡ true
    → i < s.count
    → ((m : ℕ) → m < s.count → (readable (s.entry m) ≡ s.entry m) × (s.entry m ≢ none))
    → let r = bookmarks_remove s i true [] true in
      (r.1 ≡ true)
      × (r.0.count ≡ s.count - 1)
      × (bookmarks_get r.0 k ≡ bookmarks_get s (if ltb k i then k else suc k))
bookmarks_get-bookmarks_remove s i k o lt there =
    let moved =
      shift_lem (s.count - 1 - i) i s.entry k (λ m lo hi. there m (omega (arith, lt, lo, hi))) in
    rw (bookmarks_remove_lem s i o lt moved.0)
      (refl, refl, get_removed s (shift (s.count - 1 - i) i s.entry []).0 i k lt moved.1)
