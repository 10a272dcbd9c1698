-- ===== src/Bookmarks/Text.antt =====
-- What main/bookmarks.c makes of a submitted title or address. A text is the list of its bytes
-- before the NUL; a buffer's size counts the NUL.
pub mod Clean
use vetera_bridge.Prelude.{
  ℕ, ◌+◌, ◌-◌, ◌*◌, Bool, true, false, not, ◌&&◌, ◌||◌, Option, none, some, List, [], ◌∷◌, ◌++◌,
  ltb, leb, ◌==◌, if◌then◌else◌, length, drop, codes,
}
use vetera_bridge.Ppp.Names.{to_lower}
use vetera_bridge.Ppp.Handshake.{contains}

abbrev pub is_control : ℕ → Bool
is_control b = ltb b 0x20 || b == 0x7f

-- The blanks that `sanitize` skips at the start.
unfoldable pub skip_blanks : List ℕ → List ℕ
skip_blanks [] = []
skip_blanks (b ∷ bs) = if b == b' ' || b == 9 then skip_blanks bs else b ∷ bs

-- The loop that copies, into a buffer with room for so many bytes.
unfoldable pub copy_clean : ℕ → List ℕ → List ℕ
copy_clean room [] = []
copy_clean room (b ∷ bs) =
    if room == 0
    then []
    else if is_control b
    then copy_clean room bs
    else b ∷ copy_clean (room - 1) bs

unfoldable pub trim_end : List ℕ → List ℕ
trim_end [] = []
trim_end (b ∷ bs) = let rest = trim_end bs in if length rest == 0 && b == b' ' then [] else b ∷ rest

-- `sanitize` into a buffer of `n` bytes.
unfoldable pub sanitize : List ℕ → ℕ → List ℕ
sanitize src n = trim_end (copy_clean (n - 1) (skip_blanks src))

unfoldable pub starts_with_ci : List ℕ → List ℕ → Bool
starts_with_ci s [] = true
starts_with_ci [] (p ∷ ps) = false
starts_with_ci (b ∷ bs) (p ∷ ps) = to_lower b == to_lower p && starts_with_ci bs ps

-- `strchr`: the index of a byte.
abbrev next_index : Option ℕ → Option ℕ
next_index none = none
next_index (some i) = some (i + 1)

unfoldable pub index_of : List ℕ → ℕ → Option ℕ
index_of [] x = none
index_of (b ∷ bs) x = if b == x then some 0 else next_index (index_of bs x)

abbrev pub is_digit : ℕ → Bool
is_digit b = leb 48 b && leb b 57

-- The digits up to the slash, or to the end.
unfoldable pub are_digits : List ℕ → Bool
are_digits [] = true
are_digits (b ∷ bs) = if b == b'/' then true else is_digit b && are_digits bs

-- The port: it is not empty, and all digits.
unfoldable pub is_port : List ℕ → Bool
is_port [] = false
is_port (b ∷ bs) = not (b == b'/') && are_digits (b ∷ bs)

-- A colon behind the first slash is in the path.
abbrev pub in_path : Option ℕ → ℕ → Bool
in_path none colon = false
in_path (some slash) colon = ltb slash colon

unfoldable pub is_bare_host : List ℕ → Bool
is_bare_host s = elim (index_of s b':') [
  | none ↦ true
  | some colon ↦ in_path (index_of s b'/') colon || is_port (drop (colon + 1) s)
]

abbrev pub http_prefix : List ℕ
http_prefix = codes "http://"

abbrev pub bm_title_max : ℕ
bm_title_max = 32

abbrev pub bm_url_max : ℕ
bm_url_max = 160

-- What `normalize_url` does with the cleaned address.
unfoldable pub with_scheme : List ℕ → ℕ → Option (List ℕ)
with_scheme clean n =
    if not (contains clean (codes "://"))
    then (if not (is_bare_host clean) || leb n (length clean + 7)
        then none
        else some (http_prefix ++ clean))
    else if starts_with_ci clean http_prefix || starts_with_ci clean (codes "https://")
    then some clean
    else none

-- `normalize_url` into a buffer of `n` bytes.
unfoldable pub normalize_url : List ℕ → ℕ → Option (List ℕ)
normalize_url inp n =
    let clean = sanitize inp (bm_url_max * 2) in
    if length clean == 0 || leb n (length clean) then none else with_scheme clean n
