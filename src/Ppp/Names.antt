-- ===== src/Ppp/Names.antt =====
-- How main/ppp_link.c knows a phone by its name. A text is the list of its bytes before the NUL.
pub mod Contains
use Prim.Native.String.{String}
use vetera_bridge.Prelude.{
  ℕ, ◌+◌, Bool, true, false, ◌&&◌, List, [], ◌∷◌, leb, ◌==◌, if◌then◌else◌, codes,
}

-- `tolower` in the C locale
unfoldable pub to_lower : ℕ → ℕ
to_lower c = if leb b'A' c && leb c b'Z' then c + 32 else c

-- `strncasecmp(hay, needle, strlen(needle)) == 0`
unfoldable pub starts_nocase : List ℕ → List ℕ → Bool
starts_nocase hay [] = true
starts_nocase [] (n ∷ ns) = false
starts_nocase (h ∷ hs) (n ∷ ns) = to_lower h == to_lower n && starts_nocase hs ns

unfoldable pub contains_nocase : List ℕ → List ℕ → Bool
contains_nocase [] needle = false
contains_nocase (h ∷ hs) needle =
    let rest = contains_nocase hs needle in if starts_nocase (h ∷ hs) needle then true else rest

-- The factory names of phones that connect without security.
abbrev pub nosec_names : List String
nosec_names =
    "N-Gage" ∷ "NGage" ∷ "3650" ∷ "3600" ∷ "3660" ∷ "3620" ∷ "7650" ∷ "9210" ∷ "9290" ∷ "9300"
    ∷ "9500" ∷ []

unfoldable pub matches_any : List ℕ → List String → Bool
matches_any name [] = false
matches_any name (n ∷ ns) =
    let rest = matches_any name ns in if contains_nocase name (codes n) then true else rest

unfoldable pub is_nosec_name : List ℕ → Bool
is_nosec_name name = matches_any name nosec_names
