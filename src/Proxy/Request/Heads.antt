-- ===== src/Proxy/Request/Heads.antt =====
-- A request head by its parts, and what main/http_proxy.c should make of its headers.
use vetera_bridge.Prelude.{
  ℕ, ◌<◌, ◌≢◌, Option, none, some, List, [], ◌∷◌, ◌++◌, ltb, if◌then◌else◌, length, All,
}
use vetera_bridge.Proxy.Request.{take_host, is_dropped, crlf}

-- No byte of the text is `c`.
abbrev pub Lacks : ℕ → List ℕ → Type 0
Lacks c xs = All (λ x. x ≢ c) xs

pub record Head : Type 0 where
  pub method : List ℕ
  pub target : List ℕ
  pub version : List ℕ
  pub headers : List (List ℕ)

pub record IsHead (r : Head) : Type 0 where
  pub method_line : Lacks b'\r' r.method
  pub method_word : Lacks b' ' r.method
  pub target_line : Lacks b'\r' r.target
  pub target_word : Lacks b' ' r.target
  pub has_target : 0 < length r.target
  pub version_line : Lacks b'\r' r.version
  pub headers_lines : All (Lacks b'\r') r.headers

unfoldable pub lines : List (List ℕ) → List ℕ
lines [] = []
lines (h ∷ hs) = h ++ (crlf ++ lines hs)

-- From the target to the end of the request line.
abbrev pub from_target : Head → List ℕ
from_target r = r.target ++ (b' ' ∷ r.version)

unfoldable pub print : Head → List ℕ
print r = (r.method ++ (b' ' ∷ from_target r)) ++ (crlf ++ (lines r.headers ++ crlf))

unfoldable pub forwarded : List (List ℕ) → List (List ℕ)
forwarded [] = []
forwarded (h ∷ hs) = if is_dropped h then forwarded hs else h ∷ forwarded hs

-- The last Host header that fits the buffer.
unfoldable pub host_of : ℕ → List (List ℕ) → List ℕ → List ℕ
host_of n [] host = host
host_of n (h ∷ hs) host = host_of n hs (take_host n h host)

abbrev pub fit : ℕ → List ℕ → Option (List ℕ)
fit cap xs = if ltb cap (length xs) then none else some xs
