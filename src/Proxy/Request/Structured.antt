-- ===== src/Proxy/Request/Structured.antt =====
-- What the rewriting in main/http_proxy.c makes of a head that is a request line and headers.
use vetera_bridge.Prelude.{
  ℕ, zero, suc, ◌-◌, ◌≤◌, ◌≡◌, refl, ap, ◌∙◌, ◌≢◌, inl, inr, true, Option, none, some, List, [],
  ◌∷◌, ◌++◌, append-nil, append_assoc, arith, ltb, if◌then◌else◌, Bool-cases, length, All,
  length-append, codes, take-append, drop-append,
}
use vetera_bridge.Proxy.Request.{
  cut, out_add, then_add, next_line, take_host, host_pass, is_dropped, copy_pass, crlf, close_lines,
  is_origin_form, request_line, split_end, host_or_address, rewrite_line, http_rewrite,
}
use vetera_bridge.Proxy.Request.Heads.{
  Lacks, Head, IsHead, lines, from_target, print, forwarded, host_of, fit,
}

cut-Lacks : (c : ℕ) (xs ys : List ℕ) → Lacks c xs → cut c (xs ++ (c ∷ ys)) ≡ some (xs, c ∷ ys)
unfolding cut
cut-Lacks c [] ys h = ground arith
cut-Lacks c (x ∷ xs) ys h = ground (arith, cut-Lacks c xs ys)

then_add-fit : (cap : ℕ) (xs s : List ℕ) → then_add cap (fit cap xs) s ≡ fit cap (xs ++ s)
unfolding out_add
then_add-fit cap xs s = ground (arith, length-append xs s)

add_first : (cap : ℕ) (s : List ℕ) → out_add cap [] s ≡ fit cap s
unfolding out_add
add_first cap s = ground arith

next_line_lem :
    (h more : List ℕ) → Lacks b'\r' h → next_line (h ++ (crlf ++ more)) crlf ≡ (h, h ++ crlf, more)
unfolding next_line
next_line_lem h more k = ground (arith, cut-Lacks b'\r' h (b'\n' ∷ more) k)

host_pass_lem :
    (fuel n : ℕ) (hs : List (List ℕ)) (host : List ℕ)
    → All (Lacks b'\r') hs
    → length (lines hs) ≤ fuel
    → host_pass fuel (lines hs) crlf n host ≡ host_of n hs host
unfolding host_pass lines host_of
host_pass_lem zero n [] host k le = refl
host_pass_lem zero n (h ∷ hs) host k le =
    absurd (omega (arith, length-append h (crlf ++ lines hs), le))
host_pass_lem (suc fuel) n [] host k le = refl
host_pass_lem (suc fuel) n (h ∷ hs) host (k, ks) le = ground (
  arith,
  length-append h (crlf ++ lines hs),
  next_line_lem h (lines hs) k,
  host_pass_lem fuel n hs (take_host n h host) ks,
)

copy_pass-none : (fuel cap : ℕ) (rest last : List ℕ) → copy_pass fuel cap rest last none ≡ none
unfolding copy_pass
copy_pass-none zero cap rest last = refl
copy_pass-none (suc fuel) cap rest last = refl

append_three : (a b c d : List ℕ) → (a ++ (b ++ c)) ++ d ≡ a ++ (b ++ (c ++ d))
append_three a b c d = simp append_assoc

copy_line :
    (fuel cap : ℕ) (h more out : List ℕ)
    → Lacks b'\r' h
    → copy_pass (suc fuel) cap (h ++ (crlf ++ more)) crlf (fit cap out)
      ≡ copy_pass fuel cap more crlf
          (if is_dropped h then fit cap out else fit cap (out ++ (h ++ crlf)))
copy_line fuel cap h more out k = elim (Bool-cases (ltb cap (length out))) [
  | inl over ↦
      let longer : ltb cap (length (out ++ (h ++ crlf))) ≡ true =
        ground (arith, over, length-append out (h ++ crlf)) in
      rw (over, longer) (unfold copy_pass in ground (arith, copy_pass-none fuel cap more crlf))
  | inr fits ↦ rw fits (
      unfold copy_pass out_add in
      ground (
        arith,
        length-append h (crlf ++ more),
        length-append out (h ++ crlf),
        next_line_lem h more k,
      ))
]

copy_pass_lem :
    (fuel cap : ℕ) (hs : List (List ℕ)) (out : List ℕ)
    → All (Lacks b'\r') hs
    → length (lines hs) ≤ fuel
    → copy_pass fuel cap (lines hs) crlf (fit cap out) ≡ fit cap (out ++ lines (forwarded hs))
unfolding lines forwarded
copy_pass_lem zero cap [] out k le = rw (append-nil out) (unfold copy_pass in refl)
copy_pass_lem zero cap (h ∷ hs) out k le =
    absurd (omega (arith, length-append h (crlf ++ lines hs), le))
copy_pass_lem (suc fuel) cap [] out k le = unfold copy_pass in ground (arith, append-nil out)
copy_pass_lem (suc fuel) cap (h ∷ hs) out (k, ks) le =
    let small : length (lines hs) ≤ fuel = omega (arith, length-append h (crlf ++ lines hs), le) in
    elim (Bool-cases (is_dropped h)) [
      | inl e ↦
          copy_line fuel cap h (lines hs) out k ∙ rw e (copy_pass_lem fuel cap hs out ks small)
      | inr e ↦
          copy_line fuel cap h (lines hs) out k
          ∙ rw e (
              copy_pass_lem fuel cap hs (out ++ (h ++ crlf)) ks small
              ∙ ap (fit cap) (append_three out h crlf (lines (forwarded hs))))
    ]

Lacks-word :
    (c : ℕ) (xs ys : List ℕ) → b' ' ≢ c → Lacks c xs → Lacks c ys → Lacks c (xs ++ (b' ' ∷ ys))
Lacks-word c [] ys n h k = (n, k)
Lacks-word c (x ∷ xs) ys n (h, hs) k = (h, Lacks-word c xs ys n hs k)

request_line_lem :
    (r : Head)
    → IsHead r
    → request_line (print r)
      ≡ some (r.method, from_target r, r.target, crlf ++ (lines r.headers ++ crlf))
unfolding print request_line
request_line_lem r v =
    let whole =
      cut-Lacks b'\r' (r.method ++ (b' ' ∷ from_target r)) (b'\n' ∷ (lines r.headers ++ crlf)) (
        Lacks-word b'\r' r.method (from_target r) (omega arith) v.method_line
          (Lacks-word b'\r' r.target r.version (omega arith) v.target_line v.version_line)) in
    let first = cut-Lacks b' ' r.method (from_target r) v.method_word in
    let second = cut-Lacks b' ' r.target r.version v.target_word in
    rw (request_line, whole)
      (rw (request_line, first) (rw (request_line, second) (ground (arith, v.has_target))))

split_end_lem : (xs : List ℕ) → split_end (xs ++ crlf) ≡ (xs, crlf)
unfolding split_end
split_end_lem xs =
    let size : length (xs ++ crlf) - 2 ≡ length xs = omega (arith, length-append xs crlf) in
    rw (size, take-append xs crlf, drop-append xs crlf) refl

add_host :
    (cap : ℕ) (out target host : List ℕ)
    → (if is_origin_form target
        then then_add cap (then_add cap (fit cap out) (codes "http://")) host
        else fit cap out)
      ≡ fit cap (out ++ (if is_origin_form target then codes "http://" ++ host else []))
add_host cap out target host = elim (Bool-cases (is_origin_form target)) [
  | inl e ↦ rw e (
      ap (λ o. then_add cap o host) (then_add-fit cap out (codes "http://"))
      ∙ then_add-fit cap (out ++ codes "http://") host
      ∙ ap (fit cap) (append_assoc out (codes "http://") host))
  | inr e ↦ rw e (rw (append-nil out) refl)
]

module _ (ntoa : ℕ → List ℕ) where
  -- The host that the rewritten head names.
  abbrev pub host_for : ℕ → ℕ → Head → List ℕ
  host_for orig_ip n r = host_or_address ntoa orig_ip (host_of n r.headers [])

  -- The head that the proxy is meant to get.
  unfoldable pub proxied : List ℕ → Head → List ℕ
  proxied host r =
      ((((r.method ++ (b' ' ∷ []))
            ++ (if is_origin_form r.target then codes "http://" ++ host else []))
          ++ (from_target r ++ crlf))
        ++ lines (forwarded r.headers))
      ++ close_lines

  rewrite_line_lem :
      (orig_ip cap n : ℕ) (r : Head)
      → IsHead r
      → rewrite_line ntoa orig_ip cap n r.method
          (from_target r)
          r.target
          crlf
          (lines r.headers)
          crlf
        ≡ (fit cap (proxied (host_for orig_ip n r) r), host_for orig_ip n r)
  unfolding rewrite_line proxied
  rewrite_line_lem orig_ip cap n r v =
      let all = length (lines r.headers) in
      let host = host_for orig_ip n r in
      let start = r.method ++ (b' ' ∷ []) in
      let named = start ++ (if is_origin_form r.target then codes "http://" ++ host else []) in
      let line = from_target r ++ crlf in
      let copied = λ (o : Option (List ℕ)).
        then_add cap (copy_pass all cap (lines r.headers) crlf o) close_lines in
      let found = host_pass_lem all n r.headers [] v.headers_lines (omega arith) in
      rw (found, add_first cap start)
        (ap (λ o. (o, host))
          (ap (λ o. copied (then_add cap o line)) (add_host cap start r.target host)
            ∙ ap copied (then_add-fit cap named line)
            ∙ ap (λ o. then_add cap o close_lines)
                (copy_pass_lem all cap r.headers (named ++ line) v.headers_lines (omega arith))
            ∙ then_add-fit cap ((named ++ line) ++ lines (forwarded r.headers)) close_lines))

  -- A head of a request line with three words and of any headers is rewritten to the text `proxied`:
  -- the request line with "http://" and the host before a target that starts with a slash, the
  -- headers but Connection, Proxy-Connection and Keep-Alive, in order, and the two lines that close
  -- the connection. The host is the last Host header that fits the buffer, or the address that the
  -- phone connected to where that is no host name. It is refused exactly when this text is longer
  -- than the buffer.
  pub http_rewrite_lem :
      (orig_ip cap n : ℕ) (host : List ℕ) (r : Head)
      → IsHead r
      → http_rewrite ntoa (print r) orig_ip cap n host
        ≡ (fit cap (proxied (host_for orig_ip n r) r), host_for orig_ip n r)
  unfolding http_rewrite
  http_rewrite_lem orig_ip cap n host r v =
      rw (http_rewrite, request_line_lem r v)
        (rw (split_end_lem (lines r.headers)) (rewrite_line_lem orig_ip cap n r v))
