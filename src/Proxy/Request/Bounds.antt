-- ===== src/Proxy/Request/Bounds.antt =====
-- What the rewriting of main/http_proxy.c writes fits its buffer, whatever the head is.
use vetera_bridge.Prelude.{
  ℕ, zero, suc, ◌≤◌, ◌<◌, inl, inr, Bool, true, false, Option, none, some, List, [], ◌∷◌, ◌++◌,
  arith, ◌==◌, if◌then◌else◌, Bool-cases, Option-cases, length, take, drop, length-append, codes,
}
use vetera_bridge.Proxy.Sni.{c_string}
use vetera_bridge.Proxy.Request.{
  cut, out_add, then_add, skip_start, skip_end, next_line, take_host, host_pass, is_dropped,
  copy_pass, close_lines, is_origin_form, request_line, split_end, host_or_address, rewrite_line,
  http_rewrite,
}

abbrev pub Fits : ℕ → Option (List ℕ) → Type 0
Fits cap none = Unit
Fits cap (some out) = length out ≤ cap

then_add-Fits :
    (cap : ℕ) (o : Option (List ℕ)) (s : List ℕ) → Fits cap o → Fits cap (then_add cap o s)
unfolding out_add
then_add-Fits cap none s h = tt
then_add-Fits cap (some out) s h = ground (arith, length-append out s)

copy_pass-Fits :
    (fuel cap : ℕ) (rest last : List ℕ) (o : Option (List ℕ))
    → Fits cap o
    → Fits cap (copy_pass fuel cap rest last o)
unfolding copy_pass
copy_pass-Fits zero cap rest last o h = h
copy_pass-Fits (suc fuel) cap rest last none h = tt
copy_pass-Fits (suc fuel) cap rest last (some out) h = elim (Bool-cases (length rest == 0)) [
  | inl e ↦ rw e h
  | inr e ↦ rw e (
      let (line, copied, next) = next_line rest last in
      let kept = if is_dropped line then some out else out_add cap out copied in
      copy_pass-Fits fuel cap next last kept
        (ground (arith, then_add-Fits cap (some out) copied h)))
]

if_Fits :
    (cap : ℕ) (c : Bool) (o p : Option (List ℕ))
    → Fits cap o
    → Fits cap p
    → Fits cap (if c then o else p)
if_Fits cap true o p h k = h
if_Fits cap false o p h k = k

length-c_string : (s : List ℕ) → length (c_string s) ≤ length s
unfolding c_string
length-c_string [] = omega arith
length-c_string (c ∷ cs) = ground (arith, length-c_string cs)

take_host_fits : (n : ℕ) (line host : List ℕ) → length host < n → length (take_host n line host) < n
unfolding take_host
take_host_fits n line host h = elim (Option-cases (cut b':' line)) [
  | inl e ↦ rw (length, take_host, e) h
  | inr ((name, from), e) ↦
      rw (length, take_host, e)
        (ground (arith, h, length-c_string (skip_end (skip_start (drop 1 from)))))
]

host_pass_fits :
    (fuel : ℕ) (rest last : List ℕ) (n : ℕ) (host : List ℕ)
    → length host < n
    → length (host_pass fuel rest last n host) < n
unfolding host_pass
host_pass_fits zero rest last n host h = h
host_pass_fits (suc fuel) rest last n host h =
    let (line, _, next) = next_line rest last in
    let later =
      host_pass_fits fuel next last n (take_host n line host) (take_host_fits n line host h) in
    ground (arith, h, later)

module _ (ntoa : ℕ → List ℕ) where
  rewrite_line-Fits :
      (orig_ip cap n : ℕ) (method from_target target ends rest last : List ℕ)
      → Fits cap (rewrite_line ntoa orig_ip cap n method from_target target ends rest last).0
  unfolding rewrite_line
  rewrite_line-Fits orig_ip cap n method from_target target ends rest last =
      let host = host_or_address ntoa orig_ip (host_pass (length rest) rest last n []) in
      let start = then_add-Fits cap (some []) (method ++ (b' ' ∷ [])) (omega arith) in
      let named =
        if_Fits cap (is_origin_form target) _ _
          (then_add-Fits cap _ host (then_add-Fits cap _ (codes "http://") start)) start in
      then_add-Fits cap _ close_lines (
        copy_pass-Fits (length rest) cap rest last _
          (then_add-Fits cap _ (from_target ++ ends) named))

  pub http_rewrite-Fits :
      (head host : List ℕ) (orig_ip cap n : ℕ)
      → Fits cap (http_rewrite ntoa head orig_ip cap n host).0
  unfolding http_rewrite
  http_rewrite-Fits head host orig_ip cap n = elim (Option-cases (request_line head)) [
    | inl e ↦ rw (Fits, http_rewrite, e) tt
    | inr ((method, from_target, target, after), e) ↦
        rw (Fits, http_rewrite, e)
          (rewrite_line-Fits orig_ip cap n method from_target target (take 2 after)
            (split_end (drop 2 after)).0 (split_end (drop 2 after)).1)
  ]

  -- The host that is left fits its buffer, if the text of an address does.
  pub http_rewrite-host_fits :
      (head host : List ℕ) (orig_ip cap n : ℕ)
      → length host < n
      → length (ntoa orig_ip) < n
      → length (http_rewrite ntoa head orig_ip cap n host).1 < n
  unfolding http_rewrite rewrite_line host_or_address
  http_rewrite-host_fits head host orig_ip cap n h k = elim (Option-cases (request_line head)) [
    | inl e ↦ rw (http_rewrite, e) h
    | inr ((method, from_target, target, after), e) ↦
        let (rest, last) = split_end (drop 2 after) in
        rw (http_rewrite, e)
          (ground (arith, k, host_pass_fits (length rest) rest last n [] (omega arith)))
  ]
