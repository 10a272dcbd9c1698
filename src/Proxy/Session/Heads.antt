-- ===== src/Proxy/Session/Heads.antt =====
-- What becomes of a request head or a ClientHello in main/http_proxy.c, as a rule for predicates.
use vetera_bridge.Prelude.{
  ℕ, ◌+◌, ◌-◌, ◌≤◌, ◌<◌, subst, inl, inr, not, ◌||◌, List, ◌++◌, arith, ltb, leb, Option-cases,
  if_cases, length, take, drop, length-append, length-drop,
}
use vetera_bridge.Proxy.Sni.{Found, fault, absent, named, tls_sni}
use vetera_bridge.Proxy.Sni.Safe.{IsSafe, tls_sni-IsSafe}
use vetera_bridge.Proxy.Request.{find_crlf2, http_rewrite}
use vetera_bridge.Proxy.Request.Bounds.{Fits, http_rewrite-Fits, http_rewrite-host_fits}
use vetera_bridge.Proxy.Session.{up_sz, up_cap, Session, Shared, Answers, sess_close}
use vetera_bridge.Proxy.Session.Setup.{
  host_max, start_connect, sni_host, hello_partial, head_rewritten, head_ready,
}

-- The text of an address is shorter than the buffer for a host.
abbrev pub HasTexts : Answers → Type 0
HasTexts io = (ip : ℕ) → length (io.ntoa ip) < host_max

Found_fits :
    (f : Found) (t : List ℕ)
    → IsSafe host_max f
    → length t < host_max
    → length (elim f [ named h ↦ h | _ ↦ t ]) < host_max
Found_fits fault t h k = k
Found_fits absent t h k = k
Found_fits (named n) t h k = h.2

tls_host_fits : (io : Answers) → HasTexts io → (s : Session) → length (sni_host io s) < host_max
tls_host_fits io t s =
    Found_fits (tls_sni s.up host_max) (io.ntoa s.orig_ip) (tls_sni-IsSafe s.up host_max)
      (t s.orig_ip)

module _ (P : Session × Shared → Type 0) (io : Answers) (now : ℕ) (s : Session) (w : Shared) where
  head_rewritten_cases :
      (n : ℕ)
      → HasTexts io
      → length s.host < host_max
      → length s.up ≤ up_sz
      → P (sess_close io s w)
      → ((h u : List ℕ)
          → length h < host_max
          → length u ≤ up_cap
          → P (start_connect io now (record s { host = h; up = u }) w))
      → P (head_rewritten io now n s w)
  unfolding head_rewritten sess_close
  head_rewritten_cases n t hl ul fails goes =
      let body = drop n s.up in
      let room = up_cap - length body in
      let host =
        http_rewrite-host_fits io.ntoa (take n s.up) s.host s.orig_ip room host_max hl
          (t s.orig_ip) in
      let fits = http_rewrite-Fits io.ntoa (take n s.up) s.host s.orig_ip room host_max in
      if_cases P (not io.has_memory) (λ _. fails)
        (λ _.
          elim (Option-cases
            (http_rewrite io.ntoa (take n s.up) s.orig_ip room host_max s.host).0) [
              | inl e ↦ rw e fails
              | inr (text, e) ↦ rw e (
                  goes _ (text ++ body) host (
                    omega (
                      arith,
                      ul,
                      length-append text body,
                      length-drop n s.up,
                      subst (Fits room) e fits,
                    )))
            ])

  pub head_ready_cases :
      HasTexts io
      → length s.host < host_max
      → length s.up ≤ up_sz
      → P (sess_close io s w)
      → (length s.up < up_sz → P (s, w))
      → ((h u : List ℕ)
          → length h < host_max
          → length u ≤ up_cap
          → P (start_connect io now (record s { host = h; up = u }) w))
      → P (head_ready io now s w)
  unfolding head_ready
  head_ready_cases t hl ul fails waits goes =
      if_cases P s.tls
        (λ _.
          if_cases P (ltb (length s.up) 5 || hello_partial s.up) (λ c. waits (ground (arith, c)))
            (λ _. goes (sni_host io s) s.up (tls_host_fits io t s) (omega (arith, ul))))
        (λ _. elim (Option-cases (find_crlf2 s.up)) [
          | inl e ↦
              rw e
                (if_cases P (leb up_sz (length s.up)) (λ _. fails) (λ c. waits (ground (arith, c))))
          | inr (e, there) ↦ rw there (head_rewritten_cases (e + 4) t hl ul fails goes)
        ])
