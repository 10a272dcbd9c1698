-- ===== src/Proxy/Request/Tests.antt =====
-- The rewriting of main/http_proxy.c at concrete heads.
use vetera_bridge.Prelude.{ℕ, ◌≡◌, refl, some, List, [], ◌∷◌, ◌++◌, arith, codes}
use vetera_bridge.Ppp.Names.{to_lower, starts_nocase}
use vetera_bridge.Proxy.Sni.{all_host_bytes, host_ok, c_string}
use vetera_bridge.Proxy.Request.{
  cut, find_crlf2, name_is, skip_start, skip_end, take_host, is_dropped, crlf, close_lines,
  host_or_address, http_rewrite,
}
use vetera_bridge.Proxy.Request.Heads.{Head, IsHead, lines, print, forwarded, host_of}
use vetera_bridge.Proxy.Request.Structured.{proxied, http_rewrite_lem}

abbrev get_page : Head
get_page = record {
  method = codes "GET";
  target = codes "/x";
  version = codes "HTTP/1.1";
  headers = codes "HOST: a.b " ∷ codes "Keep-alive: 5" ∷ codes "Accept: *" ∷ [];
}

get_page-IsHead : IsHead get_page
get_page-IsHead = record {
  method_line = omega arith;
  method_word = omega arith;
  target_line = omega arith;
  target_word = omega arith;
  has_target = omega arith;
  version_line = omega arith;
  headers_lines = omega arith;
}

abbrev sent_page : List ℕ
sent_page =
    codes "GET http://a.b/x HTTP/1.1"
    ++ (crlf ++ (codes "HOST: a.b " ++ (crlf ++ (codes "Accept: *" ++ (crlf ++ close_lines)))))

http_rewrite_lem_example :
    http_rewrite (λ ip. codes "1.2.3.4") (print get_page) 0 2560 80 []
    ≡ (some sent_page, codes "a.b")
unfolding proxied host_or_address lines forwarded host_of take_host is_dropped cut skip_start
    skip_end name_is starts_nocase to_lower host_ok all_host_bytes c_string
http_rewrite_lem_example =
    http_rewrite_lem (λ ip. codes "1.2.3.4") 0 2560 80 [] get_page get_page-IsHead

print_page : find_crlf2 (print get_page) ≡ some 53
unfolding find_crlf2 print lines
print_page = refl
