-- ===== src/Proxy/Session/Tests.antt =====
-- The relay of main/http_proxy.c at concrete connections.
use mathlib.Core.Option.{some-injective, none-ne-some}
use vetera_bridge.Prelude.{
  ℕ, ◌+◌, ◌<◌, ◌≡◌, refl, subst, true, false, Option, none, some, List, [], ◌∷◌, ◌++◌, arith, ◌==◌,
  if◌then◌else◌, length, get_elem?, All, codes, u32,
}
use vetera_bridge.Proxy.Flow.{active, Flow, flow_find_from, flow_find, flow_lookup}
use vetera_bridge.Proxy.Settings.{Settings, proxy_get}
use vetera_bridge.Proxy.Hook.{phone_addr_n}
use vetera_bridge.Proxy.Session.{
  splicing, Session, no_session, opens, receives, sends, Shared, got, took, connected, Answers,
  sess_close,
}
use vetera_bridge.Proxy.Session.Setup.{
  host_max, proxy_addr, on_connected, try_connect, start_connect, head_rewritten, head_ready,
}
use vetera_bridge.Proxy.Session.Splice.{
  send_up, receive_up, splice_up, send_down, receive_down, splice_down, splice_end, splice,
  serve_head, sess_service,
}
use vetera_bridge.Proxy.Sni.{host_ok}
use vetera_bridge.Proxy.Request.{
  cut, find_crlf2, out_add, host_pass, copy_pass, crlf, close_lines, request_line, split_end,
  host_or_address, rewrite_line, http_rewrite,
}
use vetera_bridge.Proxy.Session.Task.{
  sess_fds, Arrival, accepted, place, do_accept, each, expire, has_slot, ready, Round, serve_all,
  expire_all, proxy_round, rounds, no_sessions, at_start,
}
use vetera_bridge.Proxy.Session.Rounds.{total, IsRound}
use vetera_bridge.Proxy.Session.Sockets.{times_opened, times_closed, held_by, one_if_used}
use vetera_bridge.Proxy.Session.Kept.{IsSound, rounds-IsSound, rounds_sockets}
use vetera_bridge.Proxy.Session.Copying.{serve_run, IsCopying, serve_run_refines}
use vetera_bridge.Proxy.Session.Expiry.{IsQuiet, silent_session_ends}

abbrev site_flow : Flow
site_flow = record {
  state = active;
  phone_port = 40000;
  relay_port = 3080;
  orig_port = 80;
  orig_ip = 99;
  stamp_ms = 0;
}

abbrev lite : Settings
lite = record { on = true; host = codes "10.0.0.9"; port = 3129; ready = true }

-- The phone sends a request, the proxy takes the connection at once.
abbrev asked : Answers
asked = record {
  ph_readable = true;
  ph_writable = true;
  px_readable = true;
  px_writable = true;
  recv_ph = got (codes "GET / HTTP/1.0" ++ (13 ∷ 10 ∷ 13 ∷ 10 ∷ []));
  recv_px = got (codes "HTTP/1.0 200 OK");
  send_ph = took 3;
  send_px = took 1000;
  so_error = false;
  new_socket = some 8;
  connect = connected;
  has_memory = true;
  clock = 5;
  ntoa = λ ip. codes "1.2.3.4";
  numeric = λ h. some 77;
  resolve = λ h. none;
}

abbrev caller : Arrival
caller = record {
  fd = 7;
  peer_ip = phone_addr_n;
  peer_port = 40000;
  has_memory = true;
  clock = 5;
  address = codes "1.2.3.4";
}

abbrev calling : Round
calling = record {
  select = ready;
  free_heap = 30000;
  now = 5;
  envs = λ i. asked;
  http = some caller;
  https = none;
}

abbrev asking : Round
asking = record calling { now = 6; http = none }

some_fits :
    (a : Arrival) → ◌≡◌ {A = Option Arrival} (some caller) (some a) → length a.address < host_max
some_fits a e = subst (λ b. length b.address < host_max) (some-injective _ _ e) (omega arith)

none_fits : (a : Arrival) → ◌≡◌ {A = Option Arrival} none (some a) → length a.address < host_max
none_fits a e = absurd (none-ne-some _ e)

day-IsRound : All IsRound (calling ∷ asking ∷ asking ∷ [])
day-IsRound =
    let later : IsRound asking = record {
      texts = λ i ip. omega arith;
      http_text = none_fits;
      https_text = none_fits;
    } in
    (
      record { texts = λ i ip. omega arith; http_text = some_fits; https_text = none_fits },
      (later, (later, tt)),
    )

abbrev day : List Session × Shared
day = rounds (calling ∷ asking ∷ asking ∷ []) (no_sessions, at_start (site_flow ∷ []) lite)

rounds-IsSound_example : All IsSound day.0
rounds-IsSound_example =
    rounds-IsSound (calling ∷ asking ∷ asking ∷ []) (site_flow ∷ []) lite day-IsRound

rounds_sockets_example :
    ((fd : ℕ)
      → times_opened fd day.1.calls ≡ times_closed fd day.1.calls + total (held_by fd) day.0)
    × (day.1.active ≡ total one_if_used day.0)
rounds_sockets_example =
    rounds_sockets (calling ∷ asking ∷ asking ∷ []) (site_flow ∷ []) lite day-IsRound

abbrev copying : Session
copying = record no_session {
  used = true;
  stage = splicing;
  ph = some 7;
  px = some 8;
  up = codes "abc";
  deadline = 125;
}

abbrev apart : Shared
apart = record { calls = []; active = 1; flows = site_flow ∷ []; settings = lite; resolved = none }

copying_refines_example :
    IsCopying 7 8 (codes "abc") [] (serve_run ((asked, 6) ∷ (asked, 7) ∷ []) (copying, apart))
copying_refines_example =
    serve_run_refines 7 8 ((asked, 6) ∷ (asked, 7) ∷ []) copying apart (λ e. omega arith) refl refl
      refl refl

-- Slot 0 is silent while the session in slot 1 copies and a phone connects; the clock wraps.
abbrev busy : ℕ → Round
busy now = record calling {
  now = now;
  envs = λ i.
      if i == 0
      then record asked {
        ph_readable = false;
        ph_writable = false;
        px_readable = false;
        px_writable = false;
      }
      else asked;
}

abbrev waiting : Session
waiting = record copying { deadline = 4 }

busy-IsQuiet : (now at : ℕ) → now ≡ u32 at → IsQuiet 0 (busy now) at
busy-IsQuiet now at e = record {
  clock = e;
  silent = record {
    no_phone_input = refl;
    no_phone_room = refl;
    no_proxy_input = refl;
    no_proxy_room = refl;
  };
}

silent_session_ends_example :
    (get_elem? (rounds (busy 4294967290 ∷ []) (waiting ∷ copying ∷ no_session ∷ [], apart)).0 0
      ≡ some waiting)
    × (get_elem?
          (proxy_round
            (busy 5)
            (rounds (busy 4294967290 ∷ []) (waiting ∷ copying ∷ no_session ∷ [], apart))).0
          0
        ≡ some no_session)
silent_session_ends_example =
    silent_session_ends (busy 4294967290 ∷ []) (busy 5) 0 4294967300 4294967301
      (waiting ∷ copying ∷ no_session ∷ [], apart) waiting refl refl
      (record { no_shut = refl; no_end = refl }) refl
      ((4294967290, busy-IsQuiet 4294967290 4294967290 refl, omega arith, omega arith), tt)
      (busy-IsQuiet 5 4294967301 refl) (omega arith) (omega arith) (λ e. cc)

-- The request line that the proxy gets has the address in full.
day_calls :
    day.1.calls
    ≡ receives 8 (codes "HTTP/1.0 200 OK")
      ∷ sends 8 (codes "GET http://1.2.3.4/ HTTP/1.0" ++ (crlf ++ close_lines))
      ∷ opens 8
      ∷ receives 7 (codes "GET / HTTP/1.0" ++ (crlf ++ crlf))
      ∷ opens 7
      ∷ []
unfolding rounds proxy_round serve_all expire_all each expire at_start no_sessions do_accept place
    has_slot sess_service sess_fds serve_head head_ready head_rewritten start_connect try_connect
    proxy_addr on_connected splice splice_up splice_down splice_end send_up send_down receive_up
    receive_down accepted sess_close http_rewrite find_crlf2 flow_lookup flow_find request_line cut
    rewrite_line copy_pass split_end out_add host_or_address host_ok host_pass proxy_get
    flow_find_from
day_calls = refl
