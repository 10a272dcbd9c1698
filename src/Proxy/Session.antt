-- ===== src/Proxy/Session.antt =====
-- The relay sessions of main/http_proxy.c: what a session holds, and how it ends. `none` is the
-- socket -1. A buffer is the bytes that it holds, so `up_len` is the length of `up`.
pub mod Setup
pub mod Splice
pub mod Task
pub mod Cases
pub mod Heads
pub mod Halves
pub mod Buffers
pub mod Rounds
pub mod Steps
pub mod Sockets
pub mod Kept
pub mod Pipes
pub mod Copying
pub mod Expiry
mod Tests
use vetera_bridge.Prelude.{ℕ, ◌+◌, ◌-◌, Bool, false, Option, none, some, List, [], ◌∷◌, take}
use vetera_bridge.Proxy.Settings.{Settings}
use vetera_bridge.Proxy.Flow.{Flow, flow_mark_closed}

abbrev pub sess_max : ℕ
sess_max = 4

abbrev pub up_sz : ℕ
up_sz = 2048

abbrev pub up_cap : ℕ
up_cap = up_sz + 512

abbrev pub down_sz : ℕ
down_sz = 1536

abbrev pub setup_ms : ℕ
setup_ms = 10000

pub data Stage : Type 0 where
  head connecting reply splicing : Stage

pub record Session : Type 0 where
  pub used : Bool
  pub tls : Bool
  pub stage : Stage
  pub ph : Option ℕ
  pub px : Option ℕ
  pub phone_port : ℕ
  pub orig_ip : ℕ
  pub up : List ℕ
  pub up_off : ℕ
  pub down : List ℕ
  pub down_off : ℕ
  pub ph_eof : Bool
  pub px_eof : Bool
  pub px_shut : Bool
  pub deadline : ℕ  -- uint32
  pub host : List ℕ

-- A slot after its `memset`.
abbrev pub no_session : Session
no_session = record {
  used = false;
  tls = false;
  stage = head;
  ph = none;
  px = none;
  phone_port = 0;
  orig_ip = 0;
  up = [];
  up_off = 0;
  down = [];
  down_off = 0;
  ph_eof = false;
  px_eof = false;
  px_shut = false;
  deadline = 0;
  host = [];
}

-- The calls on sockets, with the bytes that went through.
pub data Call : Type 0 where
  opens closes shuts : ℕ → Call
  receives sends : ℕ → List ℕ → Call

-- What the sessions share. `resolved` is `resolved_host` with `resolved_addr`, where
-- `resolved_valid`; `calls` has the newest call first.
pub record Shared : Type 0 where
  pub calls : List Call
  pub active : ℕ
  pub flows : List Flow
  pub settings : Settings
  pub resolved : Option (List ℕ × ℕ)

-- A receive; no byte is the end of the stream.
pub data Recv : Type 0 where
  got : List ℕ → Recv
  got_nothing got_error : Recv

-- A send: how many bytes it would take.
pub data Send : Type 0 where
  took : ℕ → Send
  took_nothing took_error : Send

pub data Connect : Type 0 where
  connected pending refused : Connect

-- What lwIP and the heap answer while one session is served.
pub record Answers : Type 0 where
  pub ph_readable : Bool
  pub ph_writable : Bool
  pub px_readable : Bool
  pub px_writable : Bool
  pub recv_ph : Recv
  pub recv_px : Recv
  pub send_ph : Send
  pub send_px : Send
  pub so_error : Bool
  pub new_socket : Option ℕ
  pub connect : Connect
  pub has_memory : Bool
  pub clock : ℕ  -- `now_ms()` in `flow_mark_closed`
  pub ntoa : ℕ → List ℕ
  pub numeric : List ℕ → Option ℕ
  pub resolve : List ℕ → Option ℕ

-- `if (fd >= 0) close(fd)`
abbrev pub close_fd : Option ℕ → List Call → List Call
close_fd none cs = cs
close_fd (some fd) cs = closes fd ∷ cs

-- A call on a socket that is there.
abbrev pub on_fd : Option ℕ → (ℕ → Call) → List Call → List Call
on_fd none f cs = cs
on_fd (some fd) f cs = f fd ∷ cs

unfoldable pub sess_close : Answers → Session → Shared → Session × Shared
sess_close io s w = (
  no_session,
  record w {
    calls = close_fd s.px (close_fd s.ph w.calls);
    flows = flow_mark_closed w.flows s.phone_port io.clock;
    active = w.active - 1;
  },
)

-- `sess_fail` also writes to the log.
abbrev pub sess_fail : Answers → Session → Shared → Session × Shared
sess_fail = sess_close

abbrev pub bytes_of : Send → List ℕ → List ℕ
bytes_of (took k) bytes = take k bytes
bytes_of took_nothing bytes = []
bytes_of took_error bytes = []
