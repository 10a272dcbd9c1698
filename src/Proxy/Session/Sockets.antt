-- ===== src/Proxy/Session/Sockets.antt =====
-- The sockets of the relay in main/http_proxy.c, the count of its sessions, and their buffers, over any
-- rounds of its task.
use vetera_bridge.Prelude.{
  ℕ, ◌+◌, ◌≡◌, refl, sym, ap, ◌∙◌, true, Option, none, some, List, [], ◌∷◌, arith, ◌==◌,
  if◌then◌else◌,
}
use vetera_bridge.Proxy.Session.{
  head, Session, Call, opens, closes, shuts, receives, sends, Shared, Answers, close_fd, sess_close,
}
use vetera_bridge.Proxy.Session.Steps.{turns, IsAlike, IsStepped}

-- How often a socket was opened, and closed.
unfoldable pub times_opened : ℕ → List Call → ℕ
times_opened fd [] = 0
times_opened fd (opens g ∷ cs) = (if g == fd then 1 else 0) + times_opened fd cs
times_opened fd (_ ∷ cs) = times_opened fd cs

unfoldable pub times_closed : ℕ → List Call → ℕ
times_closed fd [] = 0
times_closed fd (closes g ∷ cs) = (if g == fd then 1 else 0) + times_closed fd cs
times_closed fd (_ ∷ cs) = times_closed fd cs

abbrev pub holds : ℕ → Option ℕ → ℕ
holds fd none = 0
holds fd (some g) = if g == fd then 1 else 0

-- How many times a session holds a socket.
abbrev pub held_by : ℕ → Session → ℕ
held_by fd s = if s.used then holds fd s.ph + holds fd s.px else 0

abbrev pub one_if_used : Session → ℕ
one_if_used s = if s.used then 1 else 0

times_opened-turns : (fd : ℕ) (cs : List Call) → times_opened fd (turns cs) ≡ times_opened fd cs
unfolding times_opened turns
times_opened-turns fd [] = refl
times_opened-turns fd (opens g ∷ cs) = ground (arith, times_opened-turns fd cs)
times_opened-turns fd (closes g ∷ cs) = times_opened-turns fd cs
times_opened-turns fd (shuts g ∷ cs) = times_opened-turns fd cs
times_opened-turns fd (receives g bs ∷ cs) = times_opened-turns fd cs
times_opened-turns fd (sends g bs ∷ cs) = times_opened-turns fd cs

times_closed-turns : (fd : ℕ) (cs : List Call) → times_closed fd (turns cs) ≡ times_closed fd cs
unfolding times_closed turns
times_closed-turns fd [] = refl
times_closed-turns fd (opens g ∷ cs) = times_closed-turns fd cs
times_closed-turns fd (closes g ∷ cs) = ground (arith, times_closed-turns fd cs)
times_closed-turns fd (shuts g ∷ cs) = times_closed-turns fd cs
times_closed-turns fd (receives g bs ∷ cs) = times_closed-turns fd cs
times_closed-turns fd (sends g bs ∷ cs) = times_closed-turns fd cs

times_opened-close_fd :
    (fd : ℕ) (o : Option ℕ) (cs : List Call) → times_opened fd (close_fd o cs) ≡ times_opened fd cs
unfolding times_opened
times_opened-close_fd fd none cs = refl
times_opened-close_fd fd (some g) cs = refl

times_closed-close_fd :
    (fd : ℕ) (o : Option ℕ) (cs : List Call)
    → times_closed fd (close_fd o cs) ≡ holds fd o + times_closed fd cs
unfolding times_closed
times_closed-close_fd fd none cs = omega arith
times_closed-close_fd fd (some g) cs = refl

-- The socket to the proxy is made when the head is read.
abbrev pub IsFresh : Session → Type 0
IsFresh s = s.stage ≡ head → s.px ≡ none

-- One socket, while the other sessions hold it `k` times.
abbrev pub Balanced : ℕ → ℕ → Session × Shared → Type 0
Balanced fd k (s, w) =
    IsFresh s × (times_opened fd w.calls ≡ times_closed fd w.calls + (held_by fd s + k))

pub close-Balanced :
    (fd k : ℕ) (io : Answers) (s : Session) (w : Shared)
    → s.used ≡ true
    → Balanced fd k (s, w)
    → Balanced fd k (sess_close io s w)
unfolding sess_close
close-Balanced fd k io s w u v = ground (
  arith,
  u,
  v,
  times_opened-close_fd fd s.ph w.calls,
  times_opened-close_fd fd s.px (close_fd s.ph w.calls),
  times_closed-close_fd fd s.ph w.calls,
  times_closed-close_fd fd s.px (close_fd s.ph w.calls),
)

alike-Balanced :
    (fd k : ℕ) (s s' : Session) (w w' : Shared)
    → IsAlike s s' w w'
    → Balanced fd k (s, w)
    → Balanced fd k (s', w')
alike-Balanced fd k s s' w w' a v =
    let same_opened : times_opened fd w'.calls ≡ times_opened fd w.calls =
      sym (times_opened-turns fd w'.calls)
      ∙ ap (times_opened fd) a.calls
      ∙ times_opened-turns fd w.calls in
    let same_closed : times_closed fd w'.calls ≡ times_closed fd w.calls =
      sym (times_closed-turns fd w'.calls)
      ∙ ap (times_closed fd) a.calls
      ∙ times_closed-turns fd w.calls in
    ((λ h. a.px ∙ v.0 (a.stage h)), ground (arith, a, v.1, same_opened, same_closed))

pub Balanced-IsStepped : (fd k : ℕ) (io : Answers) → IsStepped (Balanced fd k) io
unfolding times_opened times_closed
Balanced-IsStepped fd k io = record {
  close = close-Balanced fd k io;
  alike = alike-Balanced fd k;
  socket = λ s w g u none_yet v. ground (arith, u, none_yet, v);
}

-- The count of sessions, while the others are `k`.
abbrev pub Counted : ℕ → Session × Shared → Type 0
Counted k (s, w) = IsFresh s × (w.active ≡ one_if_used s + k)

pub Counted-IsStepped : (k : ℕ) (io : Answers) → IsStepped (Counted k) io
unfolding sess_close
Counted-IsStepped k io = record {
  close = λ s w u v. ground (arith, u, v);
  alike = λ s s' w w' a v. ((λ h. a.px ∙ v.0 (a.stage h)), ground (arith, a, v.1));
  socket = λ s w g u none_yet v. ground (arith, v);
}
