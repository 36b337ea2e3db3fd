-- ===== src/Socket/Safety.antt =====
-- There is never more than one socket.
use neural_vyuha_prime.Common.{ℕ, Bool, none, some, [], ◌∷◌, ◌≡◌, refl, arith}
use neural_vyuha_prime.Socket.{
  SocketState, initial, connect, on_open, on_close, on_timer, disconnect, close_socket, without,
}

-- What can happen: calls of the service, and the events of the browser. A socket that does not
-- listen any more, and a timer that is not pending, raise none. The user may log in or out.
pub data Step (s : SocketState) : SocketState → Type 0 where
  connects : (created : Bool) → Step s (connect created s)
  opens : Step s (on_open s)
  closes : (h : ℕ) → s.socket ≡ some h → Step s (on_close h s)
  fires : (t : ℕ) (created : Bool) → Step s (on_timer t created s)
  disconnects : Step s (disconnect s)
  logs : (token : Bool) → Step s (record s { has_token = token })

pub data Reach (s : SocketState) : SocketState → Type 0 where
  here : Reach s s
  next : {t u : SocketState} → Reach s t → Step t u → Reach s u

-- The sockets that listen are the current one, if there is one.
abbrev pub OneSocket : SocketState → Type 0
OneSocket s = s.listening ≡ elim s.socket [ none ↦ [] | some h ↦ h ∷ [] ]

without_self : (h : ℕ) → without h (h ∷ []) ≡ []
without_self h = ground arith

connect-OneSocket : (created : Bool) (s : SocketState) → OneSocket s → OneSocket (connect created s)
unfolding connect
connect-OneSocket created s o = ground arith

close-OneSocket : (s : SocketState) → OneSocket s → OneSocket (close_socket s)
unfolding close_socket
close-OneSocket s o = ground arith

Step-OneSocket : {s t : SocketState} → Step s t → OneSocket s → OneSocket t
unfolding on_open on_close on_timer disconnect
Step-OneSocket {s} (connects created) o = connect-OneSocket created s o
Step-OneSocket {s} opens o = ground arith
Step-OneSocket {s} (closes h e) o = ground arith
Step-OneSocket {s} (fires t created) o =
    connect-OneSocket created (record s { pending = without t s.pending }) o
Step-OneSocket {s} disconnects o = ground (arith, close-OneSocket s o)
Step-OneSocket {s} (logs token) o = o

-- Whatever happens from the start on, in whatever order, the sockets that still call the service
-- are the current one, or none where it has none.
pub Reach-OneSocket : (token : Bool) (s : SocketState) → Reach (initial token) s → OneSocket s
Reach-OneSocket token s here = refl
Reach-OneSocket token s (next {t = t} r st) = Step-OneSocket st (Reach-OneSocket token t r)
