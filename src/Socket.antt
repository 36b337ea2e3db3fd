-- ===== src/Socket.antt =====
-- nv-ui/app/scripts/services/nvSocketSrv.js: the web socket of the live events and its reconnection.
--
-- The browser is modelled with the service: the sockets that still call the service's `onclose`, and
-- the timers that have been set and not yet fired or been cleared. Handles are numbers.
pub mod Safety
pub mod Timers
pub mod Liveness
mod Examples
use neural_vyuha_prime.Common.{
  ℕ, ◌+◌, String, Bool, true, false, not, ◌||◌, Option, none, some, List, [], ◌∷◌, ◌==◌, eqb,
  filter, if◌then◌else◌,
}

pub record SocketState : Type 0 where
  pub has_token : Bool
  pub socket : Option ℕ
  pub reconnect_timer : Option ℕ
  pub listening : List ℕ
  pub pending : List ℕ
  pub next : ℕ

abbrev pub initial : Bool → SocketState
initial token = record {
  has_token = token;
  socket = none;
  reconnect_timer = none;
  listening = [];
  pending = [];
  next = 1;
}

abbrev pub without : ℕ → List ℕ → List ℕ
without h ks = filter (λ k. not (eqb k h)) ks

-- `connect`; `created` is false where the constructor of the socket throws.
unfoldable pub connect : Bool → SocketState → SocketState
connect created s = elim s.socket [
  | some h ↦ s
  | none ↦
      if s.has_token
      then (if created
          then record s {
            socket = some s.next;
            listening = s.next ∷ s.listening;
            next = s.next + 1;
          }
          else s)
      else s
]

unfoldable pub on_open : SocketState → SocketState
on_open s = elim s.reconnect_timer [
  | none ↦ s
  | some t ↦ record s { reconnect_timer = none; pending = without t s.pending }
]

-- `onclose` of the socket h.
unfoldable pub on_close : ℕ → SocketState → SocketState
on_close h s = record s {
  socket = none;
  listening = without h s.listening;
  reconnect_timer = some s.next;
  pending = s.next ∷ s.pending;
  next = s.next + 1;
}

-- The timer t fires.
unfoldable pub on_timer : ℕ → Bool → SocketState → SocketState
unfolding connect
on_timer t created s = connect created (record s { pending = without t s.pending })

unfoldable pub close_socket : SocketState → SocketState
close_socket s = elim s.socket [
  | none ↦ s
  | some h ↦ record s { socket = none; listening = without h s.listening }
]

unfoldable pub disconnect : SocketState → SocketState
unfolding close_socket
disconnect s =
    let closed = close_socket s in
    elim closed.reconnect_timer [
      | none ↦ closed
      | some t ↦ record closed { reconnect_timer = none; pending = without t closed.pending }
    ]

-- What a message from the server makes the service do: answer it, nothing, or broadcast it.
pub data Reaction : Type 0 where
  pong ignored broadcast : Reaction

unfoldable pub on_message : String → Reaction
on_message type =
    if type == "PING" then pong else if type == "CONNECTED" then ignored else broadcast
