-- ===== src/Socket/Examples.antt =====
-- A session that opens a socket and loses it.
use neural_vyuha_prime.Common.{ℕ, true, some, any, eqb, ◌≡◌, ◌⊎◌, refl}
use neural_vyuha_prime.Socket.{SocketState, initial, connect, on_close, on_timer}
use neural_vyuha_prime.Socket.Safety.{
  Reach, here, next, connects, closes, OneSocket, Reach-OneSocket,
}
use neural_vyuha_prime.Socket.Liveness.{Run, start, then_event, is_closed, Run-reconnects}

abbrev lost : SocketState
unfolding connect on_close
lost = on_close 1 (connect true (initial true))

lost-Reach : Reach (initial true) lost
unfolding connect on_close
lost-Reach = next (next here (connects true)) (closes 1 refl)

Reach-OneSocket_example : OneSocket lost
unfolding connect on_close
Reach-OneSocket_example = Reach-OneSocket true lost lost-Reach

lost-Run : Run (connect true (initial true)) lost
unfolding connect on_close
lost-Run = then_event start (is_closed 1 refl)

Run-reconnects_example :
    ((h : ℕ) × (lost.socket ≡ some h))
    ⊎ ((t : ℕ) × (any (λ k. eqb k t) lost.pending ≡ true)
        × ((h : ℕ) × ((on_timer t true lost).socket ≡ some h)))
unfolding connect on_close
Run-reconnects_example = Run-reconnects lost lost-Run
