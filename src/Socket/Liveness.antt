-- ===== src/Socket/Liveness.antt =====
-- The service comes back after its socket was closed.
use neural_vyuha_prime.Common.{
  ℕ, Bool, true, false, ◌||◌, none, some, Option, List, [], ◌∷◌, any, eqb, ◌≡◌, ◌⊎◌, inl, inr, refl,
  arith, Option-cases,
}
use neural_vyuha_prime.Uniq.{is_nonempty}
use neural_vyuha_prime.Socket.{SocketState, initial, connect, on_open, on_close, on_timer}

-- The events while the user stays logged in, the service is not told to disconnect, and the
-- constructor of the socket does not throw.
pub data Event (s : SocketState) : SocketState → Type 0 where
  calls_connect : Event s (connect true s)
  is_opened : (h : ℕ) → s.socket ≡ some h → Event s (on_open s)
  is_closed : (h : ℕ) → s.socket ≡ some h → Event s (on_close h s)
  timer_fires : (t : ℕ) → any (λ k. eqb k t) s.pending ≡ true → Event s (on_timer t true s)

pub data Run (s : SocketState) : SocketState → Type 0 where
  start : Run s s
  then_event : {t u : SocketState} → Run s t → Event t u → Run s u

abbrev is_some : Option ℕ → Bool
is_some none = false
is_some (some h) = true

abbrev IsAlive : SocketState → Type 0
IsAlive s = (s.has_token ≡ true) × ((is_some s.socket || is_nonempty s.pending) ≡ true)

Event-IsAlive : {s t : SocketState} → Event s t → IsAlive s → IsAlive t
unfolding connect on_open on_close on_timer
Event-IsAlive {s} calls_connect (token, alive) = ground arith
Event-IsAlive {s} (is_opened h e) (token, alive) = ground arith
Event-IsAlive {s} (is_closed h e) (token, alive) = (token, refl)
Event-IsAlive {s} (timer_fires t p) (token, alive) = ground arith

Run-IsAlive : {s t : SocketState} → Run s t → IsAlive s → IsAlive t
Run-IsAlive start a = a
Run-IsAlive (then_event r e) a = Event-IsAlive e (Run-IsAlive r a)

some_pending : (ts : List ℕ) → is_nonempty ts ≡ true → (t : ℕ) × (any (λ k. eqb k t) ts ≡ true)
some_pending [] h = cc
some_pending (t ∷ ts) h = (t, ground arith)

revived :
    (t : ℕ) (s : SocketState)
    → s.has_token ≡ true
    → s.socket ≡ none
    → (on_timer t true s).socket ≡ some s.next
unfolding on_timer connect
revived t s token closed = ground arith

-- While the user stays logged in, the service is not told to disconnect and sockets can be made:
-- whatever happens after the service has connected, there is a socket, or a timer is pending that
-- makes one when it fires.
pub Run-reconnects :
    (s : SocketState)
    → Run (connect true (initial true)) s
    → ((h : ℕ) × (s.socket ≡ some h))
      ⊎ ((t : ℕ) × (any (λ k. eqb k t) s.pending ≡ true)
          × ((h : ℕ) × ((on_timer t true s).socket ≡ some h)))
unfolding connect on_timer
Run-reconnects s r =
    let (token, alive) = Run-IsAlive r (refl, refl) in
    elim (Option-cases s.socket) [
      | inr (h, e) ↦ inl (h, e)
      | inl closed ↦
          let (t, waits) = some_pending s.pending (rw closed at alive) in
          inr (t, waits, (s.next, revived t s token closed))
    ]
