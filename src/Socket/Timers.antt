-- ===== src/Socket/Timers.antt =====
-- Which timers survive `disconnect`.
use neural_vyuha_prime.Common.{
  ℕ, ◌+◌, ◌<◌, Bool, true, Option, none, some, List, [], ◌∷◌, ◌≡◌, refl, arith,
}
use neural_vyuha_prime.Socket.{
  SocketState, initial, connect, on_open, on_close, on_timer, disconnect, without,
}
use neural_vyuha_prime.Socket.Safety.{
  Step, connects, opens, closes, fires, disconnects, logs, Reach, here, next,
}

-- Every pending timer has a handle that was given out.
abbrev pub AllBelow : ℕ → List ℕ → Type 0
AllBelow n [] = Unit
AllBelow n (k ∷ ks) = (k < n) × AllBelow n ks

AllBelow-suc : (n : ℕ) (ks : List ℕ) → AllBelow n ks → AllBelow (n + 1) ks
AllBelow-suc n [] a = tt
AllBelow-suc n (k ∷ ks) (lt, a) = (omega arith, AllBelow-suc n ks a)

AllBelow-without : (n t : ℕ) (ks : List ℕ) → AllBelow n ks → AllBelow n (without t ks)
AllBelow-without n t [] a = tt
AllBelow-without n t (k ∷ ks) (lt, a) = ground (arith, AllBelow-without n t ks a)

abbrev IsFresh : SocketState → Type 0
IsFresh s = AllBelow s.next s.pending

connect-IsFresh : (created : Bool) (s : SocketState) → IsFresh s → IsFresh (connect created s)
unfolding connect
connect-IsFresh created s a = ground (arith, AllBelow-suc s.next s.pending a)

-- What clearing the held timer leaves pending.
abbrev cleared : Option ℕ → List ℕ → List ℕ
cleared none ks = ks
cleared (some t) ks = without t ks

AllBelow-cleared :
    (n : ℕ) (held : Option ℕ) (ks : List ℕ) → AllBelow n ks → AllBelow n (cleared held ks)
AllBelow-cleared n none ks a = a
AllBelow-cleared n (some t) ks a = AllBelow-without n t ks a

on_open-pending :
    (s : SocketState)
    → ((on_open s).pending ≡ cleared s.reconnect_timer s.pending) × ((on_open s).next ≡ s.next)
unfolding on_open
on_open-pending s = ground arith

disconnect-pending :
    (s : SocketState)
    → ((disconnect s).pending ≡ cleared s.reconnect_timer s.pending)
      × ((disconnect s).next ≡ s.next)
unfolding disconnect
disconnect-pending s = ground arith

Step-IsFresh : {s t : SocketState} → Step s t → IsFresh s → IsFresh t
unfolding on_close on_timer
Step-IsFresh {s} (connects created) a = connect-IsFresh created s a
Step-IsFresh {s} opens a =
    let (p, n) = on_open-pending s in
    rw (p, n) (AllBelow-cleared s.next s.reconnect_timer s.pending a)
Step-IsFresh {s} (closes h e) a = (omega arith, AllBelow-suc s.next s.pending a)
Step-IsFresh {s} (fires t created) a =
    connect-IsFresh created (record s { pending = without t s.pending })
      (AllBelow-without s.next t s.pending a)
Step-IsFresh {s} disconnects a =
    let (p, n) = disconnect-pending s in
    rw (p, n) (AllBelow-cleared s.next s.reconnect_timer s.pending a)
Step-IsFresh {s} (logs token) a = a

Reach-IsFresh : (token : Bool) (s : SocketState) → Reach (initial token) s → IsFresh s
Reach-IsFresh token s here = tt
Reach-IsFresh token s (next {t = t} r st) = Step-IsFresh st (Reach-IsFresh token t r)

without-AllBelow : (n t : ℕ) (ks : List ℕ) → AllBelow n ks → n < t + 1 → without t ks ≡ ks
without-AllBelow n t [] a h = refl
without-AllBelow n t (k ∷ ks) (lt, a) h = ground (arith, without-AllBelow n t ks a)

-- In every reachable state with a token and without a socket: a socket that is opened by `connect`
-- and closed again leaves the timers that were already pending out of reach. `disconnect` clears
-- the timer of its own closing, and none of them.
pub pending-disconnect-close-connect :
    (token : Bool) (s : SocketState)
    → Reach (initial token) s
    → s.socket ≡ none
    → s.has_token ≡ true
    → (disconnect (on_close s.next (connect true s))).pending ≡ s.pending
unfolding disconnect on_close connect
pending-disconnect-close-connect token s r gone logged =
    ground (arith, without-AllBelow s.next (s.next + 1) s.pending (Reach-IsFresh token s r))
