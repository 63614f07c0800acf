-- ===== src/Http/Session/Pending.antt =====
-- The replies that the client of a connection has still to take (src/httpd/HttpDaemon.cpp).
use v_ubercool.Base.{ℕ, suc, ◌≤◌, ◌≡◌, ap, Bytes, length, arith, if_intro}
use v_ubercool.Http.Session.{
  Phase, reading, writing, writing_bad, closed, crashed, World, finish, while_open, to_phase,
  await_more,
}

-- A bound on the replies that the client has still to take.
unfoldable pub replies_left : Phase → Bytes → ℕ
replies_left (writing state) octets = suc (length octets)
replies_left writing_bad octets = 1
replies_left phase octets = 0

unfoldable pub left : World → ℕ
left w = replies_left w.conn.phase w.conn.received

-- No reply is on its way.
unfoldable pub IsSettled : Phase → Type 0
IsSettled (writing state) = ⊥
IsSettled writing_bad = ⊥
IsSettled phase = Unit

pub replies_left-bound : (p : Phase) (octets : Bytes) → replies_left p octets ≤ suc (length octets)
unfolding replies_left
replies_left-bound (writing state) octets = omega arith
replies_left-bound writing_bad octets = omega arith
replies_left-bound reading octets = omega arith
replies_left-bound closed octets = omega arith
replies_left-bound crashed octets = omega arith

pub replies_left-IsSettled : (p : Phase) (octets : Bytes) → replies_left p octets ≡ 0 → IsSettled p
unfolding replies_left IsSettled
replies_left-IsSettled (writing state) octets h = absurd (omega (arith, h))
replies_left-IsSettled writing_bad octets h = absurd (omega (arith, h))
replies_left-IsSettled reading octets h = tt
replies_left-IsSettled closed octets h = tt
replies_left-IsSettled crashed octets h = tt

-- Behind a step that leaves at most as much in the buffer.
unfoldable pub AtMost : ℕ → World → Type 0
AtMost n w = left w ≤ n

pub finish-AtMost : (n : ℕ) (w : World) → AtMost n (finish w)
unfolding AtMost left replies_left finish
finish-AtMost n w = omega arith

pub crash-AtMost : (n : ℕ) (w : World) → AtMost n (to_phase crashed w)
unfolding AtMost left replies_left to_phase
crash-AtMost n w = omega arith

pub while_open-AtMost : (n : ℕ) (stay w : World) → AtMost n stay → AtMost n (while_open stay w)
unfolding while_open
while_open-AtMost n stay w h =
    if_intro (AtMost n) w.conn.socket_open _ _ (λ _. h) (λ _. finish-AtMost n w)

pub read-AtMost : (n : ℕ) (w : World) → AtMost n (to_phase reading w)
unfolding AtMost left replies_left to_phase
read-AtMost n w = omega arith

pub await_more-AtMost : (n : ℕ) (w : World) → AtMost n (await_more w)
unfolding await_more
await_more-AtMost n w = while_open-AtMost n _ w (read-AtMost n w)

pub same-AtMost :
    (n : ℕ) (w w' : World)
    → w'.conn.received ≡ w.conn.received
    → suc (length w.conn.received) ≤ n
    → AtMost n w'
unfolding AtMost left
same-AtMost n w w' e h =
    omega (arith, replies_left-bound w'.conn.phase w'.conn.received, ap length e, h)

pub weaken-AtMost : (m n : ℕ) (w : World) → AtMost m w → m ≤ n → AtMost n w
unfolding AtMost
weaken-AtMost m n w h k = omega (arith, h, k)

pub idle-AtMost :
    (n : ℕ) (p : Phase) (w : World)
    → p ≡ w.conn.phase
    → ((octets : Bytes) → replies_left p octets ≡ 0)
    → AtMost n w
unfolding AtMost left
idle-AtMost n p w e h = omega (arith, ap (λ q. replies_left q w.conn.received) e, h w.conn.received)

pub left-IsSettled : (w : World) → AtMost 0 w → IsSettled w.conn.phase
unfolding AtMost left
left-IsSettled w h = replies_left-IsSettled w.conn.phase w.conn.received (omega (arith, h))

pub start-AtMost : (w : World) → AtMost (suc (length w.conn.received)) w
unfolding AtMost left
start-AtMost w = replies_left-bound w.conn.phase w.conn.received
