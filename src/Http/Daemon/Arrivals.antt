-- ===== src/Http/Daemon/Arrivals.antt =====
-- New connections of src/httpd/HttpDaemon.cpp.
use v_ubercool.Base.{
  ℕ, suc, ◌+◌, ◌≤◌, ◌<◌, ◌^◌, ◌≡◌, ◌≢◌, ◌∙◌, refl, sym, ap, subst, inl, inr, Option, none, some,
  List, [], ◌∷◌, length, get_elem?, get_elem?_of_lt, set, get_elem?-set_self, All, All-get_elem?,
  All-mono, arith, ◌==◌, Bool-cases,
}
use v_ubercool.Base.Tree.{◌>>=◌}
use v_ubercool.Http.Connections.{Entry, ConnectionMgr, create_connection}
use v_ubercool.Http.Connections.Expiry.{Lacks}
use v_ubercool.Http.Connections.Keys.{HaveKeysUpto}
use v_ubercool.Http.Connections.Newest.{new_entry, IsLast, create-IsLast}
use v_ubercool.Http.Daemon.Threads.{IsWell, create-IsWell}
use v_ubercool.Http.Daemon.House.{on_thread-some}
use v_ubercool.Http.Daemon.Keys.{arrivals, run-IsKept_from_start}
use v_ubercool.Http.Daemon.{
  Daemon, create_daemon, next_key_of, on_new_connection, take_out, keep_first, arrived_at, Event,
  arrived, step, run,
}

HaveKeysUpto-Lacks : (k : ℕ) (es : List Entry) → HaveKeysUpto k es → Lacks (suc k) es
HaveKeysUpto-Lacks k [] h = tt
HaveKeysUpto-Lacks k (e ∷ es) h = ((λ q. omega (arith, q, h.0)), HaveKeysUpto-Lacks k es h.2)

keep_first-some :
    (j : ℕ) (o : Option (List ℕ)) {rest : List ℕ}
    → keep_first j o ≡ some rest
    → (more : List ℕ) × (o ≡ some more)
unfolding keep_first
keep_first-some j none h = cc
keep_first-some j (some is) h = (is, refl)

take_out-at {ℓ} :
    (P : ℕ → Type ℓ) (i : ℕ) (is : List ℕ) {rest : List ℕ}
    → All P is
    → take_out i is ≡ some rest
    → P i
unfolding take_out
take_out-at P i [] h e = cc
take_out-at P i (j ∷ is) h e = elim (Bool-cases (j == i)) [
  | inl t ↦ subst P (let same : j ≡ i = ground arith in same) h.0
  | inr f ↦
      let (more, g) = keep_first-some j (take_out i is) (rw (f, take_out) at e) in
      take_out-at P i is h.1 g
]

next_key_suc : (d : Daemon) {k : ℕ} → d.next_key ≡ k → suc k < 2 ^ 64 → next_key_of d ≡ suc k
unfolding next_key_of
next_key_suc d h small = omega (arith, h)

on_new_connection-some :
    (max now i : ℕ) (d : Daemon) {m : ConnectionMgr}
    → get_elem? d.managers i ≡ some m
    → on_new_connection max now i d
      ≡ some (record d {
        next_key = next_key_of d;
        managers = set d.managers i (create_connection max now (next_key_of d) m);
      })
unfolding on_new_connection
on_new_connection-some max now i d at =
    on_thread-some i (create_connection max now (next_key_of d))
      (record d { next_key = next_key_of d }) at

-- Whatever the threads have done since the start, if fewer than 2 ^ 31 connections have been made and a
-- socket waits for OnNewConnection at a thread, the thread is there, and its connection is made: it
-- gets a key that no connection of any thread has, it is the last of its thread, and the limit on
-- the connections of the thread is kept.
pub run-arrived :
    (max n : ℕ) (es : List Event) {d : Daemon}
    → arrivals es < 2 ^ 31
    → run max es (create_daemon n) ≡ some d
    → (now i : ℕ) {rest : List ℕ} → take_out i d.arriving ≡ some rest
    → (d' : Daemon) × (m : ConnectionMgr) × (step max (arrived now i) d ≡ some d')
      × (get_elem? d'.managers i ≡ some m)
      × IsLast (new_entry now d'.next_key) m
      × All (λ (other : ConnectionMgr). Lacks d'.next_key other.connections) d.managers
      × (max ≢ 0 → length m.connections ≤ max)
unfolding step arrived_at ◌>>=◌
run-arrived max n es {d} small h now i {rest} taken =
    let k : ℕ = 0 + arrivals es in
    let w = run-IsKept_from_start max n es small h in
    let lt : i < length d.managers =
      omega (arith, w.threads, take_out-at (λ j. j < n) i d.arriving w.known taken) in
    let (m, at) = get_elem?_of_lt d.managers i lt in
    let d1 : Daemon = record d { arriving = rest } in
    let key = next_key_of d in
    let same = next_key_suc d w.counter (omega arith) in
    let made = create_connection max now key m in
    let well =
      create-IsWell max k now key m same (All-get_elem? (IsWell max k) d.managers i w.well at) in
    (
      record d1 { next_key = key; managers = set d.managers i made },
      made,
      ap (λ o. o >>= λ rest. on_new_connection max now i (record d { arriving = rest })) taken
          ∙ on_new_connection-some max now i d1 at,
      get_elem?-set_self d.managers i made at,
      create-IsLast max now key m,
      All-mono (IsWell max k) (λ (other : ConnectionMgr). Lacks key other.connections) d.managers
          (λ x u.
            subst (λ y. Lacks y x.connections) (sym same)
              (HaveKeysUpto-Lacks k x.connections u.apart.apart))
          w.well,
      well.orderly.bounded,
    )
