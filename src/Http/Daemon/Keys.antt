-- ===== src/Http/Daemon/Keys.antt =====
-- The keys that `GetNextKey` of src/httpd/HttpDaemon.cpp gives to the connections of all threads.
use v_ubercool.Base.{
  ℕ, suc, ◌+◌, ◌≤◌, ◌<◌, ◌%◌, ◌^◌, ◌≡◌, ◌∙◌, refl, subst, inl, inr, Option, none, some, List, [],
  ◌∷◌, ◌++◌, length, length-set, get_elem?, set, length-replicate, All, All-append, All-set,
  All-get_elem?, All-replicate, All-mono, arith, ltb, ◌==◌, if_intro, Bool-cases, Option-cases,
}
use v_ubercool.Base.Tree.{OnSome, >>=-OnSome, OnSome-at}
use v_ubercool.Stats.{StatType, Statistics, reset}
use v_ubercool.Http.Connections.{ConnectionMgr, remove_expired}
use v_ubercool.Http.Connections.Limits.{start}
use v_ubercool.Http.Daemon.Threads.{
  IsWell, IsWell-mono, start-IsWell, with_stats-IsWell, call-IsWell, expire-IsWell, create-IsWell,
}
use v_ubercool.Http.Daemon.{
  Daemon, create_daemon, change_manager, on_thread, count_connection, count_failure, accepted_at,
  accept_failed_at, next_key_of, on_new_connection, keep_first, take_out, arrived_at, report_of,
  update_stats, housekeeping, collect_report, call, Event, accepted, accept_failed, arrived, called,
  kept_house, collected, dns_reported, step, run,
}

-- How many connections have been made.
abbrev made : Event → ℕ → ℕ
made (arrived now i) k = suc k
made _ k = k

abbrev pub arrivals : List Event → ℕ
arrivals [] = 0
arrivals (e ∷ es) = made e (arrivals es)

-- All threads' connections, when `k` have been made.
pub record IsKept (max n k : ℕ) (d : Daemon) : Type 0 where
  pub threads : length d.managers ≡ n
  pub counter : d.next_key ≡ k
  pub well : All (IsWell max k) d.managers
  pub known : All (λ i. i < n) d.arriving

create_daemon-IsKept : (max n : ℕ) → IsKept max n 0 (create_daemon n)
unfolding create_daemon
create_daemon-IsKept max n = record {
  threads = length-replicate n start;
  counter = refl;
  well = All-replicate (IsWell max 0) n start (start-IsWell max);
  known = tt;
}

-- What is done on a thread that is there.
on_thread-OnSome {ℓ} :
    (P : Daemon → Type ℓ) (i : ℕ) (f : ConnectionMgr → ConnectionMgr) (d : Daemon)
    → ((m : ConnectionMgr)
        → get_elem? d.managers i ≡ some m
        → P (record d { managers = set d.managers i (f m) }))
    → OnSome P (on_thread i f d)
unfolding on_thread change_manager OnSome
on_thread-OnSome P i f d h = elim (Option-cases (get_elem? d.managers i)) [
  | inl e ↦ rw (e, change_manager) tt
  | inr (m, e) ↦ rw (e, change_manager) (h m e)
]

-- A change of one manager that leaves the keys alone.
on_thread-IsKept :
    (max n k i : ℕ) (f : ConnectionMgr → ConnectionMgr) (d : Daemon)
    → ((m : ConnectionMgr) → IsWell max k m → IsWell max k (f m))
    → IsKept max n k d
    → OnSome (IsKept max n k) (on_thread i f d)
on_thread-IsKept max n k i f d keep w = on_thread-OnSome (IsKept max n k) i f d (λ m at. record {
  threads = length-set d.managers i (f m) ∙ w.threads;
  counter = w.counter;
  well =
      All-set (IsWell max k) d.managers i (f m) w.well
        (keep m (All-get_elem? (IsWell max k) d.managers i w.well at));
  known = w.known;
})

on_new_connection-IsKept :
    (max n k now i : ℕ) (d : Daemon)
    → suc k < 2 ^ 64
    → IsKept max n k d
    → OnSome (IsKept max n (suc k)) (on_new_connection max now i d)
unfolding on_new_connection next_key_of
on_new_connection-IsKept max n k now i d small w =
    let same : (d.next_key + 1) % 2 ^ 64 ≡ suc k = omega (arith, w.counter) in
    on_thread-OnSome (IsKept max n (suc k)) i _ _ (λ m at. record {
      threads = length-set d.managers i _ ∙ w.threads;
      counter = same;
      well =
          All-set (IsWell max (suc k)) d.managers i _
            (All-mono (IsWell max k) (IsWell max (suc k)) d.managers
              (λ x. IsWell-mono max k (suc k) x (omega arith)) w.well)
            (create-IsWell max k now _ m same
              (All-get_elem? (IsWell max k) d.managers i w.well at));
      known = w.known;
    })

keep_first-All {ℓ} :
    (P : ℕ → Type ℓ) (j : ℕ) (o : Option (List ℕ))
    → P j
    → OnSome (All P) o
    → OnSome (All P) (keep_first j o)
unfolding keep_first OnSome
keep_first-All P j none h k = tt
keep_first-All P j (some is) h k = (h, k)

pub take_out-All {ℓ} :
    (P : ℕ → Type ℓ) (i : ℕ) (is : List ℕ) → All P is → OnSome (All P) (take_out i is)
unfolding take_out OnSome
take_out-All P i [] h = tt
take_out-All P i (j ∷ is) h = elim (Bool-cases (j == i)) [
  | inl t ↦ rw (t, take_out) h.1
  | inr f ↦ rw (f, take_out) (keep_first-All P j (take_out i is) h.0 (take_out-All P i is h.1))
]

arrived_at-IsKept :
    (max n k now i : ℕ) (d : Daemon)
    → suc k < 2 ^ 64
    → IsKept max n k d
    → OnSome (IsKept max n (suc k)) (arrived_at max now i d)
unfolding arrived_at
arrived_at-IsKept max n k now i d small w =
    >>=-OnSome (All (λ j. j < n)) (IsKept max n (suc k)) (take_out i d.arriving) _
      (take_out-All (λ j. j < n) i d.arriving w.known)
      (λ rest h.
        on_new_connection-IsKept max n k now i (record d { arriving = rest }) small
          (record { threads = w.threads; counter = w.counter; well = w.well; known = h }))

update_stats-IsKept :
    (max n k i : ℕ) (d : Daemon) → IsKept max n k d → OnSome (IsKept max n k) (update_stats i d)
unfolding update_stats report_of OnSome
update_stats-IsKept max n k i d w = elim (Option-cases (get_elem? d.managers i)) [
  | inl e ↦ rw (e, report_of) tt
  | inr (m, e) ↦
      rw (e, report_of)
        (record {
          threads = length-set d.managers i (record m { stats = reset }) ∙ w.threads;
          counter = w.counter;
          well =
              All-set (IsWell max k) d.managers i (record m { stats = reset }) w.well
                (with_stats-IsWell max k m reset
                  (All-get_elem? (IsWell max k) d.managers i w.well e));
          known = w.known;
        })
]

collect_report-IsKept :
    (max n k : ℕ) (d : Daemon) (reports : List (StatType × Statistics))
    → IsKept max n k d
    → OnSome (IsKept max n k) (collect_report reports d)
unfolding collect_report OnSome
collect_report-IsKept max n k d [] w = tt
collect_report-IsKept max n k d ((t, s) ∷ reports) w = record {
  threads = w.threads;
  counter = w.counter;
  well = w.well;
  known = w.known;
}

step-IsKept :
    (max n k : ℕ) (e : Event) (d : Daemon)
    → made e k < 2 ^ 64
    → IsKept max n k d
    → OnSome (IsKept max n (made e k)) (step max e d)
unfolding step accepted_at accept_failed_at housekeeping OnSome
step-IsKept max n k (accepted a i) d small w =
    if_intro (OnSome (IsKept max n k)) (ltb i (length d.managers)) _ _
      (λ t.
        on_thread-IsKept max n k a count_connection (record d { arriving = d.arriving ++ i ∷ [] })
          (λ m h. with_stats-IsWell max k m _ h)
          (record {
            threads = w.threads;
            counter = w.counter;
            well = w.well;
            known =
                All-append (λ j. j < n) d.arriving (i ∷ []) w.known
                  ((let th = w.threads in ground arith), tt);
          }))
      (λ f. tt)
step-IsKept max n k (accept_failed a) d small w =
    on_thread-IsKept max n k a count_failure d (λ m h. with_stats-IsWell max k m _ h) w
step-IsKept max n k (arrived now i) d small w = arrived_at-IsKept max n k now i d small w
step-IsKept max n k (called i c) d small w =
    on_thread-IsKept max n k i (call c) d (λ m h. call-IsWell max k c m h) w
step-IsKept max n k (kept_house now i) d small w =
    >>=-OnSome (IsKept max n k) (IsKept max n k) (on_thread i (remove_expired now) d)
      (update_stats i)
      (on_thread-IsKept max n k i (remove_expired now) d (λ m h. expire-IsWell max k now m h) w)
      (λ d' h. update_stats-IsKept max n k i d' h)
step-IsKept max n k collected d small w = collect_report-IsKept max n k d d.reports w
step-IsKept max n k (dns_reported s) d small w = record {
  threads = w.threads;
  counter = w.counter;
  well = w.well;
  known = w.known;
}

made-le : (e : Event) (k l : ℕ) → k ≤ l → made e k ≤ made e l
made-le e k l h = ground arith

made_add : (e : Event) (k l : ℕ) → made e k + l ≡ k + made e l
made_add e k l = ground arith

run-IsKept :
    (max n k : ℕ) (es : List Event) (d : Daemon)
    → k + arrivals es < 2 ^ 64
    → IsKept max n k d
    → OnSome (IsKept max n (k + arrivals es)) (run max es d)
unfolding run OnSome
run-IsKept max n k [] d small w =
    subst (λ l. IsKept max n l d) (let z : k ≡ k + 0 = omega arith in z) w
run-IsKept max n k (e ∷ es) d small w =
    let same = made_add e k (arrivals es) in
    subst (λ l. OnSome (IsKept max n l) (run max (e ∷ es) d)) same
      (>>=-OnSome (IsKept max n (made e k)) (IsKept max n (made e k + arrivals es)) (step max e d)
        (run max es) (step-IsKept max n k e d (omega (arith, same)) w)
        (λ d' h. run-IsKept max n (made e k) es d' (omega (arith, same)) h))

-- What the server comes to.
pub run-IsKept_from_start :
    (max n : ℕ) (es : List Event) {d : Daemon}
    → arrivals es < 2 ^ 31
    → run max es (create_daemon n) ≡ some d
    → IsKept max n (0 + arrivals es) d
run-IsKept_from_start max n es small h =
    OnSome-at (IsKept max n (0 + arrivals es)) (run max es (create_daemon n))
      (run-IsKept max n 0 es (create_daemon n) (omega arith) (create_daemon-IsKept max n)) h
