-- ===== src/Http/Connections/Limits.antt =====
-- The connections that a `ConnectionMgr` (src/httpd/HttpDaemon.cpp) holds at any time.
use v_ubercool.Base.{
  ℕ, zero, suc, ◌+◌, ◌≤◌, ◌<◌, ◌≡◌, ◌≢◌, refl, sym, ap, subst, ◌∙◌, ◌⊎◌, ◌^◌, inl, inr, true, false,
  not, ◌&&◌, Option, none, some, List, [], ◌∷◌, ◌++◌, length, length-append, All, All-append, arith,
  ltb, ◌==◌, if_intro, Bool-cases, Option-cases,
}
use v_ubercool.Stats.{plus, reset}
use v_ubercool.Http.Connections.Expiry.{int_key-small}
use v_ubercool.Http.Connections.{
  Entry, ConnectionMgr, Picked, keep_head, pick, kill, kill_oldest, create_connection, remove_dead,
  remove, close_socket, close_connection, set_expire, set_end_of_life, int_key, drop_picked,
  expired_keys, remove_connections, remove_expired,
}

-- What the daemon does with a manager.
pub data Step (max : ℕ) : ConnectionMgr → ConnectionMgr → Type 0 where
  create : (now key : ℕ) (m : ConnectionMgr) → Step max m (create_connection max now key m)
  close : (key : ℕ) (m : ConnectionMgr) → Step max m (close_connection key m)
  prolong : (key eol : ℕ) (m : ConnectionMgr) → Step max m (set_end_of_life key eol m)
  expire : (now : ℕ) (m : ConnectionMgr) → Step max m (remove_expired now m)

unfoldable pub start : ConnectionMgr
start = record { connections = []; dead = []; stats = reset }

-- The managers that the daemon can come to.
pub data Reachable (max : ℕ) : ConnectionMgr → Type 0 where
  at_start : Reachable max start
  after : {m m' : ConnectionMgr} → Reachable max m → Step max m m' → Reachable max m'

-- An open socket, or a key of 2 ^ 31 or more, which `Remove` does not find.
abbrev pub IsOpen : Entry → Type 0
IsOpen e = (e.is_open ≡ true) ⊎ (2 ^ 31 ≤ e.key)

abbrev pub IsClosed : Entry → Type 0
IsClosed e = e.is_open ≡ false

-- At most `max` connections, if that is not zero; those in the list are open, if their
-- keys are low, and the dead ones closed.
pub record IsOrderly (max : ℕ) (m : ConnectionMgr) : Type 0 where
  pub bounded : max ≢ 0 → length m.connections ≤ max
  pub is_open : All IsOpen m.connections
  pub closed : All IsClosed m.dead

-- An entry picked from a list of good ones is good, and one fewer good ones are left.
abbrev pub IsPicked {ℓ} : (Entry → Type ℓ) → List Entry → Picked → Type ℓ
IsPicked P es p = P p.entry × All P p.rest × (length p.rest + 1 ≡ length es)

pub keep_head-eq :
    (e : Entry) (o : Option Picked) {p : Picked}
    → keep_head e o ≡ some p
    → (q : Picked) × (o ≡ some q) × (p ≡ record q { rest = e ∷ q.rest })
unfolding keep_head
keep_head-eq e none h = cc
keep_head-eq e (some q) h = (q, refl, ground arith)

pub pick-IsPicked {ℓ} :
    (P : Entry → Type ℓ) (key : ℕ) (es : List Entry) {p : Picked}
    → All P es
    → pick key es ≡ some p
    → IsPicked P es p
unfolding pick
pick-IsPicked P key [] a h = cc
pick-IsPicked P key (e ∷ es) {p} a h = elim (Bool-cases (e.key == key)) [
  | inl t ↦
      let same : p ≡ (record { entry = e; rest = es }) =
        (let k = (rw (t, pick) at h) in ground arith) in
      subst (IsPicked P (e ∷ es)) (sym same) (a.0, a.1, omega arith)
  | inr f ↦
      let (q, g, same) = keep_head-eq e (pick key es) (rw (f, pick) at h) in
      let (x, y, n) = pick-IsPicked P key es a.1 g in
      subst (IsPicked P (e ∷ es)) (sym same) (x, (a.0, y), omega (arith, n))
]

kill-IsOrderly :
    (max : ℕ) (m : ConnectionMgr) (p : Picked)
    → (max ≢ 0 → length p.rest ≤ max)
    → All IsOpen p.rest
    → All IsClosed m.dead
    → IsOrderly max (kill m p)
unfolding kill
kill-IsOrderly max m p n o c = record {
  bounded = n;
  is_open = o;
  closed = All-append IsClosed m.dead _ c (refl, tt);
}

kill_oldest-IsOrderly :
    (max : ℕ) (m : ConnectionMgr) (es : List Entry)
    → length es ≤ max + 1
    → length m.connections ≤ length es
    → 0 < length es
    → All IsOpen es
    → All IsClosed m.dead
    → IsOrderly max (kill_oldest m es)
unfolding kill_oldest
kill_oldest-IsOrderly max m [] n le lt o c = let no : zero ≡ suc zero = omega (arith, lt) in cc
kill_oldest-IsOrderly max m (e ∷ es) n le lt o c =
    kill-IsOrderly max m (record { entry = e; rest = es }) (λ _. omega (arith, n)) o.1 c

create-IsOrderly :
    (max now key : ℕ) (m : ConnectionMgr)
    → IsOrderly max m
    → IsOrderly max (create_connection max now key m)
unfolding create_connection
create-IsOrderly max now key m w =
    let e : Entry = record { key = key; expire = now + 3; is_open = true } in
    let all : All IsOpen (m.connections ++ e ∷ []) =
      All-append IsOpen m.connections (e ∷ []) w.is_open (inl refl, tt) in
    let n = length-append m.connections (e ∷ []) in
    if_intro (IsOrderly max) (not (max == 0) && ltb max (length (m.connections ++ e ∷ []))) _ _
      (λ t.
        let more : max ≢ 0 = ground arith in
        kill_oldest-IsOrderly max _ (m.connections ++ e ∷ []) (omega (arith, n, w.bounded more))
          (omega arith) (omega (arith, n)) all w.closed)
      (λ f. record { bounded = λ more. ground arith; is_open = all; closed = w.closed })

remove_dead-IsOrderly :
    (max key : ℕ) (m : ConnectionMgr) (o : Option Picked)
    → o ≡ pick key m.dead
    → IsOrderly max m
    → IsOrderly max (remove_dead m o)
unfolding remove_dead
remove_dead-IsOrderly max key m none h w = w
remove_dead-IsOrderly max key m (some p) h w = record {
  bounded = w.bounded;
  is_open = w.is_open;
  closed = (pick-IsPicked IsClosed key m.dead w.closed (sym h)).1;
}

remove-IsOrderly :
    (max key : ℕ) (m : ConnectionMgr) → IsOrderly max m → IsOrderly max (remove key m)
unfolding remove
remove-IsOrderly max key m w = elim (Option-cases (pick (int_key key) m.connections)) [
  | inl e ↦ rw (e, remove) (remove_dead-IsOrderly max (int_key key) m _ refl w)
  | inr (p, e) ↦
      let (x, y, n) = pick-IsPicked IsOpen (int_key key) m.connections w.is_open e in
      rw (e, remove)
        (record {
          bounded = λ more. omega (arith, n, w.bounded more);
          is_open = y;
          closed = w.closed;
        })
]

-- A socket that is closed without being removed: its key is high.
close_socket-IsOpen :
    (key : ℕ) (es : List Entry) → 2 ^ 31 ≤ key → All IsOpen es → All IsOpen (close_socket key es)
unfolding close_socket
close_socket-IsOpen key [] high a = tt
close_socket-IsOpen key (e ∷ es) high a = elim (Bool-cases (e.key == key)) [
  | inl t ↦
      rw (t, close_socket)
        (inr (let same : e.key ≡ key = ground arith in omega (arith, same, high)), a.1)
  | inr f ↦ rw (f, All, close_socket) (a.0, close_socket-IsOpen key es high a.1)
]

length-close_socket : (key : ℕ) (es : List Entry) → length (close_socket key es) ≡ length es
unfolding close_socket
length-close_socket key [] = refl
length-close_socket key (e ∷ es) = elim (Bool-cases (e.key == key)) [
  | inl t ↦ rw (t, length, close_socket) refl
  | inr f ↦ rw (f, length, close_socket) (ap suc (length-close_socket key es))
]

-- The entry whose socket was closed is the one that is picked.
abbrev IsLeft : List Entry → List Entry → Option Picked → Type 0
IsLeft es closed none = All IsOpen closed
IsLeft es closed (some p) = All IsOpen p.rest × (length p.rest + 1 ≡ length es)

keep_head-IsLeft :
    (e : Entry) (es closed : List Entry) (o : Option Picked)
    → IsOpen e
    → IsLeft es closed o
    → IsLeft (e ∷ es) (e ∷ closed) (keep_head e o)
unfolding keep_head
keep_head-IsLeft e es closed none a h = (a, h)
keep_head-IsLeft e es closed (some p) a h = ((a, h.0), omega (arith, h.1))

pick-IsLeft :
    (key : ℕ) (es : List Entry)
    → All IsOpen es
    → IsLeft es (close_socket key es) (pick key (close_socket key es))
unfolding pick close_socket
pick-IsLeft key [] a = tt
pick-IsLeft key (e ∷ es) a = elim (Bool-cases (e.key == key)) [
  | inl t ↦ rw (t, close_socket, pick) (rw (t, pick) (a.1, omega arith))
  | inr f ↦
      rw (f, close_socket, pick)
        (rw (f, pick) (keep_head-IsLeft e es (close_socket key es) _ a.0 (pick-IsLeft key es a.1)))
]

close-IsOrderly :
    (max key : ℕ) (m : ConnectionMgr) → IsOrderly max m → IsOrderly max (close_connection key m)
unfolding close_connection remove
close-IsOrderly max key m w =
    let es = close_socket key m.connections in
    let n = length-close_socket key m.connections in
    let m1 : ConnectionMgr = record m { connections = es } in
    elim (Bool-cases (ltb key (2 ^ 31))) [
      | inr high ↦ remove-IsOrderly max key m1 (record {
        bounded = λ more. omega (arith, n, w.bounded more);
        is_open = close_socket-IsOpen key m.connections (ground arith) w.is_open;
        closed = w.closed;
      })
      | inl low ↦
          let same : int_key key ≡ key = int_key-small key (ground arith) in
          let found : pick (int_key key) es ≡ pick key es = ap (λ k. pick k es) same in
          elim (Option-cases (pick key es)) [
            | inl e ↦
                let left : IsLeft m.connections es (pick key es) =
                  pick-IsLeft key m.connections w.is_open in
                let h = (rw e at left) in
                rw (found ∙ e, close_connection, remove)
                  (remove_dead-IsOrderly max (int_key key) m1 _ refl (record {
                    bounded = λ more. omega (arith, n, w.bounded more);
                    is_open = h;
                    closed = w.closed;
                  }))
            | inr (p, e) ↦
                let left : IsLeft m.connections es (pick key es) =
                  pick-IsLeft key m.connections w.is_open in
                let h = (rw e at left) in
                rw (found ∙ e, close_connection, remove)
                  (record {
                    bounded = λ more. omega (arith, h.1, w.bounded more);
                    is_open = h.0;
                    closed = w.closed;
                  })
          ]
    ]

set_expire-IsOpen :
    (key eol : ℕ) (es : List Entry) → All IsOpen es → All IsOpen (set_expire key eol es)
unfolding set_expire
set_expire-IsOpen key eol [] a = tt
set_expire-IsOpen key eol (e ∷ es) a = elim (Bool-cases (e.key == key)) [
  | inl t ↦ rw (t, set_expire) a
  | inr f ↦ rw (f, All, set_expire) (a.0, set_expire-IsOpen key eol es a.1)
]

length-set_expire : (key eol : ℕ) (es : List Entry) → length (set_expire key eol es) ≡ length es
unfolding set_expire
length-set_expire key eol [] = refl
length-set_expire key eol (e ∷ es) = elim (Bool-cases (e.key == key)) [
  | inl t ↦ rw (t, length, set_expire) refl
  | inr f ↦ rw (f, length, set_expire) (ap suc (length-set_expire key eol es))
]

prolong-IsOrderly :
    (max key eol : ℕ) (m : ConnectionMgr)
    → IsOrderly max m
    → IsOrderly max (set_end_of_life key eol m)
unfolding set_end_of_life
prolong-IsOrderly max key eol m w = record {
  bounded =
      λ more. omega (arith, w.bounded more, length-set_expire (int_key key) eol m.connections);
  is_open = set_expire-IsOpen (int_key key) eol m.connections w.is_open;
  closed = w.closed;
}

drop_picked-IsOrderly :
    (max key : ℕ) (m : ConnectionMgr) (o : Option Picked)
    → o ≡ pick key m.connections
    → IsOrderly max m
    → IsOrderly max (drop_picked m o)
unfolding drop_picked
drop_picked-IsOrderly max key m none h w = w
drop_picked-IsOrderly max key m (some p) h w =
    let (x, y, n) = pick-IsPicked IsOpen key m.connections w.is_open (sym h) in
    kill-IsOrderly max (record m { stats = (drop_picked m (some p)).stats }) p
      (λ more. omega (arith, n, w.bounded more)) y w.closed

remove_connections-IsOrderly :
    (max : ℕ) (keys : List ℕ) (m : ConnectionMgr)
    → IsOrderly max m
    → IsOrderly max (remove_connections keys m)
unfolding remove_connections
remove_connections-IsOrderly max [] m w = w
remove_connections-IsOrderly max (key ∷ keys) m w =
    remove_connections-IsOrderly max keys _ (drop_picked-IsOrderly max (int_key key) m _ refl w)

expire-IsOrderly :
    (max now : ℕ) (m : ConnectionMgr) → IsOrderly max m → IsOrderly max (remove_expired now m)
unfolding remove_expired
expire-IsOrderly max now m w =
    let keys = expired_keys now m.connections in
    let m1 : ConnectionMgr = record m {
      stats = record m.stats {
        timeout_dropped_connections = plus m.stats.timeout_dropped_connections (length keys);
      };
    } in
    remove_connections-IsOrderly max keys m1
      (record { bounded = w.bounded; is_open = w.is_open; closed = w.closed })

pub Step-IsOrderly :
    (max : ℕ) {m m' : ConnectionMgr} → IsOrderly max m → Step max m m' → IsOrderly max m'
Step-IsOrderly max w (create now key m) = create-IsOrderly max now key m w
Step-IsOrderly max w (close key m) = close-IsOrderly max key m w
Step-IsOrderly max w (prolong key eol m) = prolong-IsOrderly max key eol m w
Step-IsOrderly max w (expire now m) = expire-IsOrderly max now m w

pub Reachable-IsOrderly : (max : ℕ) {m : ConnectionMgr} → Reachable max m → IsOrderly max m
unfolding start
Reachable-IsOrderly max at_start = record { bounded = λ _. omega arith; is_open = tt; closed = tt }
Reachable-IsOrderly max (after r s) = Step-IsOrderly max (Reachable-IsOrderly max r) s

-- Whatever calls have been made since the start, in whatever order, a manager with a limit other than
-- zero holds no more connections than that; those that it holds with keys below 2 ^ 31 have open sockets, and
-- those it has killed closed ones.
pub Reachable-limits :
    (max : ℕ) {m : ConnectionMgr}
    → max ≢ 0
    → Reachable max m
    → (length m.connections ≤ max) × All IsOpen m.connections × All IsClosed m.dead
Reachable-limits max more r =
    let w = Reachable-IsOrderly max r in (w.bounded more, w.is_open, w.closed)
