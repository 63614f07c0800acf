-- ===== src/Http/Connections/Keys.antt =====
-- The keys of the connections of a `ConnectionMgr` (src/httpd/HttpDaemon.cpp), which its calls keep
-- apart.
use v_ubercool.Base.{
  ℕ, suc, ◌+◌, ◌≤◌, ◌<◌, ◌^◌, ◌≡◌, ◌≢◌, refl, sym, subst, inl, inr, true, not, ◌&&◌, Option, none,
  some, List, [], ◌∷◌, ◌++◌, length, All, All-append, arith, ltb, ◌==◌, if_intro, Bool-cases,
  Option-cases,
}
use v_ubercool.Http.Connections.{
  Entry, ConnectionMgr, Picked, int_key, pick, kill, kill_oldest, create_connection, remove_dead,
  remove, close_socket, close_connection, set_expire, set_end_of_life, drop_picked,
  remove_connections, remove_expired, expired_keys,
}
use v_ubercool.Http.Connections.Limits.{keep_head-eq, pick-IsPicked}
use v_ubercool.Http.Connections.Expiry.{Lacks, HaveKeys}

-- No two keys are the same, and none is above `k`.
abbrev pub HaveKeysUpto : ℕ → List Entry → Type 0
HaveKeysUpto k [] = Unit
HaveKeysUpto k (e ∷ es) = (e.key ≤ k) × Lacks e.key es × HaveKeysUpto k es

pub HaveKeysUpto-HaveKeys : (k : ℕ) (es : List Entry) → k < 2 ^ 31 → HaveKeysUpto k es → HaveKeys es
HaveKeysUpto-HaveKeys k [] lt h = tt
HaveKeysUpto-HaveKeys k (e ∷ es) lt h = (omega (arith, h.0), h.1, HaveKeysUpto-HaveKeys k es lt h.2)

HaveKeysUpto-mono : (k l : ℕ) (es : List Entry) → k ≤ l → HaveKeysUpto k es → HaveKeysUpto l es
HaveKeysUpto-mono k l [] le h = tt
HaveKeysUpto-mono k l (e ∷ es) le h = (omega (arith, h.0), h.1, HaveKeysUpto-mono k l es le h.2)

-- An entry with a new key at the end.
HaveKeysUpto-snoc :
    (k : ℕ) (es : List Entry) (e : Entry)
    → e.key ≡ suc k
    → HaveKeysUpto k es
    → HaveKeysUpto (suc k) (es ++ e ∷ [])
HaveKeysUpto-snoc k [] e same h = (omega (arith, same), tt, tt)
HaveKeysUpto-snoc k (x ∷ es) e same h = (
  omega (arith, h.0),
  All-append (λ y. y.key ≢ x.key) es (e ∷ []) h.1 ((λ q. omega (arith, same, q, h.0)), tt),
  HaveKeysUpto-snoc k es e same h.2,
)

pick-HaveKeysUpto :
    (k key : ℕ) (es : List Entry) {p : Picked}
    → pick key es ≡ some p
    → HaveKeysUpto k es
    → HaveKeysUpto k p.rest
unfolding pick
pick-HaveKeysUpto k key [] h w = cc
pick-HaveKeysUpto k key (e ∷ es) {p} h w = elim (Bool-cases (e.key == key)) [
  | inl t ↦
      let same : p ≡ (record { entry = e; rest = es }) =
        (let j = (rw (t, pick) at h) in ground arith) in
      subst (λ q. HaveKeysUpto k q.rest) (sym same) w.2
  | inr f ↦
      let (q, g, same) = keep_head-eq e (pick key es) (rw (f, pick) at h) in
      let lacks = (pick-IsPicked (λ y. y.key ≢ e.key) key es w.1 g).1 in
      subst (λ r. HaveKeysUpto k r.rest) (sym same) (w.0, lacks, pick-HaveKeysUpto k key es g w.2)
]

-- The manager's connections have such keys.
pub record AreApart (k : ℕ) (m : ConnectionMgr) : Type 0 where
  pub apart : HaveKeysUpto k m.connections

pub AreApart-mono : (k l : ℕ) (m : ConnectionMgr) → k ≤ l → AreApart k m → AreApart l m
AreApart-mono k l m le w = record { apart = HaveKeysUpto-mono k l m.connections le w.apart }

kill_oldest-AreApart :
    (k : ℕ) (m : ConnectionMgr) (es : List Entry)
    → m.connections ≡ es
    → HaveKeysUpto k es
    → AreApart k (kill_oldest m es)
unfolding kill_oldest kill
kill_oldest-AreApart k m [] same h = record { apart = subst (HaveKeysUpto k) (sym same) h }
kill_oldest-AreApart k m (e ∷ es) same h = record { apart = h.2 }

pub create-AreApart :
    (max now k : ℕ) (m : ConnectionMgr)
    → AreApart k m
    → AreApart (suc k) (create_connection max now (suc k) m)
unfolding create_connection
create-AreApart max now k m w =
    let e : Entry = record { key = suc k; expire = now + 3; is_open = true } in
    let h = HaveKeysUpto-snoc k m.connections e refl w.apart in
    if_intro (AreApart (suc k)) (not (max == 0) && ltb max (length (m.connections ++ e ∷ []))) _ _
      (λ t. kill_oldest-AreApart (suc k) _ (m.connections ++ e ∷ []) refl h)
      (λ f. record { apart = h })

remove_dead-AreApart :
    (k : ℕ) (m : ConnectionMgr) (o : Option Picked) → AreApart k m → AreApart k (remove_dead m o)
unfolding remove_dead
remove_dead-AreApart k m none w = w
remove_dead-AreApart k m (some p) w = record { apart = w.apart }

remove-AreApart : (k key : ℕ) (m : ConnectionMgr) → AreApart k m → AreApart k (remove key m)
unfolding remove
remove-AreApart k key m w = elim (Option-cases (pick (int_key key) m.connections)) [
  | inl e ↦ rw (e, remove) (remove_dead-AreApart k m (pick (int_key key) m.dead) w)
  | inr (p, e) ↦
      rw (e, remove) (record { apart = pick-HaveKeysUpto k (int_key key) m.connections e w.apart })
]

close_socket-Lacks : (x key : ℕ) (es : List Entry) → Lacks x es → Lacks x (close_socket key es)
unfolding close_socket
close_socket-Lacks x key [] a = tt
close_socket-Lacks x key (e ∷ es) a = elim (Bool-cases (e.key == key)) [
  | inl t ↦ rw (t, close_socket) a
  | inr f ↦ rw (f, All, close_socket) (a.0, close_socket-Lacks x key es a.1)
]

close_socket-HaveKeysUpto :
    (k key : ℕ) (es : List Entry) → HaveKeysUpto k es → HaveKeysUpto k (close_socket key es)
unfolding close_socket
close_socket-HaveKeysUpto k key [] h = tt
close_socket-HaveKeysUpto k key (e ∷ es) h = elim (Bool-cases (e.key == key)) [
  | inl t ↦ rw (t, close_socket) h
  | inr f ↦
      rw (f, HaveKeysUpto, close_socket)
        (h.0, close_socket-Lacks e.key key es h.1, close_socket-HaveKeysUpto k key es h.2)
]

pub close_connection-AreApart :
    (k key : ℕ) (m : ConnectionMgr) → AreApart k m → AreApart k (close_connection key m)
unfolding close_connection
close_connection-AreApart k key m w =
    remove-AreApart k key (record m { connections = close_socket key m.connections })
      (record { apart = close_socket-HaveKeysUpto k key m.connections w.apart })

set_expire-Lacks : (x key eol : ℕ) (es : List Entry) → Lacks x es → Lacks x (set_expire key eol es)
unfolding set_expire
set_expire-Lacks x key eol [] a = tt
set_expire-Lacks x key eol (e ∷ es) a = elim (Bool-cases (e.key == key)) [
  | inl t ↦ rw (t, set_expire) a
  | inr f ↦ rw (f, All, set_expire) (a.0, set_expire-Lacks x key eol es a.1)
]

set_expire-HaveKeysUpto :
    (k key eol : ℕ) (es : List Entry) → HaveKeysUpto k es → HaveKeysUpto k (set_expire key eol es)
unfolding set_expire
set_expire-HaveKeysUpto k key eol [] h = tt
set_expire-HaveKeysUpto k key eol (e ∷ es) h = elim (Bool-cases (e.key == key)) [
  | inl t ↦ rw (t, set_expire) h
  | inr f ↦
      rw (f, HaveKeysUpto, set_expire)
        (h.0, set_expire-Lacks e.key key eol es h.1, set_expire-HaveKeysUpto k key eol es h.2)
]

pub prolong-AreApart :
    (k key eol : ℕ) (m : ConnectionMgr) → AreApart k m → AreApart k (set_end_of_life key eol m)
unfolding set_end_of_life
prolong-AreApart k key eol m w = record {
  apart = set_expire-HaveKeysUpto k (int_key key) eol m.connections w.apart;
}

drop_picked-AreApart :
    (k key : ℕ) (m : ConnectionMgr) (o : Option Picked)
    → o ≡ pick key m.connections
    → AreApart k m
    → AreApart k (drop_picked m o)
unfolding drop_picked kill
drop_picked-AreApart k key m none h w = w
drop_picked-AreApart k key m (some p) h w = record {
  apart = pick-HaveKeysUpto k key m.connections (sym h) w.apart;
}

remove_connections-AreApart :
    (k : ℕ) (keys : List ℕ) (m : ConnectionMgr)
    → AreApart k m
    → AreApart k (remove_connections keys m)
unfolding remove_connections
remove_connections-AreApart k [] m w = w
remove_connections-AreApart k (key ∷ keys) m w =
    remove_connections-AreApart k keys _ (drop_picked-AreApart k (int_key key) m _ refl w)

pub expire-AreApart :
    (k now : ℕ) (m : ConnectionMgr) → AreApart k m → AreApart k (remove_expired now m)
unfolding remove_expired
expire-AreApart k now m w =
    remove_connections-AreApart k (expired_keys now m.connections) _ (record { apart = w.apart })
