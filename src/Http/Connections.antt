-- ===== src/Http/Connections.antt =====
-- `ConnectionMgr` of src/httpd/HttpDaemon.cpp: the connections of one thread. A connection is its
-- key, its time of expiry and whether its socket is open; the time comes with each call.
pub mod Limits
pub mod Expiry
pub mod Keys
pub mod Newest
pub mod Unmoved
use v_ubercool.Base.{
  ℕ, zero, suc, ◌+◌, ◌-◌, ◌*◌, ◌%◌, ◌^◌, Bool, true, false, not, ◌&&◌, Option, none, some, List, [],
  ◌∷◌, ◌++◌, length, ltb, ◌==◌, if◌then◌else◌,
}
use v_ubercool.Stats.{Statistics, plus}

pub record Entry : Type 0 where
  pub key : ℕ
  pub expire : ℕ
  pub is_open : Bool

-- The manager, with the counters of its thread.
pub record ConnectionMgr : Type 0 where
  pub connections : List Entry
  pub dead : List Entry
  pub stats : Statistics

-- A 64-bit key passed as `const int` and compared with one: the low 32 bits, sign extended.
pub int_key : ℕ → ℕ
int_key key = let low = key % 2 ^ 32 in if ltb low (2 ^ 31) then low else low + 2 ^ 64 - 2 ^ 32

-- An entry that is found, and the list without it.
pub record Picked : Type 0 where
  pub entry : Entry
  pub rest : List Entry

pub keep_head : Entry → Option Picked → Option Picked
keep_head e none = none
keep_head e (some p) = some (record p { rest = e ∷ p.rest })

-- The first entry with a key, as `std::find_if` and `erase` take it.
pub pick : ℕ → List Entry → Option Picked
unfolding keep_head
pick key [] = none
pick key (e ∷ es) = elim (e.key == key) [
  | true ↦ some (record { entry = e; rest = es })
  | false ↦ keep_head e (pick key es)
]

-- `Kill` of the entry `p.entry`: its socket is closed and it waits in the dead list for its coroutine.
kill : ConnectionMgr → Picked → ConnectionMgr
kill m p = record m {
  connections = p.rest;
  dead = m.dead ++ (record p.entry { is_open = false }) ∷ [];
}

-- `Kill(connections_.begin())`, on reaching the limit.
kill_oldest : ConnectionMgr → List Entry → ConnectionMgr
unfolding kill
kill_oldest m [] = m
kill_oldest m (e ∷ es) = kill m (record { entry = e; rest = es })

-- `CreateConnection`, with the key from `GetNextKey`; `max` is `max_connections_`.
unfoldable pub create_connection : ℕ → ℕ → ℕ → ConnectionMgr → ConnectionMgr
unfolding kill_oldest
create_connection max now key m =
    let m1 : ConnectionMgr = record m {
      connections = m.connections ++ (record { key = key; expire = now + 3; is_open = true }) ∷ [];
    } in
    if not (max == 0) && ltb max (length m1.connections) then kill_oldest m1 m1.connections else m1

remove_dead : ConnectionMgr → Option Picked → ConnectionMgr
remove_dead m none = m
remove_dead m (some p) = record m { dead = p.rest }

-- `Remove`.
pub remove : ℕ → ConnectionMgr → ConnectionMgr
unfolding pick remove_dead int_key
remove key m = elim (pick (int_key key) m.connections) [
  | some p ↦ record m { connections = p.rest }
  | none ↦ remove_dead m (pick (int_key key) m.dead)
]

-- `CloseSocket` of the connection that has the key, whatever it is cut to elsewhere.
close_socket : ℕ → List Entry → List Entry
close_socket key [] = []
close_socket key (e ∷ es) = elim (e.key == key) [
  | true ↦ (record e { is_open = false }) ∷ es
  | false ↦ e ∷ close_socket key es
]

-- `Close` of a connection: an entry that `Remove` does not find stays, with a closed socket.
pub close_connection : ℕ → ConnectionMgr → ConnectionMgr
unfolding close_socket
close_connection key m = remove key (record m { connections = close_socket key m.connections })

-- `SetEndOfLife`.
set_expire : ℕ → ℕ → List Entry → List Entry
set_expire key eol [] = []
set_expire key eol (e ∷ es) = elim (e.key == key) [
  | true ↦ (record e { expire = eol }) ∷ es
  | false ↦ e ∷ set_expire key eol es
]

pub set_end_of_life : ℕ → ℕ → ConnectionMgr → ConnectionMgr
unfolding set_expire int_key
set_end_of_life key eol m = record m { connections = set_expire (int_key key) eol m.connections }

unfoldable pub is_expired : ℕ → Entry → Bool
is_expired now e = not (e.expire == 0) && ltb e.expire now

expired_keys : ℕ → List Entry → List ℕ
unfolding is_expired
expired_keys now [] = []
expired_keys now (e ∷ es) = elim (is_expired now e) [
  | true ↦ e.key ∷ expired_keys now es
  | false ↦ expired_keys now es
]

-- One round of the loop of `RemoveConnections`.
drop_picked : ConnectionMgr → Option Picked → ConnectionMgr
unfolding kill
drop_picked m none = m
drop_picked m (some p) =
    kill
      (record m {
        stats = record m.stats {
          overflow_dropped_connections = plus m.stats.overflow_dropped_connections 1;
        };
      })
      p

remove_connections : List ℕ → ConnectionMgr → ConnectionMgr
unfolding pick drop_picked int_key
remove_connections [] m = m
remove_connections (key ∷ keys) m =
    remove_connections keys (drop_picked m (pick (int_key key) m.connections))

-- `RemoveExpieredConnections`.
pub remove_expired : ℕ → ConnectionMgr → ConnectionMgr
unfolding expired_keys remove_connections
remove_expired now m =
    let keys = expired_keys now m.connections in
    remove_connections keys (record m {
      stats = record m.stats {
        timeout_dropped_connections = plus m.stats.timeout_dropped_connections (length keys);
      };
    })
