-- ===== src/Http/Connections/Unmoved.antt =====
-- The counters that the calls of a `ConnectionMgr` (src/httpd/HttpDaemon.cpp) leave alone.
use v_ubercool.Base.{
  ℕ, ◌+◌, ◌≡◌, refl, ◌∙◌, not, ◌&&◌, Option, none, some, List, [], ◌∷◌, ◌++◌, length, ltb, ◌==◌,
  if_intro, Option-cases, inl, inr, true,
}
use v_ubercool.Stats.{Statistics}
use v_ubercool.Http.Connections.{
  Entry, ConnectionMgr, Picked, int_key, pick, kill, kill_oldest, create_connection, remove_dead,
  remove, close_socket, close_connection, set_end_of_life, drop_picked, expired_keys,
  remove_connections, remove_expired,
}

kill_oldest-stats : (m : ConnectionMgr) (es : List Entry) → (kill_oldest m es).stats ≡ m.stats
unfolding kill_oldest kill
kill_oldest-stats m [] = refl
kill_oldest-stats m (e ∷ es) = refl

pub create-stats :
    (max now key : ℕ) (m : ConnectionMgr) → (create_connection max now key m).stats ≡ m.stats
unfolding create_connection
create-stats max now key m =
    let es = m.connections ++ (record { key = key; expire = now + 3; is_open = true }) ∷ [] in
    if_intro (λ (m' : ConnectionMgr). m'.stats ≡ m.stats) (not (max == 0) && ltb max (length es)) _
      _ (λ _. kill_oldest-stats (record m { connections = es }) es) (λ _. refl)

remove_dead-stats : (m : ConnectionMgr) (o : Option Picked) → (remove_dead m o).stats ≡ m.stats
unfolding remove_dead
remove_dead-stats m none = refl
remove_dead-stats m (some p) = refl

remove-stats : (key : ℕ) (m : ConnectionMgr) → (remove key m).stats ≡ m.stats
unfolding remove
remove-stats key m = elim (Option-cases (pick (int_key key) m.connections)) [
  | inl e ↦ rw (e, remove) (remove_dead-stats m (pick (int_key key) m.dead))
  | inr (p, e) ↦ rw (e, remove) refl
]

pub close_connection-stats :
    (key : ℕ) (m : ConnectionMgr) → (close_connection key m).stats ≡ m.stats
unfolding close_connection
close_connection-stats key m =
    remove-stats key (record m { connections = close_socket key m.connections })

pub prolong-stats : (key eol : ℕ) (m : ConnectionMgr) → (set_end_of_life key eol m).stats ≡ m.stats
unfolding set_end_of_life
prolong-stats key eol m = refl

-- A counter that is neither of those of dropped connections.
module _ (field : Statistics → ℕ)
    (keeps_timeouts : (s : Statistics) (n : ℕ)
      → field (record s { timeout_dropped_connections = n }) ≡ field s)
    (keeps_overflows : (s : Statistics) (n : ℕ)
      → field (record s { overflow_dropped_connections = n }) ≡ field s) where
  drop_picked-field :
      (m : ConnectionMgr) (o : Option Picked) → field (drop_picked m o).stats ≡ field m.stats
  unfolding drop_picked kill
  drop_picked-field m none = refl
  drop_picked-field m (some p) = keeps_overflows m.stats _

  remove_connections-field :
      (keys : List ℕ) (m : ConnectionMgr) → field (remove_connections keys m).stats ≡ field m.stats
  unfolding remove_connections
  remove_connections-field [] m = refl
  remove_connections-field (key ∷ keys) m =
      remove_connections-field keys _ ∙ drop_picked-field m (pick (int_key key) m.connections)

  pub expire-field :
      (now : ℕ) (m : ConnectionMgr) → field (remove_expired now m).stats ≡ field m.stats
  unfolding remove_expired
  expire-field now m =
      remove_connections-field (expired_keys now m.connections) _ ∙ keeps_timeouts m.stats _
