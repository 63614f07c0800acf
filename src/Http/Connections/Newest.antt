-- ===== src/Http/Connections/Newest.antt =====
-- `CreateConnection` of src/httpd/HttpDaemon.cpp puts the new connection at the end.
use v_ubercool.Base.{
  ℕ, ◌+◌, ◌<◌, ◌≡◌, refl, not, ◌&&◌, List, [], ◌∷◌, ◌++◌, length, arith, ltb, ◌==◌, if_intro, true,
}
use v_ubercool.Http.Connections.{Entry, ConnectionMgr, kill, kill_oldest, create_connection}

-- The entry of a new connection.
abbrev pub new_entry : ℕ → ℕ → Entry
new_entry now key = record { key = key; expire = now + 3; is_open = true }

-- The last of the connections.
abbrev pub IsLast : Entry → ConnectionMgr → Type 0
IsLast e m = (pre : List Entry) × (m.connections ≡ pre ++ e ∷ [])

kill_oldest-IsLast :
    (e : Entry) (es : List Entry) (m : ConnectionMgr)
    → 1 < length (es ++ e ∷ [])
    → IsLast e (kill_oldest m (es ++ e ∷ []))
unfolding kill_oldest kill
kill_oldest-IsLast e [] m h = absurd (omega (arith, h))
kill_oldest-IsLast e (x ∷ es) m h = (es, refl)

pub create-IsLast :
    (max now key : ℕ) (m : ConnectionMgr)
    → IsLast (new_entry now key) (create_connection max now key m)
unfolding create_connection
create-IsLast max now key m =
    let e = new_entry now key in
    if_intro (IsLast e) (not (max == 0) && ltb max (length (m.connections ++ e ∷ []))) _ _
      (λ t. kill_oldest-IsLast e m.connections _ (ground arith)) (λ f. (m.connections, refl))
