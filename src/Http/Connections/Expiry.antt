-- ===== src/Http/Connections/Expiry.antt =====
-- `RemoveExpieredConnections` (src/httpd/HttpDaemon.cpp) against what it is to do: the connections whose
-- time is over are killed, in their order, and the others stay, in theirs.
use mathlib.Core.List.{append-nil, append_assoc}
use v_ubercool.Base.{
  ℕ, ◌<◌, ◌^◌, ◌≡◌, ◌≢◌, refl, sym, ap, ◌∙◌, inl, inr, true, false, some, List, [], ◌∷◌, ◌++◌, All,
  All-append, arith, ◌==◌, Bool-cases,
}
use v_ubercool.Http.Connections.{
  Entry, ConnectionMgr, int_key, keep_head, pick, kill, is_expired, expired_keys, drop_picked,
  remove_connections, remove_expired,
}

-- What stays, and what is killed.
abbrev pub alive : ℕ → List Entry → List Entry
alive now [] = []
alive now (e ∷ es) = elim (is_expired now e) [ true ↦ alive now es | false ↦ e ∷ alive now es ]

abbrev pub killed : ℕ → List Entry → List Entry
killed now [] = []
killed now (e ∷ es) = elim (is_expired now e) [
  | true ↦ (record e { is_open = false }) ∷ killed now es
  | false ↦ killed now es
]

-- No entry has the key.
abbrev pub Lacks : ℕ → List Entry → Type 0
Lacks key = All (λ e. e.key ≢ key)

-- Small keys, no two the same.
abbrev pub HaveKeys : List Entry → Type 0
HaveKeys [] = Unit
HaveKeys (e ∷ es) = (e.key < 2 ^ 31) × Lacks e.key es × HaveKeys es

pub int_key-small : (key : ℕ) → key < 2 ^ 31 → int_key key ≡ key
unfolding int_key
int_key-small key h = ground arith

pick-append :
    (key : ℕ) (pre : List Entry) (e : Entry) (es : List Entry)
    → Lacks key pre
    → e.key ≡ key
    → pick key (pre ++ e ∷ es) ≡ some (record { entry = e; rest = pre ++ es })
unfolding pick keep_head
pick-append key [] e es h same =
    let t : (e.key == key) ≡ true = ground (arith, same) in rw (t, pick) refl
pick-append key (x ∷ pre) e es h same =
    let f : (x.key == key) ≡ false = (let differs = h.0 in ground arith) in
    rw (f, pick) (ap (keep_head x) (pick-append key pre e es h.1 same))

-- A manager behind the removal of the expired among `es`.
abbrev Expires : ℕ → List Entry → List Entry → ConnectionMgr → ConnectionMgr → Type 0
Expires now pre es m m' =
    (m'.connections ≡ pre ++ alive now es) × (m'.dead ≡ m.dead ++ killed now es)

-- No entry of the list has the key of an entry of the other.
abbrev LackAll : List Entry → List Entry → Type 0
LackAll pre = All (λ e. Lacks e.key pre)

LackAll-snoc :
    (pre : List Entry) (e : Entry) (es : List Entry)
    → LackAll pre es
    → Lacks e.key es
    → LackAll (pre ++ e ∷ []) es
LackAll-snoc pre e [] h k = tt
LackAll-snoc pre e (x ∷ es) h k = (
  All-append (λ y. y.key ≢ x.key) pre (e ∷ []) h.0 ((λ same. k.0 (sym same)), tt),
  LackAll-snoc pre e es h.1 k.1,
)

LackAll-nil : (es : List Entry) → LackAll [] es
LackAll-nil [] = tt
LackAll-nil (e ∷ es) = (tt, LackAll-nil es)

remove_connections-Expires :
    (now : ℕ) (pre es : List Entry) (m : ConnectionMgr)
    → m.connections ≡ pre ++ es
    → HaveKeys es
    → LackAll pre es
    → Expires now pre es m (remove_connections (expired_keys now es) m)
unfolding expired_keys remove_connections drop_picked kill
remove_connections-Expires now pre [] m same keys lack = (same, sym (append-nil m.dead))
remove_connections-Expires now pre (e ∷ es) m same keys lack =
    elim (Bool-cases (is_expired now e)) [
      | inl t ↦
          rw (t, expired_keys, remove_connections, alive, killed)
            (let found : pick (int_key e.key) m.connections
                  ≡ some (record { entry = e; rest = pre ++ es }) =
                ap (λ k. pick k m.connections) (int_key-small e.key keys.0)
                ∙ ap (pick e.key) same
                ∙ pick-append e.key pre e es lack.0 refl in
              rw found (
                let m1 = drop_picked m (some (record { entry = e; rest = pre ++ es })) in
                let rec = remove_connections-Expires now pre es m1 refl keys.2 lack.1 in
                (
                  rec.0,
                  rec.1 ∙ append_assoc m.dead ((record e { is_open = false }) ∷ []) (killed now es),
                )))
      | inr f ↦
          rw (f, expired_keys, remove_connections, alive, killed)
            (let rec =
                remove_connections-Expires now (pre ++ e ∷ []) es m
                  (same ∙ sym (append_assoc pre (e ∷ []) es)) keys.2
                  (LackAll-snoc pre e es lack.1 keys.1) in
              (rec.0 ∙ append_assoc pre (e ∷ []) (alive now es), rec.1))
    ]

-- RemoveExpieredConnections does what it is to do: if the keys of the connections are below 2 ^ 31 and
-- no two are the same, those whose time is over are killed and wait among the dead, in their order, and
-- exactly the others stay, in theirs.
pub remove_expired-alive :
    (now : ℕ) (m : ConnectionMgr)
    → HaveKeys m.connections
    → let m' = remove_expired now m in
      (m'.connections ≡ alive now m.connections) × (m'.dead ≡ m.dead ++ killed now m.connections)
unfolding remove_expired
remove_expired-alive now m keys =
    remove_connections-Expires now [] m.connections _ refl keys (LackAll-nil m.connections)
