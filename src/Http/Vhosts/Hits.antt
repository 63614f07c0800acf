-- ===== src/Http/Vhosts/Hits.antt =====
-- The hit counter of `DefaultHost` (src/hosts/DefaultHost.cpp) over a run of requests.
use v_ubercool.Base.{
  ℕ, ◌+◌, ◌%◌, ◌^◌, ◌<◌, ◌≡◌, refl, inl, inr, Bool, true, false, ◌&&◌, List, [], ◌∷◌, Bytes, arith,
  equal, if◌then◌else◌, Bool-cases,
}
use v_ubercool.Http.Request.{Method, get, head}
use v_ubercool.Http.Vhosts.{
  before, PackedHostData, inc_hit_count, is_root, is_readable, welcome_page, default_host,
}

-- The data of a site after it has been asked for the pages, in their order.
abbrev pub after_requests : List (Method × Bytes) → PackedHostData → PackedHostData
after_requests [] d = d
after_requests ((method, uri) ∷ requests) d = after_requests requests (default_host method uri d).0

-- GET or HEAD of "/", with or without arguments.
abbrev pub is_hit : Method → Bytes → Bool
is_hit get uri = equal (before b'?' uri) (b'/' ∷ [])
is_hit head uri = equal (before b'?' uri) (b'/' ∷ [])
is_hit _ uri = false

abbrev pub hits : List (Method × Bytes) → ℕ
hits [] = 0
hits ((method, uri) ∷ requests) = (if is_hit method uri then 1 else 0) + hits requests

is_hit-eq :
    (method : Method) (uri : Bytes) → (is_readable method && is_root uri) ≡ is_hit method uri
unfolding is_readable is_root
is_hit-eq get uri = refl
is_hit-eq head uri = refl
is_hit-eq _ uri = refl

default_host-hits :
    (method : Method) (uri : Bytes) (d : PackedHostData)
    → d.hostbits < 2 ^ 23
    → (default_host method uri d).0.hostbits
      ≡ (d.hostbits + (if is_hit method uri then 1 else 0)) % 2 ^ 23
unfolding default_host welcome_page inc_hit_count
default_host-hits method uri d low =
    let e = is_hit-eq method uri in
    elim (Bool-cases (is_readable method)) [
      | inl r ↦ elim (Bool-cases (is_root uri)) [
        | inl s ↦ rw (r, s) (let t : true ≡ is_hit method uri = rw (r, s) at e in ground arith)
        | inr s ↦ rw (r, s) (let t : false ≡ is_hit method uri = rw (r, s) at e in ground arith)
      ]
      | inr r ↦ rw r (let t : false ≡ is_hit method uri = rw r at e in ground arith)
    ]

-- After any run of requests to a site of `DefaultHost` its hit counter, if it was below 2 ^ 23, has
-- grown by the number of requests that were
-- served, GET or HEAD of the root page, modulo 2 ^ 23; others do not count.
pub after_requests-hits :
    (requests : List (Method × Bytes)) (d : PackedHostData)
    → d.hostbits < 2 ^ 23
    → (after_requests requests d).hostbits ≡ (d.hostbits + hits requests) % 2 ^ 23
after_requests-hits [] d low = omega arith
after_requests-hits ((method, uri) ∷ requests) d low =
    let step = default_host-hits method uri d low in
    omega (
      arith,
      step,
      after_requests-hits requests (default_host method uri d).0 (omega (arith, step)),
    )
