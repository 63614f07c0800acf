-- ===== src/Http/Daemon/Threads.antt =====
-- What the events of src/httpd/HttpDaemon.cpp leave true of the connections of one thread.
use v_ubercool.Base.{ℕ, suc, ◌≤◌, ◌≡◌, sym, subst}
use v_ubercool.Stats.{Statistics}
use v_ubercool.Http.Connections.{ConnectionMgr, create_connection, remove_expired}
use v_ubercool.Http.Connections.Limits.{
  Step, IsOrderly, Step-IsOrderly, Reachable-IsOrderly, at_start, start,
}
use v_ubercool.Http.Connections.Keys.{
  AreApart, create-AreApart, close_connection-AreApart, prolong-AreApart, expire-AreApart,
  AreApart-mono,
}
use v_ubercool.Http.Daemon.{Call, removed, prolonged, counted, got, sent, call}

-- A thread's connections.
pub record IsWell (max k : ℕ) (m : ConnectionMgr) : Type 0 where
  pub orderly : IsOrderly max m
  pub apart : AreApart k m

pub start-IsWell : (max : ℕ) → IsWell max 0 start
unfolding start
start-IsWell max = record {
  orderly = Reachable-IsOrderly max at_start;
  apart = record { apart = tt };
}

-- The counters are not looked at.
pub with_stats-IsWell :
    (max k : ℕ) (m : ConnectionMgr) (s : Statistics)
    → IsWell max k m
    → IsWell max k (record m { stats = s })
with_stats-IsWell max k m s w = record {
  orderly = record {
    bounded = w.orderly.bounded;
    is_open = w.orderly.is_open;
    closed = w.orderly.closed;
  };
  apart = record { apart = w.apart.apart };
}

pub call-IsWell :
    (max k : ℕ) (c : Call) (m : ConnectionMgr) → IsWell max k m → IsWell max k (call c m)
unfolding call
call-IsWell max k (removed key) m w = record {
  orderly = Step-IsOrderly max w.orderly (Step.close key m);
  apart = close_connection-AreApart k key m w.apart;
}
call-IsWell max k (prolonged key eol) m w = record {
  orderly = Step-IsOrderly max w.orderly (Step.prolong key eol m);
  apart = prolong-AreApart k key eol m w.apart;
}
call-IsWell max k (counted state) m w = with_stats-IsWell max k m _ w
call-IsWell max k (got n) m w = with_stats-IsWell max k m _ w
call-IsWell max k (sent n) m w = with_stats-IsWell max k m _ w

pub expire-IsWell :
    (max k now : ℕ) (m : ConnectionMgr) → IsWell max k m → IsWell max k (remove_expired now m)
expire-IsWell max k now m w = record {
  orderly = Step-IsOrderly max w.orderly (Step.expire now m);
  apart = expire-AreApart k now m w.apart;
}

pub create-IsWell :
    (max k now key : ℕ) (m : ConnectionMgr)
    → key ≡ suc k
    → IsWell max k m
    → IsWell max (suc k) (create_connection max now key m)
create-IsWell max k now key m same w = record {
  orderly = Step-IsOrderly max w.orderly (Step.create now key m);
  apart =
      subst (λ x. AreApart (suc k) (create_connection max now x m)) (sym same)
        (create-AreApart max now k m w.apart);
}

pub IsWell-mono : (max k l : ℕ) (m : ConnectionMgr) → k ≤ l → IsWell max k m → IsWell max l m
IsWell-mono max k l m le w = record { orderly = w.orderly; apart = AreApart-mono k l m le w.apart }
