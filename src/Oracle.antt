-- ===== src/Oracle.antt =====
-- src/oracle/inner.rs and src/oracle/oracle.rs: the timestamp oracle. The readings of the wall
-- clock and of the monotonic clock are arguments.
use stupid_kv.Base.{ℕ, ◌-◌, ◌%◌, Bool, true, false, u64_mod, add_u64, if◌then◌else◌}

pub record Oracle : Type 0 where
  pub timestamp : ℕ
  -- the anchor: the wall clock in nanoseconds, and the monotonic clock at that moment
  pub reference_unix : ℕ
  pub reference_time : ℕ
  pub resync_enable : Bool
  -- a background thread is there to be joined
  pub resync_handle : Bool

-- `unix` and `instant` are the two clocks at the moment of the call.
unfoldable pub new : ℕ → ℕ → Oracle
new unix instant = record {
  timestamp = unix;
  reference_unix = unix;
  reference_time = instant;
  resync_enable = true;
  resync_handle = true;
}

-- `instant` is the monotonic clock at the moment of the call; `elapsed` stops at zero.
unfoldable pub current_time_ns : Oracle → ℕ → ℕ
current_time_ns o instant = add_u64 o.reference_unix ((instant - o.reference_time) % u64_mod)

-- One round of the background thread: the flag is read, then the thread sleeps and sets the anchor.
unfoldable pub background_resync : Oracle → ℕ → ℕ → Oracle
background_resync o unix instant =
    if o.resync_enable then record o { reference_unix = unix; reference_time = instant } else o

unfoldable pub shutdown : Oracle → Oracle
shutdown o = record o { resync_enable = false; resync_handle = false }
