-- ===== src/App/WorkerChannel.antt =====
-- rust/src/app/worker_channel.rs: a bounded channel with counters of the queued and of the handled
-- requests. The counters are shared, so the steps of several threads interleave.
pub mod Counters
use flist_walker.Prelude.{
  ℕ, ◌+◌, ◌-◌, ◌<◌, ◌≡◌, Bool, true, false, ◌&&◌, Option, none, some, List, [], ◌∷◌, ◌++◌, length,
  ltb, if◌then◌else◌,
}

pub record WorkerLoadSnapshot : Type 0 where
  pub queued : ℕ
  pub inflight : ℕ
  pub capacity : ℕ

-- The counters are below 2^64, since each thread adds at most one. Besides the shared state, the
-- record counts the threads that stand between two of their steps:
-- `announced` behind `fetch_add` and before the inner `try_send`;
-- `refused` behind an inner `try_send` that failed and before its decrement;
-- `taken` behind the inner `recv` and before its decrement;
-- `untracked` behind a `recv` of `recv_tracked` and before its `fetch_add`;
-- `guards` are the live values of `InflightGuard`.
pub record Channel (T : Type 0) : Type 0 where
  pub buffer : List T
  pub connected : Bool
  pub queued : ℕ
  pub inflight : ℕ
  pub capacity : ℕ
  pub announced : ℕ
  pub refused : ℕ
  pub taken : ℕ
  pub untracked : ℕ
  pub guards : ℕ

unfoldable pub decrement_saturating : ℕ → ℕ
decrement_saturating value = value - 1

module _ {T : Type 0} where
  unfoldable pub bounded_request_channel : ℕ → Channel T
  bounded_request_channel capacity = record {
    buffer = [];
    connected = true;
    queued = 0;
    inflight = 0;
    capacity = capacity;
    announced = 0;
    refused = 0;
    taken = 0;
    untracked = 0;
    guards = 0;
  }

  unfoldable pub load : Channel T → WorkerLoadSnapshot
  load ch = record { queued = ch.queued; inflight = ch.inflight; capacity = ch.capacity }

  -- The steps of `try_send`.
  unfoldable pub announce : Channel T → Channel T
  announce ch = record ch { queued = ch.queued + 1; announced = ch.announced + 1 }

  -- The inner `try_send` succeeds exactly where the receiver is alive and the buffer has room; a
  -- channel of capacity zero, which hands over without a buffer, is left out.
  unfoldable pub has_room : Channel T → Bool
  has_room ch = ch.connected && ltb (length ch.buffer) ch.capacity

  unfoldable pub inner_try_send : Channel T → T → Channel T
  inner_try_send ch value =
      if has_room ch
      then record ch { buffer = ch.buffer ++ (value ∷ []); announced = ch.announced - 1 }
      else record ch { announced = ch.announced - 1; refused = ch.refused + 1 }

  unfoldable pub take_back : Channel T → Channel T
  take_back ch = record ch { queued = decrement_saturating ch.queued; refused = ch.refused - 1 }

  -- `try_send` by a thread that no other interrupts; the Boolean tells whether it succeeded.
  unfoldable pub try_send : Channel T → T → Bool × Channel T
  try_send ch value =
      let announced = announce ch in
      if has_room announced
      then (true, inner_try_send announced value)
      else (false, take_back (inner_try_send announced value))

  -- The steps of `recv` and `recv_tracked`.
  unfoldable pub inner_recv : Channel T → Option (T × Channel T)
  inner_recv ch = elim (ch.buffer) [
    | [] ↦ none
    | value ∷ rest ↦ some (value, record ch { buffer = rest; taken = ch.taken + 1 })
  ]

  unfoldable pub settle_recv : Channel T → Channel T
  settle_recv ch = record ch {
    queued = decrement_saturating ch.queued;
    taken = ch.taken - 1;
    untracked = ch.untracked + 1;
  }

  unfoldable pub track : Channel T → Channel T
  track ch = record ch {
    inflight = ch.inflight + 1;
    untracked = ch.untracked - 1;
    guards = ch.guards + 1;
  }

  -- An empty buffer blocks the receiver, or ends `recv` with an error when the senders are gone.
  unfoldable pub recv_tracked : Channel T → Option (T × Channel T)
  recv_tracked ch = elim (inner_recv ch) [
    | none ↦ none
    | some (value, ch') ↦ some (value, track (settle_recv ch'))
  ]

  -- `InflightGuard::drop`
  unfoldable pub drop_guard : Channel T → Channel T
  drop_guard ch = record ch { inflight = decrement_saturating ch.inflight; guards = ch.guards - 1 }

  -- `BoundedReceiver::drop`: the counter first, and the inner receiver, with what is in the buffer,
  -- when the fields are dropped.
  unfoldable pub reset_queued : Channel T → Channel T
  reset_queued ch = record ch { queued = 0 }

  unfoldable pub close : Channel T → Channel T
  close ch = record ch { buffer = []; connected = false }

  -- One step of one of the threads while the receiver is in use.
  pub data Step : Channel T → Channel T → Type 0 where
    announces : (ch : Channel T) → Step ch (announce ch)
    sends : (ch : Channel T) (value : T) → 0 < ch.announced → Step ch (inner_try_send ch value)
    takes_back : (ch : Channel T) → 0 < ch.refused → Step ch (take_back ch)
    receives : (ch ch' : Channel T) (value : T) → inner_recv ch ≡ some (value, ch') → Step ch ch'
    settles : (ch : Channel T) → 0 < ch.taken → Step ch (settle_recv ch)
    tracks : (ch : Channel T) → 0 < ch.untracked → Step ch (track ch)
    finishes : (ch : Channel T) → 0 < ch.guards → Step ch (drop_guard ch)

  pub data Reaches : Channel T → Channel T → Type 0 where
    done : (ch : Channel T) → Reaches ch ch
    then_step : {a b c : Channel T} → Reaches a b → Step b c → Reaches a c
