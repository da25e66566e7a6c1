-- ===== src/Tests/Channels.antt =====
-- Witnesses for the worker channel.
use flist_walker.Prelude.{ℕ, ◌+◌, ◌≡◌, refl, true, false, Option, none, some, [], ◌∷◌, ◌++◌, arith}
use flist_walker.App.WorkerChannel.{
  Channel, bounded_request_channel, announce, has_room, inner_try_send, take_back, try_send,
  inner_recv, settle_recv, track, recv_tracked, drop_guard, reset_queued, close,
  decrement_saturating, load, Reaches, done, then_step, announces, sends,
}
use flist_walker.App.WorkerChannel.Counters.{IsCounted, reached-IsCounted, try_send_lem}

channel_parts : Unit {0}
unfolding bounded_request_channel announce has_room inner_try_send take_back try_send inner_recv
    settle_recv track recv_tracked drop_guard reset_queued close decrement_saturating load
channel_parts = tt

abbrev fresh : Channel ℕ
fresh = bounded_request_channel 1

abbrev sent : Channel ℕ
sent = inner_try_send (announce fresh) 7

-- A second sender has announced its request before the first has put its own into the buffer.
two_senders : Reaches fresh (inner_try_send (announce (announce fresh)) 7)
unfolding channel_parts
two_senders =
    then_step (then_step (then_step (done fresh) (announces fresh)) (announces (announce fresh)))
      (sends (announce (announce fresh)) 7 (omega arith))

reached-IsCounted_example : IsCounted (inner_try_send (announce (announce fresh)) 7)
reached-IsCounted_example =
    reached-IsCounted 1 (inner_try_send (announce (announce fresh)) 7) two_senders

try_send_lem_example :
    (has_room sent ≡ true
      → try_send sent 8
        ≡ (true, record sent { buffer = sent.buffer ++ (8 ∷ []); queued = sent.queued + 1 }))
    × (has_room sent ≡ false → try_send sent 8 ≡ (false, sent))
try_send_lem_example = try_send_lem sent 8

map_option : {A B : Type 0} → (A → B) → Option A → Option B
map_option f none = none
map_option f (some a) = some (f a)

-- The buffer of one request is full, and a receive makes room.
full_then_free :
    ((try_send sent 8).0 ≡ false)
    × (map_option {B = ℕ × ℕ × ℕ}
          (λ r. (r.0, (load r.1).queued, (load r.1).inflight))
          (recv_tracked sent)
        ≡ some (7, 0, 1))
unfolding channel_parts map_option
full_then_free = (refl, refl)

-- A request that is sent between the two halves of the receiver's drop stays counted for good.
counted_after_drop :
    (let late = close (inner_try_send (announce (reset_queued fresh)) 7) in
      (late.connected ≡ false)
      × (late.buffer ≡ [])
      × (late.announced ≡ 0)
      × ((load late).queued ≡ 1))
unfolding channel_parts
counted_after_drop = (refl, refl, refl, refl)
