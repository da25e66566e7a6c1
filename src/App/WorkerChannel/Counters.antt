-- ===== src/App/WorkerChannel/Counters.antt =====
-- What the counters count, however the threads interleave.
use flist_walker.Prelude.{
  ℕ, suc, ◌+◌, ◌-◌, ◌≤◌, ◌<◌, ◌≡◌, refl, ap, subst, true, false, some, List, [], ◌∷◌, ◌++◌, arith,
  length, length-append, ltb, ltb→lt, &&-eq-true, some_inj, if_both,
}
use flist_walker.App.WorkerChannel.{
  Channel, bounded_request_channel, announce, has_room, inner_try_send, take_back, try_send,
  inner_recv, settle_recv, track, drop_guard, decrement_saturating, Step, announces, sends,
  takes_back, receives, settles, tracks, finishes, Reaches, done, then_step,
}

back_to : (n : ℕ) → n + 1 - 1 ≡ n
back_to n = omega arith

module _ {T : Type 0} where
  -- The queue counter counts the requests in the buffer and those of the threads that are between
  -- two steps of a send or of a receive; the other counts the guards.
  pub record IsCounted (ch : Channel T) : Type 0 where
    pub alive : ch.connected ≡ true
    pub queue : ch.queued ≡ ch.announced + ch.refused + length ch.buffer + ch.taken
    pub handled : ch.inflight ≡ ch.guards
    pub bounded : length ch.buffer ≤ ch.capacity

  sends-IsCounted :
      (ch : Channel T) (value : T)
      → 0 < ch.announced
      → IsCounted ch
      → IsCounted (inner_try_send ch value)
  unfolding inner_try_send has_room
  sends-IsCounted ch value waiting v =
      if_both IsCounted (has_room ch)
        (λ room. record {
          alive = v.alive;
          queue = omega (arith, length-append ch.buffer (value ∷ []), v.queue);
          handled = v.handled;
          bounded =
              fits
                (ltb→lt _ _ (&&-eq-true ch.connected (ltb (length ch.buffer) ch.capacity) room).1);
        })
        (λ _. record {
          alive = v.alive;
          queue = omega (arith, v.queue);
          handled = v.handled;
          bounded = v.bounded;
        })
    where
      fits : length ch.buffer < ch.capacity → length (ch.buffer ++ (value ∷ [])) ≤ ch.capacity
      fits h = omega (arith, length-append ch.buffer (value ∷ []))

  receives-IsCounted :
      (ch ch' : Channel T) (value : T)
      → inner_recv ch ≡ some (value, ch')
      → IsCounted ch
      → IsCounted ch'
  unfolding inner_recv
  receives-IsCounted ch ch' value h v = by_buffer ch.buffer refl
    where
      by_buffer : (b : List T) → ch.buffer ≡ b → IsCounted ch'
      by_buffer [] e = absurd (cc (rw (e, inner_recv) at h))
      by_buffer (x ∷ rest) e =
          let same : record ch { buffer = rest; taken = ch.taken + 1 } ≡ ch' =
            ap (λ r. r.1) (some_inj (rw (e, inner_recv) at h)) in
          let size : length ch.buffer ≡ suc (length rest) = ap length e in
          subst IsCounted same (record {
            alive = v.alive;
            queue = omega (arith, v.queue, size);
            handled = v.handled;
            bounded = omega (arith, v.bounded, size);
          })

  Step-IsCounted : (ch ch' : Channel T) → Step ch ch' → IsCounted ch → IsCounted ch'
  unfolding announce take_back settle_recv track drop_guard decrement_saturating
  Step-IsCounted _ _ (announces ch) v = record {
    alive = v.alive;
    queue = omega (arith, v.queue);
    handled = v.handled;
    bounded = v.bounded;
  }
  Step-IsCounted _ _ (sends ch value waiting) v = sends-IsCounted ch value waiting v
  Step-IsCounted _ _ (takes_back ch pending) v = record {
    alive = v.alive;
    queue = omega (arith, v.queue);
    handled = v.handled;
    bounded = v.bounded;
  }
  Step-IsCounted _ _ (receives ch ch' value h) v = receives-IsCounted ch ch' value h v
  Step-IsCounted _ _ (settles ch pending) v = record {
    alive = v.alive;
    queue = omega (arith, v.queue);
    handled = v.handled;
    bounded = v.bounded;
  }
  Step-IsCounted _ _ (tracks ch pending) v = record {
    alive = v.alive;
    queue = v.queue;
    handled = omega (arith, v.handled);
    bounded = v.bounded;
  }
  Step-IsCounted _ _ (finishes ch pending) v = record {
    alive = v.alive;
    queue = v.queue;
    handled = omega (arith, v.handled);
    bounded = v.bounded;
  }

  -- However the threads that send, receive and finish requests interleave, while the receiver is in
  -- use the queue counter is the number of requests in the buffer and of those that a thread is
  -- about to put in, to give up or to count as received; the other counter is the number of live
  -- guards; and the buffer holds no more than its capacity.
  pub reached-IsCounted :
      (capacity : ℕ) (ch : Channel T) → Reaches (bounded_request_channel capacity) ch → IsCounted ch
  unfolding bounded_request_channel
  reached-IsCounted capacity ch (done _) = record {
    alive = refl;
    queue = omega arith;
    handled = refl;
    bounded = omega arith;
  }
  reached-IsCounted capacity ch (then_step {b = b} before last) =
      Step-IsCounted b ch last (reached-IsCounted capacity b before)

  -- A try_send that is not interrupted puts the request at the end of the buffer and counts it
  -- where there is room, and fails where the receiver is gone or the buffer is full, and then
  -- leaves everything as it was.
  pub try_send_lem :
      (ch : Channel T) (value : T)
      → (has_room ch ≡ true
          → try_send ch value
            ≡ (true, record ch { buffer = ch.buffer ++ (value ∷ []); queued = ch.queued + 1 }))
        × (has_room ch ≡ false → try_send ch value ≡ (false, ch))
  unfolding try_send announce has_room inner_try_send take_back decrement_saturating
  try_send_lem ch value = (
    λ room. rw room (λ i. (
      true,
      record ch {
        buffer = ch.buffer ++ (value ∷ []);
        queued = ch.queued + 1;
        announced = back_to ch.announced i;
      },
    )),
    λ full. rw full (λ i. (
      false,
      record ch {
        queued = back_to ch.queued i;
        announced = back_to ch.announced i;
        refused = back_to ch.refused i;
      },
    )),
  )
