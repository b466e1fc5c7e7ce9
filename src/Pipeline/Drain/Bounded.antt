-- ===== src/Pipeline/Drain/Bounded.antt =====
-- The queue and the batch stay within their bounds, whatever the two threads do.
use Prim.Native.Nat.{min}
use rosetta_recorder_cpp.Prelude.{
  ℕ, zero, suc, ◌+◌, ◌-◌, ◌%◌, ◌^◌, ◌≤◌, ◌<◌, ◌≡◌, refl, sym, ap, subst, ◌∙◌, Bool, not, ◌&&◌,
  Bool-cases, inl, inr, Option-cases, List, [], ◌∷◌, ◌++◌, length, length-append, is_empty, arith,
}
use rosetta_recorder_cpp.Pipeline.{
  Pipeline, QueuedMessage, Storage, writer_queue_max_messages, writer_queue_max_bytes,
}
use rosetta_recorder_cpp.Pipeline.Receive.Bounds.{total_bytes, IsBounded, on_message-IsBounded}
use rosetta_recorder_cpp.Pipeline.Drain.{
  Machine, drain, take_batch, write_batch, acknowledge, request_flush, close_bag, abandon, Step,
  receive, wake, write, reply, finish, close, expire, Reach, here, next,
}
use rosetta_recorder_cpp.Pipeline.Drain.Contents.{batch_of}
use rosetta_recorder_cpp.Pipeline.Drain.Run.{write_batch-Apart}

-- The writer thread's batch has its own bound.
pub record Within (m : Machine) : Type 0 where
  pub queue : IsBounded m.pipe
  pub batch : length (batch_of m.thread) ≤ 256

IsBounded-same :
    (p q : Pipeline) → q.queue ≡ p.queue → q.queue_bytes ≡ p.queue_bytes → IsBounded p → IsBounded q
IsBounded-same p q e b v = record {
  messages = subst (λ l. length l ≤ writer_queue_max_messages) (sym e) v.messages;
  exact = b ∙ v.exact ∙ ap total_bytes (sym e);
  bytes = subst (λ n. n ≤ writer_queue_max_bytes) (sym b) v.bytes;
}

-- What is left after some rounds of the loop, and the batch.
record Drained (rounds : ℕ) (old : List QueuedMessage) (batch : List QueuedMessage)
    (r : List QueuedMessage × ℕ × List QueuedMessage) : Type 0 where
  shorter : length r.0 ≤ length old
  exact : r.1 ≡ total_bytes r.0
  bytes : r.1 ≤ writer_queue_max_bytes
  taken : length r.2 ≤ length batch + rounds

drain-Drained :
    (rounds : ℕ) (queue : List QueuedMessage) (bytes : ℕ) (batch : List QueuedMessage)
    → bytes ≡ total_bytes queue
    → bytes ≤ writer_queue_max_bytes
    → Drained rounds queue batch (drain rounds queue bytes batch)
unfolding drain
drain-Drained zero queue bytes batch e h = record {
  shorter = omega arith;
  exact = e;
  bytes = h;
  taken = omega arith;
}
drain-Drained (suc rounds) [] bytes batch e h = record {
  shorter = omega arith;
  exact = e;
  bytes = h;
  taken = omega arith;
}
drain-Drained (suc rounds) (qm ∷ queue) bytes batch e h =
    let left = (bytes + 2 ^ 64 - qm.message.buffer_length) % 2 ^ 64 in
    let exact : left ≡ total_bytes queue = omega (arith, e, h) in
    let rest =
      drain-Drained rounds queue left (batch ++ qm ∷ []) exact (omega (arith, e, h, exact)) in
    record {
      shorter = omega (arith, rest.shorter);
      exact = rest.exact;
      bytes = rest.bytes;
      taken = omega (arith, rest.taken, length-append batch (qm ∷ []));
    }

take_batch-Within : (p : Pipeline) → IsBounded p → Within (take_batch p)
unfolding take_batch
take_batch-Within p v =
    let rounds = min (length p.queue) 256 in
    let d = drain-Drained rounds p.queue p.queue_bytes [] v.exact v.bytes in
    elim (Bool-cases (not p.writer_thread_running && is_empty p.queue)) [
      | inl e ↦ simp e (record { queue = v; batch = omega arith })
      | inr e ↦ simp e (record {
        queue = record {
          messages = omega (arith, d.shorter, v.messages);
          exact = d.exact;
          bytes = d.bytes;
        };
        batch = omega (arith, d.taken);
      })
    ]

acknowledge-IsBounded :
    (flushing : Bool) (p : Pipeline) → IsBounded p → IsBounded (acknowledge flushing p)
unfolding acknowledge
acknowledge-IsBounded flushing p v = elim (Bool-cases (flushing && is_empty p.queue)) [
  | inl e ↦ simp e (IsBounded-same p _ refl refl v)
  | inr e ↦ simp e v
]

request_flush-IsBounded : (p : Pipeline) → IsBounded p → IsBounded (request_flush p)
unfolding request_flush
request_flush-IsBounded p v = elim (Bool-cases p.writer_thread_running) [
  | inl e ↦ simp e (IsBounded-same p _ refl refl v)
  | inr e ↦ simp e (IsBounded-same p _ refl refl v)
]

close_bag-IsBounded : (p : Pipeline) → IsBounded p → IsBounded (close_bag p)
unfolding close_bag
close_bag-IsBounded p v = elim (Option-cases p.writer) [
  | inl e ↦ rw (close_bag, e) (IsBounded-same p _ refl refl v)
  | inr (bag, e) ↦ rw (close_bag, e) (IsBounded-same p _ refl refl v)
]

-- No message of the run is half the address space long.
abbrev pub IsSmall : {S : Storage} {m n : Machine} → Step S m n → Type 0
IsSmall (receive m now index msg) = msg.buffer_length < 2 ^ 63
IsSmall s = Unit

abbrev pub AllSmall : {S : Storage} {m n : Machine} → Reach S m n → Type 0
AllSmall here = Unit
AllSmall (next r s) = AllSmall r × IsSmall s

Step-Within : {S : Storage} {m n : Machine} → (s : Step S m n) → IsSmall s → Within m → Within n
Step-Within (receive m now index msg) small v = record {
  queue = on_message-IsBounded now index msg m.pipe small v.queue;
  batch = v.batch;
}
Step-Within (wake m t c) small v = take_batch-Within m.pipe v.queue
Step-Within {S} (write m batch flushing t) small v =
    let apart = write_batch-Apart S batch m.pipe in
    record {
      queue = IsBounded-same m.pipe (write_batch S batch m.pipe) apart.queue apart.bytes v.queue;
      batch = omega arith;
    }
Step-Within (reply m flushing t) small v = record {
  queue = acknowledge-IsBounded flushing m.pipe v.queue;
  batch = omega arith;
}
Step-Within (finish m r) small v = record {
  queue = request_flush-IsBounded m.pipe v.queue;
  batch = v.batch;
}
Step-Within (close m r f) small v = record {
  queue = close_bag-IsBounded m.pipe v.queue;
  batch = v.batch;
}
Step-Within (expire m r f) small v = record {
  queue =
      close_bag-IsBounded (abandon m.pipe)
        (record { messages = omega arith; exact = refl; bytes = omega arith });
  batch = v.batch;
}

-- However the executor and the writer thread interleave, from a queue within its limits on, as long
-- as no message is half the address space long: the queue holds at most 20000 messages and 512 MiB,
-- `queue_bytes_` is exactly what it holds, and the thread's batch has at most 256 messages.
pub Reach-Within :
    {S : Storage} {m n : Machine} → (r : Reach S m n) → AllSmall r → Within m → Within n
Reach-Within here small v = v
Reach-Within (next r s) (small, last) v = Step-Within s last (Reach-Within r small v)
