-- ===== src/Pipeline/Receive/Retention.antt =====
-- What `on_message` keeps while nothing is recorded.
use rosetta_recorder_cpp.Prelude.{
  ℕ, zero, suc, ◌+◌, ◌-◌, ◌≤◌, ◌≡◌, refl, ap, ◌∙◌, ◌⊎◌, true, false, List, [], ◌∷◌, ◌++◌, length,
  drop, get_elem?, ltb, All, arith, length-append, length-drop, Bool-cases, Option-cases, inl, inr,
}
use rosetta_recorder_cpp.Contract.Sections.{is_buffering}
use rosetta_recorder_cpp.Topics.{SerializedMessage, BufferedMessage, TopicState}
use rosetta_recorder_cpp.Topics.Tidy.{depth_of, IsTidy, IsTidy-same, set-All, get-All}
use rosetta_recorder_cpp.Pipeline.{Pipeline, QueuedMessage, max_buffer_bytes}
use rosetta_recorder_cpp.Pipeline.Receive.{trim, retain, retain_at, enqueue, is_full, on_message}

-- The loop leaves the newest `depth` messages.
trim-eq-drop : (depth : ℕ) (bs : List BufferedMessage) → trim depth bs ≡ drop (length bs - depth) bs
unfolding trim
trim-eq-drop depth [] = drop-nil (0 - depth)
  where
    drop-nil : (n : ℕ) → [] ≡ drop {A = BufferedMessage} n []
    drop-nil zero = refl
    drop-nil (suc n) = refl
trim-eq-drop depth (b ∷ bs) = elim (Bool-cases (ltb depth (suc (length bs)))) [
  | inl over ↦
      let e : suc (length bs) - depth ≡ suc (length bs - depth) = ground (arith, over) in
      rw (over, e) (trim-eq-drop depth bs)
  | inr within ↦ let e : suc (length bs) - depth ≡ 0 = ground (arith, within) in rw (within, e)
]

-- The topic retains what arrives.
abbrev Retains : TopicState → SerializedMessage → Type 0
Retains st msg =
    (st.spec.qos.transient_local ≡ true)
    × (is_buffering st.spec.strategy ≡ true)
    × (msg.buffer_length ≤ max_buffer_bytes)

-- Both cases.
retain_lem :
    (now : ℕ) (msg : SerializedMessage) (st : TopicState)
    → (Retains st msg
        → retain now msg st ≡ record st {
          buffer =
              drop
                (length st.buffer + 1 - depth_of st)
                (st.buffer ++ record { message = msg; timestamp_ns = now } ∷ []);
        })
      × (¬ Retains st msg → retain now msg st ≡ st)
unfolding retain
retain_lem now msg st =
    let new : BufferedMessage = record { message = msg; timestamp_ns = now } in
    (
      λ r. simp (r.0, r.1, within r.2) (ap (λ b. record st { buffer = b }) (newest new)),
      λ r.
          skipped r (Bool-cases st.spec.qos.transient_local)
            (Bool-cases (is_buffering st.spec.strategy))
            (Bool-cases (ltb max_buffer_bytes msg.buffer_length)),
    )
  where
    within : msg.buffer_length ≤ max_buffer_bytes → ltb max_buffer_bytes msg.buffer_length ≡ false
    within h = ground arith

    newest :
        (new : BufferedMessage)
        → trim (depth_of st) (st.buffer ++ new ∷ [])
          ≡ drop (length st.buffer + 1 - depth_of st) (st.buffer ++ new ∷ [])
    newest new =
        trim-eq-drop (depth_of st) (st.buffer ++ new ∷ [])
        ∙ ap (λ n. drop (n - depth_of st) (st.buffer ++ new ∷ []))
            (length-append st.buffer (new ∷ []))

    skipped :
        ¬ Retains st msg
        → (st.spec.qos.transient_local ≡ true) ⊎ (st.spec.qos.transient_local ≡ false)
        → (is_buffering st.spec.strategy ≡ true) ⊎ (is_buffering st.spec.strategy ≡ false)
        → (ltb max_buffer_bytes msg.buffer_length ≡ true)
          ⊎ (ltb max_buffer_bytes msg.buffer_length ≡ false)
        → retain now msg st ≡ st
    skipped r (inr a) b c = simp a
    skipped r (inl a) (inr b) c = simp (a, b)
    skipped r (inl a) (inl b) (inl c) = simp (a, b, c)
    skipped r (inl a) (inl b) (inr c) = absurd (r (a, b, ground (arith, c)))

-- A latched, buffering topic holds the newest messages, as many as its depth: the new one is the
-- last, and only the oldest are lost, provided that the message is not too large.
retain-drop :
    (now : ℕ) (msg : SerializedMessage) (st : TopicState)
    → Retains st msg
    → retain now msg st ≡ record st {
      buffer =
          drop
            (length st.buffer + 1 - depth_of st)
            (st.buffer ++ record { message = msg; timestamp_ns = now } ∷ []);
    }
retain-drop now msg st = (retain_lem now msg st).0

-- A topic that is not latched or buffers nothing is left as it is, and so is one whose message is
-- too large.
retain_unchanged :
    (now : ℕ) (msg : SerializedMessage) (st : TopicState)
    → ¬ Retains st msg
    → retain now msg st ≡ st
retain_unchanged now msg st = (retain_lem now msg st).1

-- In every topic the buffer is within the depth.
abbrev Fits : TopicState → Type 0
Fits st = length st.buffer ≤ depth_of st

length-trim-le : (depth : ℕ) (bs : List BufferedMessage) → length (trim depth bs) ≤ depth
length-trim-le depth bs =
    rw (trim-eq-drop depth bs) (omega (arith, length-drop (length bs - depth) bs))

retain-Fits :
    (now : ℕ) (msg : SerializedMessage) (st : TopicState) → Fits st → Fits (retain now msg st)
unfolding retain
retain-Fits now msg st h = ground (
  arith,
  length-trim-le (depth_of st) (st.buffer ++ record { message = msg; timestamp_ns = now } ∷ []),
)

retain_at-Fits :
    (now index : ℕ) (msg : SerializedMessage) (topics : List TopicState)
    → All Fits topics
    → All Fits (retain_at now index msg topics)
unfolding retain_at
retain_at-Fits now index msg topics h = elim (Option-cases (get_elem? topics index)) [
  | inl e ↦ rw (e, retain_at) h
  | inr (st, e) ↦
      rw (e, retain_at)
        (set-All Fits topics index (retain now msg st) h
          (retain-Fits now msg st (get-All Fits topics index h e)))
]

enqueue-Fits :
    (qm : QueuedMessage) (p : Pipeline)
    → All Fits p.table.topics
    → All Fits (enqueue qm p).table.topics
unfolding enqueue
enqueue-Fits qm p h = elim (Bool-cases (is_full qm.message.buffer_length p)) [
  | inl e ↦ simp e h
  | inr e ↦ simp e h
]

-- No message makes a buffer outgrow its topic's depth.
on_message-Fits :
    (now index : ℕ) (msg : SerializedMessage) (p : Pipeline)
    → All Fits p.table.topics
    → All Fits (on_message now index msg p).table.topics
unfolding on_message
on_message-Fits now index msg p h = elim (Bool-cases p.is_recording) [
  | inl on ↦
      simp on (enqueue-Fits (record { message = msg; timestamp_ns = now; topic_index = index }) p h)
  | inr off ↦ simp off (retain_at-Fits now index msg p.table.topics h)
]

retain-spec :
    (now : ℕ) (msg : SerializedMessage) (st : TopicState) → (retain now msg st).spec ≡ st.spec
unfolding retain
retain-spec now msg st = ground arith

-- A message is retained only by a latched topic that buffers.
retain-IsTidy :
    (now : ℕ) (msg : SerializedMessage) (st : TopicState) → IsTidy st → IsTidy (retain now msg st)
retain-IsTidy now msg st h = elim (Bool-cases st.spec.qos.transient_local) [
  | inr plain ↦ IsTidy-same st _ (retain_unchanged now msg st (λ r. cc (r.0, plain))) h
  | inl latched ↦ elim (Bool-cases (is_buffering st.spec.strategy)) [
    | inr unbuffered ↦ IsTidy-same st _ (retain_unchanged now msg st (λ r. cc (r.1, unbuffered))) h
    | inl buffers ↦ record {
      fits = retain-Fits now msg st h.fits;
      latched = λ some_held. rw (retain-spec now msg st) (latched, buffers);
    }
  ]
]

pub retain_at-IsTidy :
    (now index : ℕ) (msg : SerializedMessage) (topics : List TopicState)
    → All IsTidy topics
    → All IsTidy (retain_at now index msg topics)
unfolding retain_at
retain_at-IsTidy now index msg topics h = elim (Option-cases (get_elem? topics index)) [
  | inl e ↦ rw (e, retain_at) h
  | inr (st, e) ↦
      rw (e, retain_at)
        (set-All IsTidy topics index (retain now msg st) h
          (retain-IsTidy now msg st (get-All IsTidy topics index h e)))
]
