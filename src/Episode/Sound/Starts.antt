-- ===== src/Episode/Sound/Starts.antt =====
-- The starts of an episode, at once or after the settle delay, leave the node sound.
use rosetta_recorder_cpp.Floats.{Floats}
use rosetta_recorder_cpp.Prelude.{
  ◌≡◌, refl, sym, ◌∙◌, Text, false, ◌||◌, Bool-cases, none, some, Option-cases, inl, inr, ◌⊎◌, [],
  is_empty, arith,
}
use rosetta_recorder_cpp.Topics.Shapes.{SameShape-refl, SameShape-eq}
use rosetta_recorder_cpp.Topics.Exact.{IsExact, SameShape-IsExact}
use rosetta_recorder_cpp.Episode.{GoalHandle, Settings, Node, Surroundings}
use rosetta_recorder_cpp.Episode.Reason.{Reasons}
use rosetta_recorder_cpp.Episode.Open.{open_writer}
use rosetta_recorder_cpp.Episode.Lifecycle.{
  begin_episode, close_writer, reset_episode, go_live, start_recording, complete_start,
}
use rosetta_recorder_cpp.Episode.Service.{handle_accepted, on_start_service}
use rosetta_recorder_cpp.Episode.Sound.{Sound, Sound-same}
use rosetta_recorder_cpp.Episode.Sound.Opened.{open_writer-Counting}
use rosetta_recorder_cpp.Episode.Sound.Resubscribed.{prepare_resubscribes-IsExact}
use rosetta_recorder_cpp.Episode.Sound.Ends.{shut-Sound, settle_goal-Sound}

-- What a start finds: nothing is open, and nothing is counted.
record Prepared {D : Type 0} (n : Node D) : Type 0 where
  exact : IsExact n.pipe.table
  closed : n.pipe.writer ≡ none
  uncounted : n.pipe.messages_written ≡ 0
  off : n.pipe.is_recording ≡ false

Prepared-Sound : {D : Type 0} (n : Node D) → Prepared n → Sound n
Prepared-Sound n p = shut-Sound n p.exact p.closed p.off (λ waits. p.uncounted)

close_writer-same :
    {D : Type 0} (n : Node D)
    → ((close_writer n).pipe.writer ≡ none)
      × ((close_writer n).pipe.table ≡ n.pipe.table)
      × ((close_writer n).pipe.is_recording ≡ n.pipe.is_recording)
      × ((close_writer n).start_pending ≡ n.start_pending)
unfolding close_writer
close_writer-same n = elim (Option-cases n.pipe.writer) [
  | inl e ↦ rw (close_writer, e) (e, refl, refl, refl)
  | inr (bag, e) ↦ rw (close_writer, e) (refl, refl, refl, refl)
]

-- A start that was prepared either works, or its bag is closed again; the node is sound either way.
begin_episode-Sound :
    {D : Type 0} (s : Settings D) (w : Surroundings) (n : Node D)
    → Prepared n
    → n.start_pending ≡ false
    → let (m, error) = begin_episode s w n in
      ((error ≡ none) × Sound m) ⊎ ((what : Text) × (error ≡ some what) × Sound (close_writer m))
unfolding begin_episode
begin_episode-Sound {D} s w n p now =
    let opened = open_writer w.rmw w.storage n.current_bag_dir s.storage_id w.now_ns n.pipe in
    let counting =
      open_writer-Counting w.rmw w.storage n.current_bag_dir s.storage_id w.now_ns n.pipe
        p.uncounted p.closed in
    let exact = SameShape-IsExact counting.same p.exact in
    elim (Option-cases opened.1) [
      | inl e ↦
          rw (e, begin_episode)
            (inl (
              refl,
              record {
                exact = SameShape-IsExact (SameShape-refl opened.0.table) exact;
                counted = counting.counted;
                shut = λ off. cc off;
                opened = λ on. counting.has_bag e;
                fresh = λ waits. cc (now, waits);
              },
            ))
      | inr (what, e) ↦
          let threw : Node D = record n { pipe = opened.0 } in
          let (shut, table, same, waits_same) = close_writer-same threw in
          rw (e, begin_episode)
            (inr (
              what,
              refl,
              shut-Sound (close_writer threw) (SameShape-IsExact (SameShape-eq table) exact) shut
                  (same ∙ counting.same_recording ∙ p.off) (λ waits. cc (waits_same, now, waits)),
            ))
    ]

go_live-Sound :
    {D : Type 0} (s : Settings D) (w : Surroundings) (n : Node D)
    → Prepared n
    → n.start_pending ≡ false
    → Sound (go_live s w n).0
unfolding go_live
go_live-Sound s w n p now = elim (Bool-cases (is_empty n.pending_resubscribed)) [
  | inr e ↦
      rw (go_live, e)
        (Prepared-Sound _
          (record { exact = p.exact; closed = p.closed; uncounted = p.uncounted; off = p.off }))
  | inl e ↦ elim (begin_episode-Sound s w n p now) [
    | inl (fine, v) ↦ rw (go_live, e, fine) v
    | inr (what, threw, v) ↦ rw (go_live, e, threw) v
  ]
]

reset_episode-Prepared :
    (F : Floats) (s : Settings F.Double) (w : Surroundings) (prompt : Text) (max : F.Double)
    (n : Node F.Double)
    → Sound n
    → n.pipe.is_recording ≡ false
    → Prepared (reset_episode F s w prompt max n)
unfolding reset_episode
reset_episode-Prepared F s w prompt max n v off = record {
  exact = prepare_resubscribes-IsExact s.record_all w.graph n.pipe.table v.exact;
  closed = v.shut off;
  uncounted = refl;
  off = off;
}

reset_episode-pending :
    (F : Floats) (s : Settings F.Double) (w : Surroundings) (prompt : Text) (max : F.Double)
    (n : Node F.Double)
    → (reset_episode F s w prompt max n).start_pending ≡ n.start_pending
unfolding reset_episode
reset_episode-pending F s w prompt max n = refl

pub start_recording-Sound :
    (F : Floats) (s : Settings F.Double) (w : Surroundings) (prompt : Text) (max : F.Double)
    (n : Node F.Double)
    → Sound n
    → Sound (start_recording F s w prompt max n).0
unfolding start_recording
start_recording-Sound F s w prompt max n v = elim (Bool-cases n.accepting_goals) [
  | inr e ↦ simp e v
  | inl e ↦ elim (Bool-cases (n.pipe.is_recording || n.start_pending)) [
    | inl busy ↦ simp (e, busy) v
    | inr free ↦
        simp (e, free)
          (go_live-Sound s w (reset_episode F s w prompt max n)
            (reset_episode-Prepared F s w prompt max n v (ground (arith, free)))
            (reset_episode-pending F s w prompt max n ∙ ground (arith, free)))
  ]
]

pub handle_accepted-Sound :
    (F : Floats) (R : Reasons) (s : Settings F.Double) (w : Surroundings) (h : GoalHandle F.Double)
    (n : Node F.Double)
    → Sound n
    → Sound (handle_accepted F R s w h n)
unfolding handle_accepted
handle_accepted-Sound F R s w h n v =
    let held : Node F.Double = record n { goal_handle = some h } in
    let started =
      start_recording-Sound F s w h.prompt h.max_duration_s held
        (Sound-same n held refl refl refl refl refl v) in
    elim (Option-cases (start_recording F s w h.prompt h.max_duration_s held).1) [
      | inl e ↦ rw (handle_accepted, e) (Sound-same _ _ refl refl refl refl refl started)
      | inr (what, e) ↦ rw (handle_accepted, e) (settle_goal-Sound R _ _ started)
    ]

pub on_start_service-Sound :
    (F : Floats) (s : Settings F.Double) (w : Surroundings) (prompt : Text) (n : Node F.Double)
    → Sound n
    → Sound (on_start_service F s w prompt n).0
unfolding on_start_service
on_start_service-Sound F s w prompt n v =
    let free : Node F.Double = record n { goal_handle = none; current_goal_id = [] } in
    start_recording-Sound F s w prompt (F.of_ℕ 0) free
      (Sound-same n free refl refl refl refl refl v)

pub complete_start-Sound :
    {D : Type 0} (R : Reasons) (s : Settings D) (w : Surroundings) (n : Node D)
    → Sound n
    → Sound (complete_start R s w n)
unfolding complete_start
complete_start-Sound {D} R s w n v = elim (Bool-cases n.start_pending) [
  | inr e ↦ simp e (Sound-same n _ refl refl refl refl (sym e) v)
  | inl e ↦
      let (off, unwritten) = v.fresh e in
      let start : Node D = record n {
        pending_start_timer = false;
        start_pending = false;
        pending_resubscribed = [];
      } in
      let prepared : Prepared start = record {
        exact = v.exact;
        closed = v.shut off;
        uncounted = unwritten;
        off = off;
      } in
      elim (begin_episode-Sound s w start prepared refl) [
        | inl (fine, sound) ↦ rw (complete_start, e, fine) sound
        | inr (what, threw, sound) ↦ rw (complete_start, e, threw) (settle_goal-Sound R _ _ sound)
      ]
]
