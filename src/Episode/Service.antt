-- ===== src/Episode/Service.antt =====
-- src/episode_recorder_node.cpp: the callbacks of the action and of the services.
pub mod GoalId
use rosetta_recorder_cpp.Floats.{Floats}
use rosetta_recorder_cpp.Prelude.{
  ℕ, zero, suc, ◌+◌, ◌/◌, ◌%◌, Text, codes, Bool, true, false, not, ◌||◌, ◌&&◌, ◌==◌, ltb, Option,
  none, some, List, [], ◌∷◌, ◌++◌, is_empty, if◌then◌else◌,
}
use rosetta_recorder_cpp.Pipeline.{Pipeline}
use rosetta_recorder_cpp.Episode.{GoalHandle, Settings, Node, Surroundings}
use rosetta_recorder_cpp.Episode.Reason.{Reasons}
use rosetta_recorder_cpp.Episode.Settle.{settle_goal}
use rosetta_recorder_cpp.Episode.Lifecycle.{start_recording, empty_result, is_canceling}

-- One digit in base 16.
abbrev pub hex_digit : ℕ → ℕ
hex_digit d = if ltb d 10 then 48 + d else 87 + d

abbrev pub is_dash_after : ℕ → Bool
is_dash_after i = (i == 4) || (i == 6) || (i == 8) || (i == 10)

-- Two digits for each byte, and a dash after the 4th, 6th, 8th and 10th; `i` bytes are done.
unfoldable pub format_from : ℕ → List ℕ → Text
format_from i [] = []
format_from i (b ∷ bs) =
    hex_digit (b / 16)
    ∷ hex_digit (b % 16)
    ∷ ((if is_dash_after (suc i) then codes "-" else []) ++ format_from (suc i) bs)

abbrev pub format_goal_id : List ℕ → Text
format_goal_id uuid = format_from 0 uuid

-- True for `ACCEPT_AND_EXECUTE`, false for `REJECT`.
abbrev pub handle_goal : {D : Type 0} → Node D → Bool
handle_goal n = n.accepting_goals && not (n.pipe.is_recording || n.start_pending)

-- The answer is always `ACCEPT`.
abbrev pub handle_cancel : {D : Type 0} → Node D → Node D
handle_cancel n = record n { pipe = record n.pipe { stop_requested = true } }

unfoldable pub handle_accepted :
    (F : Floats)
    → Reasons
    → Settings F.Double
    → Surroundings
    → GoalHandle F.Double
    → Node F.Double
    → Node F.Double
handle_accepted F R s w handle n =
    let (started, error) =
      start_recording F s w handle.prompt handle.max_duration_s
        (record n { goal_handle = some handle }) in
    elim error [
      | none ↦ record started { current_goal_id = format_goal_id handle.uuid }
      | some what ↦ settle_goal R (empty_result R.error what) started
    ]

-- The response of a service: whether it worked, and its message.
pub record Response : Type 0 where
  pub success : Bool
  pub message : Text

abbrev pub start_response : Option Text → Response
start_response none = record { success = true; message = codes "Recording started" }
start_response (some what) = record { success = false; message = what }

unfoldable pub on_start_service :
    (F : Floats)
    → Settings F.Double
    → Surroundings
    → Text
    → Node F.Double
    → Node F.Double × Response
on_start_service F s w prompt n =
    let (started, error) =
      start_recording F s w prompt (F.of_ℕ 0)
        (record n { goal_handle = none; current_goal_id = [] }) in
    (started, start_response error)

-- The client onto the node's own cancel service.
pub data CancelClient : Type 0 where
  absent : CancelClient
  not_ready : CancelClient
  ready : CancelClient

abbrev pub is_ready : CancelClient → Bool
is_ready absent = false
is_ready not_ready = false
is_ready ready = true

abbrev pub is_present : CancelClient → Bool
is_present absent = false
is_present not_ready = true
is_present ready = true

-- Whether the cancel is under way, and the goal that a request was sent for, if one was.
unfoldable pub request_action_cancel :
    {D : Type 0} → CancelClient → Option (GoalHandle D) → Bool × Option (List ℕ)
request_action_cancel client none = (false, none)
request_action_cancel client (some h) =
    if not (is_present client)
    then (false, none)
    else if h.is_canceling
    then (true, none)
    else if not (is_ready client)
    then (false, none)
    else (true, some h.uuid)

abbrev pub stopped_by_service : Text
stopped_by_service = codes "Stopped by cancel_recording service"

-- The callback on the response to that request: `accepted` if there was no error and a goal is
-- being canceled.
abbrev pub on_cancel_response : {D : Type 0} → Bool → Node D → Node D
on_cancel_response accepted n = if accepted then n else record n {
  stop_reason = stopped_by_service;
  pipe = record n.pipe { stop_requested = true };
}

-- The node, the response, and the goal whose cancel was requested.
unfoldable pub on_cancel_service :
    {D : Type 0} → CancelClient → Node D → Node D × Response × Option (List ℕ)
on_cancel_service client n =
    if not n.pipe.is_recording && not n.start_pending
    then (n, record { success = false; message = codes "No active recording" }, none)
    else let (under_way, sent) = request_action_cancel client n.goal_handle in
      let noted = record n { stop_reason = stopped_by_service } in
      (
        if under_way
            then noted
            else record noted { pipe = record n.pipe { stop_requested = true } },
        record { success = true; message = codes "Cancel requested" },
        sent,
      )

-- `std::filesystem`, by the calls that the node makes on a path. `exists` answers; that it may throw
-- is left out. `remove_error` is the message of
-- the error code of `remove_all`.
pub record FileSystem : Type 0 where
  pub exists : Text → Bool
  pub remove_error : Text → Option Text
  pub filename : Text → Text

-- The node, the response, and the path that was removed.
unfoldable pub on_delete_last_bag_service :
    {D : Type 0} → FileSystem → Node D → Node D × Response × Option Text
on_delete_last_bag_service fs n =
    if n.pipe.is_recording
    then (
      n,
      record { success = false; message = codes "Cannot delete: recording in progress" },
      none,
    )
    else if is_empty n.last_bag_dir
    then (n, record { success = false; message = codes "No bag to delete" }, none)
    else if not (fs.exists n.last_bag_dir)
    then (
      n,
      record { success = false; message = codes "Bag path not found: " ++ n.last_bag_dir },
      none,
    )
    else elim (fs.remove_error n.last_bag_dir) [
      | some what ↦ (
        n,
        record { success = false; message = codes "Delete failed: " ++ what },
        some n.last_bag_dir,
      )
      | none ↦ (
        record n { last_bag_dir = [] },
        record { success = true; message = codes "Deleted: " ++ fs.filename n.last_bag_dir },
        some n.last_bag_dir,
      )
    ]
