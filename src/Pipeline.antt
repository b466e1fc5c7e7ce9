-- ===== src/Pipeline.antt =====
-- include/rosetta_recorder_cpp/episode_recorder_node.hpp: the state that the executor thread and
-- the writer thread share, and the limits on it. The children have the message path and the
-- writer thread of src/episode_recorder_node.cpp.
pub mod Shapes
pub mod Counted
pub mod Receive
pub mod Drain
pub mod Finish
use rosetta_recorder_cpp.Prelude.{
  ℕ, suc, ◌+◌, ◌*◌, ◌%◌, ◌^◌, Text, Bool, true, false, Option, none, some, List, [], ◌∷◌, ◌++◌,
}
use rosetta_recorder_cpp.Topics.{SerializedMessage, Topics}

-- `kMaxBufferBytes`, `kWriterQueueMaxMessages` and `kWriterQueueMaxBytes`.
abbrev pub max_buffer_bytes : ℕ
max_buffer_bytes = 4 * 1024 * 1024

abbrev pub writer_queue_max_messages : ℕ
writer_queue_max_messages = 20000

abbrev pub writer_queue_max_bytes : ℕ
writer_queue_max_bytes = 512 * 1024 * 1024

pub record QueuedMessage : Type 0 where
  pub message : SerializedMessage
  pub timestamp_ns : ℕ
  pub topic_index : ℕ

-- The members of `rosbag2_storage::SerializedBagMessage` and `TopicMetadata` that are set, in the
-- build for Humble.
pub record BagMessage : Type 0 where
  pub topic_name : Text
  pub time_stamp : ℕ
  pub serialized_data : SerializedMessage

-- In the build for Humble, where a message has one time.
abbrev pub set_bag_timestamp : ℕ → BagMessage → BagMessage
set_bag_timestamp timestamp_ns msg = record msg { time_stamp = timestamp_ns }

pub record TopicMetadata : Type 0 where
  pub name : Text
  pub type : Text
  pub serialization_format : Text
  pub offered_qos_profiles : Text

-- A bag by the calls on its writer: where it was opened, and what it has accepted.
pub record Bag : Type 0 where
  pub uri : Text
  pub storage_id : Text
  pub topics : List TopicMetadata
  pub messages : List BagMessage

-- `rosbag2_cpp::Writer`, as an interface: the text of the exception that a call throws on a bag
-- with this history, if it throws.
pub record Storage : Type 0 where
  pub open_error : Text → Text → Option Text
  pub create_error : Bag → TopicMetadata → Option Text
  pub write_error : Bag → BagMessage → Option Text
  pub close_error : Bag → Option Text

-- `closed` collects the bags that were closed: what is on disk.
pub record Pipeline : Type 0 where
  pub table : Topics
  pub is_recording : Bool
  pub stop_requested : Bool
  pub write_failed : Bool
  pub write_error : Text
  pub messages_written : ℕ
  pub messages_dropped : ℕ
  pub writer : Option Bag
  pub closed : List Bag
  pub queue : List QueuedMessage
  pub queue_bytes : ℕ
  pub flush_requested : Bool
  pub flush_done : Bool
  pub writer_thread_running : Bool

-- `fetch_add(1)` on a `uint64_t`.
abbrev pub increment : ℕ → ℕ
increment n = suc n % 2 ^ 64
