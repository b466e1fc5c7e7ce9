-- ===== src/Lib.antt =====
-- Verification of rosetta_recorder_cpp: a ROS 2 lifecycle node that records the topics of a robot
-- contract into a bag, one episode at a time.
--
-- The program. `load_contract` (src/contract.cpp) turns a YAML file into a `Contract`: the robot,
-- its rate and the topics to record, with their QoS. The node (src/episode_recorder_node.cpp, its
-- state in include/rosetta_recorder_cpp/episode_recorder_node.hpp) builds a table of topics from
-- it and subscribes to each. A subscription's callback is `on_message` with the topic's position
-- in the table: outside an episode it retains what latched topics send, inside it appends to a
-- queue that `writer_thread_main` drains into the open bag. An action goal or a service call
-- starts an episode; a timer, `on_recording_tick`, ends it; `finish_recording` flushes the queue,
-- closes the bag, removes the topics that were discovered for the episode and settles the goal.
--
-- The files.
--   Prelude: texts as lists of bytes, integers, lists over the native numbers, and `Outcome`, a
--     value or an exception, with rules for postconditions.
--   Floats: what the code uses of `double`, as an interface.
--   Contract: the types of include/rosetta_recorder_cpp/contract.hpp. Contract/Yaml is yaml-cpp as
--     an interface with its laws, Contract/Scalars has lower_trim, require_str and parse_qos,
--     Contract/Sections the readers of the sections, Contract/Load load_contract, Contract/Qos the
--     conversions of a QosSpec with rclcpp::QoS as an interface in Contract/Qos/Rclcpp.
--   Topics: `topics_` and `topic_index_`, build_topic_list and create_subscription_for;
--     Topics/Discovery has discover_topics and destroy_discovered_subscriptions. Topics/Exact is
--     what holds of the table between two callbacks, Topics/Shapes what most of them leave alone.
--   Pipeline: the state that the two threads share, and rosbag2's writer as an interface by the
--     exceptions it throws. Pipeline/Receive is on_message, Pipeline/Drain is writer_thread_main
--     and the flush in finish_recording as a step relation, with the thread's own run of these
--     steps and stop_writer_thread, and Pipeline/Drain/Log the abstract recorder it refines;
--     Pipeline/Finish is the part of finish_recording from the flush to the closed bag.
--     Pipeline/Counted is about `messages_written_`.
--   Directory: parse_bag_name_style and create_bag_dir. Metadata: write_metadata, its edit of the
--     document and its retry loop.
--   Episode: the node's recording state and the goal handle. Episode/Settle is settle_goal,
--     Episode/Open is prepare_resubscribes and open_writer, Episode/Lifecycle goes from begin_episode
--     to finish_recording and on_recording_tick, Episode/Service has the callbacks of the action and
--     the services, Episode/Configure has declare_parameters and on_configure, and
--     Episode/Transitions the other lifecycle transitions and the destructor. Episode/Unclosed is
--     finish_recording and its callers where closing the bag throws; everywhere else it does not.
--     Episode/World computes an episode's surroundings with create_bag_dir and write_metadata.
--     Episode/Opens and Episode/Service/GoalId are about single functions; Episode/Phase and its
--     children treat the whole node as a state machine, Episode/Sound and its children are about the
--     table, the bag and the counters in each of its states, and Episode/Goals about the goals that
--     are settled. Episode/Initial is the node as it is constructed.
--   Process: src/main.cpp, with the executor's spin as a parameter. Process/Life is the node through
--     its lifecycle: from its construction on, any order of transitions that rclcpp_lifecycle
--     allows, callbacks, messages and sections of the writer thread.
--   Tests: concrete instances of the interfaces, and runs on small inputs.
--
-- State and interleaving. A function of the node becomes a function from state to state. A locked
-- section of the writer thread is one step, and so is a call of `on_message`, a request for the
-- flush, and the closing of the bag, so the steps of the two threads may come in any order.
-- Callbacks of the executor are single steps on the node, which src/main.cpp runs on one executor
-- thread; while a callback waits for the writer thread, that thread does as many of its sections
-- as a number in the surroundings says. The condition variables are ideal: a notification is never
-- lost. That is so in the code but for stop_writer_thread, which sets its flag and notifies without
-- the lock; Pipeline/Drain/Stop is therefore about a thread that is not blocked in its wait. In the
-- destructor and the transitions, the join is assumed to return only as far as the number of
-- sections says.
--
-- Numbers. `size_t` and `uint64_t` are natural numbers with the wrap-around written out, signed
-- fields are integers that narrow by `to_signed`. Most loops are over a list, or run as many rounds
-- as the list has entries, and the retry loop of write_metadata has its ten rounds. Two loops have
-- no bound in the source: the search of create_bag_dir runs on fuel, for which one more than the
-- number of paths that exist is enough, and the writer thread runs for a number of sections, for
-- which three for each batch of 256 queued messages, and three more to stop, are enough.
--
-- Interfaces. yaml-cpp, rclcpp::QoS, rosbag2's writer, std::filesystem, std::regex, strftime, the
-- graph, the state machine of rclcpp_lifecycle, the executor and `double` are parameters, as are
-- the enumerators of rmw/types.h and the strings that name the reasons in the action's interface;
-- the tests give each one concrete instance.
--
-- Exceptions. In Episode/Configure on_configure is the function where creating a subscription or an
-- interface does not throw; Process uses it, so a node whose configuration the middleware broke off
-- is not followed there. In Episode/Configure/Middleware these calls may throw, into the outer
-- `catch`.
--
-- Not modelled: logging; an exception of the middleware anywhere else; one of the `fs::exists` in
-- on_configure, create_bag_dir and on_delete_last_bag_service, which are total tests here; the overflow of the
-- `int` that numbers the directories of one name, which is a natural number here; what rclcpp and rclcpp_lifecycle do with an exception that leaves a callback; the base
-- class's part of a transition; an error transition that finds a callback half done; the executor's
-- choice of callbacks; the descriptions of the parameters; the tools and the launch file. What an
-- attempt of write_metadata finds in the file is a parameter of it. The types and calls are those
-- of the build for Humble.
pub mod Prelude
pub mod Floats
pub mod Contract
pub mod Topics
pub mod Pipeline
pub mod Directory
pub mod Metadata
pub mod Episode
pub mod Process
mod Tests
