-- ===== src/Tests/OnTopics.antt =====
-- The table of topics on a small contract, with one topic that is discovered.
use rosetta_recorder_cpp.Prelude.{
  ◌≡◌, refl, Text, codes, text_eq, true, false, none, some, List, [], ◌∷◌, ◌++◌, length, pos, All,
}
use rosetta_recorder_cpp.Contract.{default_qos, RecordTopic, no_buffer, accumulate}
use rosetta_recorder_cpp.Topics.{
  Topics, push_topic, add_topic, add_topics, clock_topic, build_topic_list, create_subscription_for,
}
use rosetta_recorder_cpp.Topics.Discovery.{
  PublisherQos, Graph, wanted, find_wanted, add_discovered, add_all_discovered, discover_topics,
  destroy_discovered_subscriptions,
}
use rosetta_recorder_cpp.Topics.Survivors.{keep}
use rosetta_recorder_cpp.Topics.Indexed.{
  IsIndexed, push_topic-IsIndexed, build_topic_list-IsIndexed,
}
use rosetta_recorder_cpp.Topics.Listed.{
  spec_of, first_named, specs_of, distinct, build_topic_list-first,
}
use rosetta_recorder_cpp.Topics.Reindex.{destroy-IsIndexed}
use rosetta_recorder_cpp.Topics.Episode.{IsFromContract, discover-destroy}
use rosetta_recorder_cpp.Tests.Samples.{rmw}

abbrev topic_spec : Text → RecordTopic
topic_spec name = record { topic = name; type = codes "T"; qos = default_qos; strategy = no_buffer }

-- The second `/a` is dropped.
abbrev specs : List RecordTopic
specs =
    topic_spec (codes "/a")
    ∷ topic_spec (codes "/b")
    ∷ record (topic_spec (codes "/a")) { strategy = accumulate }
    ∷ []

abbrev table : Topics
table = build_topic_list rmw true specs

table_length : length table.topics ≡ 3
unfolding build_topic_list add_topics add_topic push_topic text_eq
table_length = refl

build_topic_list-first_example :
    (specs_of (build_topic_list rmw true specs).topics
      ≡ distinct [] (specs ++ clock_topic rmw ∷ []))
    × ((name : Text)
        → spec_of (build_topic_list rmw true specs) name
          ≡ first_named name (specs ++ clock_topic rmw ∷ []))
build_topic_list-first_example = build_topic_list-first rmw true specs

absent : table.topic_index (codes "/new") ≡ none
unfolding build_topic_list add_topics add_topic push_topic text_eq
absent = refl

abbrev discovered_table : Topics
discovered_table = push_topic true (topic_spec (codes "/new")) table

destroy-IsIndexed_example :
    ((destroy_discovered_subscriptions discovered_table).topics ≡ keep discovered_table.topics)
    × IsIndexed (destroy_discovered_subscriptions discovered_table)
destroy-IsIndexed_example = destroy-IsIndexed discovered_table (
    push_topic-IsIndexed true (topic_spec (codes "/new")) table absent
      (build_topic_list-IsIndexed rmw true specs))

abbrev publisher : PublisherQos
publisher = record {
  depth = 5;
  is_reliable = true;
  is_keep_all = false;
  is_transient_local = true;
  liveliness = pos 1;
  deadline_sec = 0;
  deadline_nsec = 0;
  lifespan_sec = 0;
  lifespan_nsec = 0;
  lease_sec = 0;
  lease_nsec = 0;
}

-- One topic that the table has, one that is excluded, and one that is new.
abbrev graph : Graph
graph = record {
  names_and_types =
      (codes "/a", codes "T" ∷ [])
      ∷ (codes "/rosout", codes "L" ∷ [])
      ∷ (codes "/new", codes "T" ∷ [])
      ∷ [];
  publishers = λ name. publisher ∷ [];
  include_regex = none;
  exclude_regex = some (text_eq (codes "/rosout"));
}

discovered_length : length (discover_topics graph table).topics ≡ 4
unfolding discover_topics find_wanted wanted add_all_discovered add_discovered
    create_subscription_for build_topic_list add_topics add_topic push_topic text_eq
discovered_length = refl

own : All IsFromContract table.topics
unfolding build_topic_list add_topics add_topic push_topic text_eq
own = (refl, (refl, (refl, tt)))

discover-destroy_example :
    ((destroy_discovered_subscriptions (discover_topics graph table)).topics ≡ table.topics)
    × ((name : Text)
        → (destroy_discovered_subscriptions (discover_topics graph table)).topic_index name
          ≡ table.topic_index name)
discover-destroy_example =
    discover-destroy graph table own (build_topic_list-IsIndexed rmw true specs)
