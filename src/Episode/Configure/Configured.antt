-- ===== src/Episode/Configure/Configured.antt =====
-- What `on_configure` comes to: the configured state, or the reason why it fails.
use rosetta_recorder_cpp.Floats.{Floats}
use rosetta_recorder_cpp.Prelude.{
  ℕ, ◌≡◌, refl, sym, ap, subst, ◌∙◌, Text, Bool, Option, none, some, [], ◌++◌, get_elem?,
  if◌then◌else◌, ok, Post, Post-ok, Post-bind, Post-weaken,
}
use rosetta_recorder_cpp.Contract.{RmwPolicies, Contract}
use rosetta_recorder_cpp.Contract.Yaml.{Yaml}
use rosetta_recorder_cpp.Contract.Load.{load_contract}
use rosetta_recorder_cpp.Directory.{BagNameStyle}
use rosetta_recorder_cpp.Directory.Naming.{style_name}
use rosetta_recorder_cpp.Topics.{TopicState, build_topic_list, subscribe_all}
use rosetta_recorder_cpp.Topics.Indexed.{IsIndexed, build_topic_list-IsIndexed}
use rosetta_recorder_cpp.Topics.Subscribed.{
  IsSubscribed, subscribe_all-IsSubscribed, subscribe_all-IsIndexed,
}
use rosetta_recorder_cpp.Episode.{Node}
use rosetta_recorder_cpp.Episode.Configure.{
  Parameters, Host, State, all_interfaces, default_blacklist, with_base, with_style, with_excluded,
  with_included, text_or_empty, read_values, open_interfaces, prepare, on_configure,
}
use rosetta_recorder_cpp.Episode.Configure.Steps.{
  Included, Keeps, Fails, Fails-Keeps, no_base, bad_style, bad_exclude, bad_include, styled,
  read_contract_file-Post, make_base-Post, read_style-Post, compile_excluded-Post,
  compile_included-Post,
}
use rosetta_recorder_cpp.Episode.Configure.Patterns.{alternation, non_empty}

module _ (F : Floats) (Y : Yaml F.Double) (rmw : RmwPolicies) (H : Host)
    (P : Parameters F.Double) where
  -- The node listens to the topics of the contract, each under its own position, and has the
  -- values, the patterns and the interfaces of its parameters.
  pub record IsConfigured (st : State F.Double) : Type 0 where
    pub contract : Contract F.Double
    pub loaded : load_contract F Y rmw P.contract_path ≡ ok contract
    pub present : st.node.contract ≡ some contract
    pub table :
        st.node.pipe.table ≡ subscribe_all (build_topic_list rmw P.use_sim_time contract.topics)
    pub indexed : IsIndexed st.node.pipe.table
    pub subscribed :
        (i : ℕ) (t : TopicState) → get_elem? st.node.pipe.table.topics i ≡ some t → IsSubscribed i t
    pub interfaces : st.node.interfaces ≡ all_interfaces
    pub base : st.config.bag_base ≡ P.bag_base_dir
    pub settings : st.config.settings ≡ record {
      storage_id = P.storage_id;
      default_max_duration_s = P.default_max_duration_s;
      record_all = P.record_all;
      default_prompt = P.default_prompt;
    }
    pub embed : st.config.embed_contract ≡ P.embed_contract
    pub rate :
        st.config.feedback_rate_hz
        ≡ (if F.le P.feedback_rate_hz (F.of_ℕ 0) then F.of_ℕ 2 else P.feedback_rate_hz)
    pub text :
        st.config.contract_text
        ≡ (if P.embed_contract then text_or_empty (H.read_text P.contract_path) else [])
    pub style : P.bag_name_style ≡ style_name st.config.bag_name_style
    pub excluded :
        H.regex (alternation (default_blacklist ++ non_empty P.exclude_topics))
        ≡ st.config.exclude_regex
    pub included : Included H (alternation (non_empty P.include_topics)) st.config.include_regex

  -- The state that the steps come to.
  abbrev pub reached :
      Contract F.Double
      → BagNameStyle
      → (Text → Bool)
      → Option (Text → Bool)
      → State F.Double
      → State F.Double
  reached c style r i st = with_included i (with_excluded r (styled F Y rmw H P c style st))

  open_interfaces-IsConfigured :
      (c : Contract F.Double) (style : BagNameStyle) (r : Text → Bool) (i : Option (Text → Bool))
      (st : State F.Double)
      → load_contract F Y rmw P.contract_path ≡ ok c
      → P.bag_name_style ≡ style_name style
      → H.regex (alternation (default_blacklist ++ non_empty P.exclude_topics)) ≡ some r
      → Included H (alternation (non_empty P.include_topics)) i
      → IsConfigured (open_interfaces F Y rmw H P (reached c style r i st))
  unfolding open_interfaces read_values
  open_interfaces-IsConfigured c style r i st l s x n = record {
    contract = c;
    loaded = l;
    present = refl;
    table = refl;
    indexed = subscribe_all-IsIndexed _ (build_topic_list-IsIndexed rmw _ _);
    subscribed = subscribe_all-IsSubscribed _;
    interfaces = refl;
    base = refl;
    settings = refl;
    embed = refl;
    rate = refl;
    text = refl;
    style = s;
    excluded = x;
    included = n;
  }

  -- Every step before the table succeeded, with these values.
  pub record Prepared (st m : State F.Double) : Type 0 where
    pub contract : Contract F.Double
    pub style : BagNameStyle
    pub excluded : Text → Bool
    pub included : Option (Text → Bool)
    pub loaded : load_contract F Y rmw P.contract_path ≡ ok contract
    pub named : P.bag_name_style ≡ style_name style
    pub excludes :
        H.regex (alternation (default_blacklist ++ non_empty P.exclude_topics)) ≡ some excluded
    pub includes : Included H (alternation (non_empty P.include_topics)) included
    pub is : m ≡ reached contract style excluded included st

  pub prepare-Prepared :
      (st : State F.Double) → Post (Prepared st) (Fails F Y rmw H P st) (prepare F Y rmw H P st)
  unfolding prepare
  prepare-Prepared st = Post-bind (read_contract_file-Post F Y rmw H P st) λ s1 (c, l, e1).
      let at2 = ap (with_base P.bag_base_dir) e1 in
      Post-bind
        (Post-weaken (make_base-Post F Y rmw H P s1) (λ a q. q)
          λ left (e, is). subst (Fails F Y rmw H P st) (sym (is ∙ at2)) (no_base c l e))
        λ s2 e2.
          let at3 = ap (read_values F Y rmw H P) (e2 ∙ at2) in
          Post-bind
            (Post-weaken (read_style-Post F Y rmw H P (read_values F Y rmw H P s2)) (λ a q. q)
              λ left (e, is). subst (Fails F Y rmw H P st) (sym (is ∙ at3)) (bad_style c l e))
            λ s3 (style, s, e3).
              let at4 = e3 ∙ ap (with_style style) at3 in
              Post-bind
                (Post-weaken (compile_excluded-Post F Y rmw H P s3) (λ a q. q)
                  λ left (e, is).
                    subst (Fails F Y rmw H P st) (sym (is ∙ at4)) (bad_exclude c style l s e))
                λ s4 (r, x, e4).
                  let at5 = e4 ∙ ap (with_excluded r) at4 in
                  Post-weaken (compile_included-Post F Y rmw H P s4)
                    (λ a (i, n, e5). record {
                      contract = c;
                      style = style;
                      excluded = r;
                      included = i;
                      loaded = l;
                      named = s;
                      excludes = x;
                      includes = n;
                      is = e5 ∙ ap (with_included i) at5;
                    })
                    λ left (text, e, is).
                      subst (Fails F Y rmw H P st) (sym (is ∙ ap (with_included none) at5))
                        (bad_include c style r l s x text e)

  on_configure-opens :
      (st : State F.Double)
      → Post
          (λ m. (s : State F.Double) × Prepared st s × (m ≡ open_interfaces F Y rmw H P s))
          (Fails F Y rmw H P st)
          (on_configure F Y rmw H P st)
  unfolding on_configure
  on_configure-opens st =
      Post-bind (prepare-Prepared st) λ s prepared. Post-ok _ (s, prepared, refl)

  -- The node after a configuration: only the table, the contract and the interfaces are new.
  abbrev pub Installs : Node F.Double → Node F.Double → Type 0
  Installs n m =
      (c : Contract F.Double) × m ≡ record n {
        pipe = record n.pipe {
          table = subscribe_all (build_topic_list rmw P.use_sim_time c.topics);
        };
        interfaces = all_interfaces;
        contract = some c;
      }

  pub on_configure-Installs :
      (st : State F.Double)
      → Post
          (λ m. Installs st.node m.node)
          (λ left. Keeps st.node left.node)
          (on_configure F Y rmw H P st)
  unfolding open_interfaces read_values
  on_configure-Installs st =
      Post-weaken (on_configure-opens st)
        (λ m (s, r, is). (
          r.contract,
          ap (λ (s : State F.Double). s.node) (is ∙ ap (open_interfaces F Y rmw H P) r.is),
        ))
        (λ left f. Fails-Keeps F Y rmw H P st left f)

  pub Prepared-IsConfigured :
      (st s : State F.Double) → Prepared st s → IsConfigured (open_interfaces F Y rmw H P s)
  Prepared-IsConfigured st s r =
      subst (λ t. IsConfigured (open_interfaces F Y rmw H P t)) (sym r.is)
        (open_interfaces-IsConfigured r.contract r.style r.excluded r.included st r.loaded r.named
          r.excludes r.includes)

  -- Where the middleware throws nothing.
  pub on_configure-Configures :
      (st : State F.Double) → Post IsConfigured (Fails F Y rmw H P st) (on_configure F Y rmw H P st)
  on_configure-Configures st =
      Post-weaken (on_configure-opens st)
        (λ m (s, r, is). subst IsConfigured (sym is) (Prepared-IsConfigured st s r)) (λ left f. f)
