-- ===== src/Events/Lifecycle/Options.antt =====
-- internal/events/eventstream.go: mergeListenerOptions and VerifyListenerOptions. A filter and a set of
-- options are JSON texts; a nil pointer, or a nil slice, is `none`.
use firefly_transaction_mana.Prelude.{
  ℕ, String, Option, none, some, List, [], ◌∷◌, or_else, str_eq, if◌then◌else◌,
}

-- apitypes.Listener, without its time of update.
pub record ListenerSpec : Type 0 where
  pub id : Option String
  pub created : Option ℕ
  pub type : Option String
  pub name : Option String
  pub stream_id : Option String
  pub eth_compat_address : Option String
  pub eth_compat_event : Option String
  pub filters : Option (List String)
  pub options : Option String
  pub signature : Option String
  pub from_block : Option String

-- What is asked of others: the text of the filter that stands for an event and an address, and what
-- the connector resolves the options of a listener to, a signature and options, or an error.
pub record OptionsToolkit : Type 0 where
  pub now : ℕ
  pub stream_id : Option String
  pub migration_filter : String → Option String → String
  pub verify_options :
      Option String → Option (List String) → Option String → Option (String × String)

unfoldable pub base_listener : OptionsToolkit → String → Option ListenerSpec → ListenerSpec
base_listener tk id (some spec) = spec
base_listener tk id none = record {
  id = some id;
  created = some tk.now;
  type = none;
  name = none;
  stream_id = tk.stream_id;
  eth_compat_address = none;
  eth_compat_event = none;
  filters = none;
  options = none;
  signature = none;
  from_block = some "latest";
}

-- An event of the older form becomes a filter, where no filters are given.
abbrev pub migrated :
    OptionsToolkit → Option String → Option String → Option (List String) → Option (List String)
migrated tk none address old = old
migrated tk (some event) address old = some (tk.migration_filter event address ∷ [])

abbrev pub merged_filters :
    OptionsToolkit
    → ListenerSpec
    → Option (List String)
    → Option (List String)
    → Option (List String)
merged_filters tk updates (some fs) old = some fs
merged_filters tk updates none old =
    migrated tk updates.eth_compat_event updates.eth_compat_address old

-- The type can be set once only.
unfoldable pub merge_listener_options :
    OptionsToolkit → String → Option ListenerSpec → ListenerSpec → ListenerSpec
unfolding base_listener
merge_listener_options tk id existing updates =
    let base = base_listener tk id existing in
    record base {
      type = or_else base.type updates.type;
      name = or_else updates.name base.name;
      from_block = or_else updates.from_block base.from_block;
      options = or_else updates.options base.options;
      filters = merged_filters tk updates updates.filters base.filters;
    }

pub data Verified : Type 0 where
  verified : ListenerSpec → Verified
  missing_listener_id bad_listener_options : Verified
  bad_listener_type : String → Verified

abbrev pub name_or_signature : Option String → String → String
name_or_signature none signature = signature
name_or_signature (some name) signature = if str_eq name "" then signature else name

abbrev pub with_resolved : ListenerSpec → Option (String × String) → Verified
with_resolved spec none = bad_listener_options
with_resolved spec (some (signature, options)) = verified (record spec {
  signature = some signature;
  options = some options;
  name = some (name_or_signature spec.name signature);
})

unfoldable pub block_listener_spec : ListenerSpec → ListenerSpec
block_listener_spec spec = record spec {
  signature = some "";
  filters = some [];
  options = some "{}";
}

unfoldable pub verify_type : OptionsToolkit → ListenerSpec → String → Verified
unfolding block_listener_spec
verify_type tk spec type =
    if str_eq type "events"
    then with_resolved spec (tk.verify_options spec.from_block spec.filters spec.options)
    else if str_eq type "blocks"
    then verified (block_listener_spec spec)
    else bad_listener_type type

-- A listener without a type is one for events.
abbrev pub verify_spec : OptionsToolkit → ListenerSpec → Option String → Verified
verify_spec tk spec none = verify_type tk (record spec { type = some "events" }) "events"
verify_spec tk spec (some type) = verify_type tk spec type

unfoldable pub verify_listener_options :
    OptionsToolkit → Option String → Option ListenerSpec → ListenerSpec → Verified
unfolding merge_listener_options verify_type
verify_listener_options tk none existing updates = missing_listener_id
verify_listener_options tk (some id) existing updates =
    let spec = merge_listener_options tk id existing updates in verify_spec tk spec spec.type
