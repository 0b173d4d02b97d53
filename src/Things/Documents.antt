-- ===== src/Things/Documents.antt =====
-- done_tool/things/TD.go: the documents that describe Things, by their maps of affordances. Of an
-- affordance the fields are modelled that the code here sets; a caller that changes the returned
-- affordance afterwards is left out, as are forms, the context, security and the JSON of a document.
pub mod Building
use done_rest.Prelude.{
  String, Bool, true, false, Option, none, some, List, [], ◌∷◌, Dict, lookup, insert, ◌==◌,
  if◌then◌else◌,
}

abbrev pub action_dimmer : String
action_dimmer = "ht:action:dimmer"

abbrev pub action_switch_on_off : String
action_switch_on_off = "ht:action:switch:onoff"

abbrev pub prop_env : String
prop_env = "ht:prop:env"

abbrev pub prop_switch_dimmer : String
prop_switch_dimmer = "ht:prop:switch:dimmer"

abbrev pub prop_switch_on_off : String
prop_switch_on_off = "ht:prop:switch:onoff"

abbrev pub wot_data_type_bool : String
wot_data_type_bool = "boolean"

abbrev pub wot_data_type_integer : String
wot_data_type_integer = "integer"

abbrev pub wot_data_type_number : String
wot_data_type_number = "number"

abbrev pub wot_data_type_string : String
wot_data_type_string = "string"

pub record DataSchema : Type 0 where
  pub at_type : String
  pub title : String
  pub type_name : String
  pub enum : List String
  pub read_only : Bool

-- The schema of a value of a type.
abbrev pub schema_of : String → String → List String → DataSchema
schema_of at_type type_name enum = record {
  at_type = at_type;
  title = "";
  type_name = type_name;
  enum = enum;
  read_only = false;
}

pub record ActionAffordance : Type 0 where
  pub action_type : String
  pub title : String
  pub description : String
  pub input : Option DataSchema

pub record EventAffordance : Type 0 where
  pub event_type : String
  pub title : String
  pub description : String
  pub schema : Option DataSchema

-- A property affordance is its schema.
pub record Td : Type 0 where
  pub id : String
  pub at_type : String
  pub title : String
  pub description : String
  pub created : String
  pub modified : String
  pub properties : Dict DataSchema
  pub actions : Dict ActionAffordance
  pub events : Dict EventAffordance

-- The two times are those of the two calls of the clock.
unfoldable pub new_td : String → String → String → String → String → Td
new_td created modified thing_id title device_type = record {
  id = thing_id;
  at_type = device_type;
  title = title;
  description = "";
  created = created;
  modified = modified;
  properties = [];
  actions = [];
  events = [];
}

unfoldable pub update_action : String → ActionAffordance → Td → Td
unfolding insert
update_action name affordance td = record td { actions = insert name affordance td.actions }

unfoldable pub update_event : String → EventAffordance → Td → Td
unfolding insert
update_event name affordance td = record td { events = insert name affordance td.events }

unfoldable pub update_property : String → DataSchema → Td → Td
unfolding insert
update_property name affordance td = record td { properties = insert name affordance td.properties }

unfoldable pub update_title_description : String → String → Td → Td
update_title_description title description td = record td {
  title = title;
  description = description;
}

unfoldable pub get_action : String → Td → Option ActionAffordance
unfolding lookup
get_action name td = lookup name td.actions

unfoldable pub get_event : String → Td → Option EventAffordance
unfolding lookup
get_event name td = lookup name td.events

unfoldable pub get_property : String → Td → Option DataSchema
unfolding lookup
get_property key td = lookup key td.properties

-- The loop over the properties, which Go visits in any order and which stand here in one of them.
unfoldable pub find_of_type : String → Dict DataSchema → String × Option DataSchema
find_of_type at_type [] = ("", none)
find_of_type at_type ((prop_id, prop) ∷ later) =
    let rest = find_of_type at_type later in
    if prop.at_type == at_type then (prop_id, some prop) else rest

unfoldable pub get_property_of_type : String → Td → String × Option DataSchema
unfolding find_of_type
get_property_of_type at_type td = find_of_type at_type td.properties

-- The name of an action has no default.
unfoldable pub add_action :
    String → String → String → String → Option DataSchema → Td → Td × ActionAffordance
unfolding update_action
add_action name action_type title description input td =
    let affordance : ActionAffordance = record {
      action_type = action_type;
      title = title;
      description = description;
      input = input;
    } in
    (update_action name affordance td, affordance)

-- The ID, or the type without one.
unfoldable pub id_or_type : String → String → String
id_or_type id type_name = if id == "" then type_name else id

unfoldable pub add_event :
    String → String → String → String → Option DataSchema → Td → Td × EventAffordance
unfolding update_event id_or_type
add_event event_id event_type title description schema td =
    let affordance : EventAffordance = record {
      event_type = event_type;
      title = title;
      description = description;
      schema = schema;
    } in
    (update_event (id_or_type event_id event_type) affordance td, affordance)

-- A property is read-only.
abbrev pub read_only_property : String → String → String → DataSchema
read_only_property prop_type title data_type = record {
  at_type = prop_type;
  title = title;
  type_name = data_type;
  enum = [];
  read_only = true;
}

unfoldable pub add_property : String → String → String → String → Td → Td × DataSchema
unfolding update_property id_or_type
add_property prop_id prop_type title data_type td =
    let prop = read_only_property prop_type title data_type in
    (update_property (id_or_type prop_id prop_type) prop td, prop)

unfoldable pub add_dimmer_action : String → Td → Td × ActionAffordance
unfolding add_action
add_dimmer_action action_id =
    add_action action_id action_dimmer "" ""
      (some (schema_of action_dimmer wot_data_type_integer []))

unfoldable pub add_dimmer_event : String → Td → Td × EventAffordance
unfolding add_event
add_dimmer_event event_id =
    add_event event_id prop_switch_dimmer "" ""
      (some (schema_of prop_switch_dimmer wot_data_type_integer []))

unfoldable pub add_switch_action : String → String → Td → Td × ActionAffordance
unfolding add_action
add_switch_action action_id title =
    add_action action_id action_switch_on_off title ""
      (some (schema_of action_switch_on_off wot_data_type_bool ("on" ∷ "off" ∷ [])))

unfoldable pub add_switch_event : String → String → Td → Td × EventAffordance
unfolding add_event
add_switch_event event_id title =
    add_event event_id prop_switch_on_off title ""
      (some (schema_of prop_switch_on_off wot_data_type_bool ("on" ∷ "off" ∷ [])))

unfoldable pub add_sensor_event : String → String → Td → Td × EventAffordance
unfolding add_event
add_sensor_event event_id title =
    add_event event_id prop_env title "" (some (schema_of prop_env wot_data_type_number []))

unfoldable pub add_property_as_string : String → String → String → Td → Td × DataSchema
unfolding add_property
add_property_as_string name prop_type title = add_property name prop_type title wot_data_type_string

unfoldable pub add_property_as_bool : String → String → String → Td → Td × DataSchema
unfolding add_property
add_property_as_bool name prop_type title = add_property name prop_type title wot_data_type_bool

unfoldable pub add_property_as_int : String → String → String → Td → Td × DataSchema
unfolding add_property
add_property_as_int name prop_type title = add_property name prop_type title wot_data_type_integer
