-- ===== src/Hist/Latest.antt =====
-- done_mod/mod_hist/hist_srv/LatestPropertiesStore.go: the latest value of each property and event of
-- the Things, in memory and in a bucket of the store, over done_tool/things/ThingValueMap.go.
pub mod Newest
pub mod Saving
use Prim.Native.String.{◌++◌ as append_text}
use done_rest.Prelude.{
  ℕ, String, Bool, true, false, Option, none, some, ◌≡◌, List, [], ◌∷◌, Dict, lookup, insert, ltb,
  eqb, ◌==◌, if◌then◌else◌,
}
use done_rest.Errors.{Error}
use done_rest.Buckets.Stores.{BucketStore}
use done_rest.Transport.{message_type_event, event_name_props}
use done_rest.Hist.{ThingValue}
use done_rest.Hist.Encoding.{thing_addr}

abbrev pub ThingValueMap : Type 0
ThingValueMap = Dict ThingValue

-- encoding/json on the maps that are stored and on the payload of a properties event, whose values
-- are printed by fmt.Sprint. A map that was written is read back.
pub record Json : Type 0 where
  pub marshal : ThingValueMap → Option String
  pub unmarshal : String → Option ThingValueMap
  pub unmarshal_props : String → Option (Dict String)
  pub unmarshal-marshal :
      (m : ThingValueMap) (text : String) → marshal m ≡ some text → unmarshal text ≡ some m

pub record LatestPropertiesStore (Store : Type 0) : Type 0 where
  pub store : Store
  pub cache : Dict ThingValueMap
  pub changed_things : Dict Bool

unfoldable pub new_properties_store : {Store : Type 0} → Store → LatestPropertiesStore Store
new_properties_store store = record { store = store; cache = []; changed_things = [] }

-- Only a newer value replaces one of the same name.
unfoldable pub set_if_newer : String → ThingValue → ThingValueMap → ThingValueMap
set_if_newer name tv props = elim (lookup name props) [
  | none ↦ insert name tv props
  | some latest ↦ if ltb latest.created_msec tv.created_msec then insert name tv props else props
]

-- The loop over the properties of a properties event.
unfoldable pub set_properties : ThingValue → Dict String → ThingValueMap → ThingValueMap
unfolding set_if_newer
set_properties tv [] props = props
set_properties tv ((name, payload) ∷ rest) props = set_properties tv rest (
    set_if_newer name
      (record tv { name = name; payload = payload; value_type = message_type_event }) props)

-- What is read of the store: a record that cannot be decoded is dropped.
unfoldable pub decode_props : Json → Option String → ThingValueMap
decode_props json none = []
decode_props json (some text) = elim (json.unmarshal text) [ none ↦ [] | some props ↦ props ]

unfoldable pub props_of : {Store : Type 0} → String → LatestPropertiesStore Store → ThingValueMap
props_of addr srv = elim (lookup addr srv.cache) [ none ↦ [] | some props ↦ props ]

-- The value with its time.
unfoldable pub with_time : ℕ → ThingValue → ThingValue
with_time now tv = if eqb tv.created_msec 0 then record tv { created_msec = now } else tv

-- The properties after a value was added; `none` if its payload cannot be decoded.
unfoldable pub updated_props : Json → ThingValue → ThingValueMap → Option ThingValueMap
unfolding set_properties set_if_newer
updated_props json tv props =
    if tv.name == event_name_props
    then elim (json.unmarshal_props tv.payload) [
      | none ↦ none
      | some values ↦ some (set_properties tv values props)
    ]
    else some (set_if_newer tv.name tv props)

-- The values of the names that are there, or all of them without names.
unfoldable pub pick : List String → ThingValueMap → ThingValueMap
pick [] props = []
pick (name ∷ names) props =
    let rest = pick names props in
    elim (lookup name props) [ none ↦ rest | some tv ↦ insert name tv rest ]

unfoldable pub pick_or_all : List String → ThingValueMap → ThingValueMap
unfolding pick
pick_or_all [] props = props
pick_or_all (name ∷ names) props = pick (name ∷ names) props

-- The addresses with a change.
unfoldable pub changed_addresses : Dict Bool → List String
changed_addresses [] = []
changed_addresses ((addr, has_changed) ∷ later) =
    let rest = changed_addresses later in if has_changed then addr ∷ rest else rest

-- The last error is returned.
unfoldable pub last_error : Option Error → Option Error → Option Error
last_error earlier none = earlier
last_error earlier (some e) = some e

-- The store's bucket has the ID `bucket_id`.
module _ (json : Json) (bs : BucketStore) (bucket_id : String) where
  unfoldable pub load_props :
      String → LatestPropertiesStore bs.Store → LatestPropertiesStore bs.Store × Bool
  unfolding decode_props
  load_props addr srv = elim (lookup addr srv.cache) [
    | some props ↦ (srv, true)
    | none ↦
        let (after, val, err) = bs.get bucket_id addr srv.store in
        (record srv { store = after; cache = insert addr (decode_props json val) srv.cache }, false)
  ]

  unfoldable pub get_properties :
      String
      → List String
      → LatestPropertiesStore bs.Store
      → LatestPropertiesStore bs.Store × ThingValueMap
  unfolding load_props props_of pick_or_all
  get_properties addr names srv =
      let loaded = (load_props addr srv).0 in (loaded, pick_or_all names (props_of addr loaded))

  unfoldable pub keep_props :
      String
      → LatestPropertiesStore bs.Store
      → Option ThingValueMap
      → LatestPropertiesStore bs.Store
  keep_props addr srv none = srv
  keep_props addr srv (some props) = record srv {
    cache = insert addr props srv.cache;
    changed_things = insert addr true srv.changed_things;
  }

  unfoldable pub handle_add_value :
      ℕ → ThingValue → LatestPropertiesStore bs.Store → LatestPropertiesStore bs.Store
  unfolding load_props props_of with_time updated_props keep_props
  handle_add_value now tv srv =
      let addr = thing_addr tv in
      let loaded = (load_props addr srv).0 in
      keep_props addr loaded (updated_props json (with_time now tv) (props_of addr loaded))

  -- An error of marshalling leaves nothing to write, without an error.
  unfoldable pub written : String → Option String → bs.Store → bs.Store × Option Error
  written addr none store = (store, none)
  written addr (some text) store = bs.set bucket_id addr text store

  unfoldable pub save_one :
      String → LatestPropertiesStore bs.Store → LatestPropertiesStore bs.Store × Option Error
  unfolding written
  save_one addr srv =
      let unchanged = insert addr false srv.changed_things in
      elim (lookup addr srv.cache) [
        | none ↦ (record srv { changed_things = unchanged }, some Error.no_properties)
        | some props ↦
            let (after, err) = written addr (json.marshal props) srv.store in
            (record srv { store = after; changed_things = unchanged }, err)
      ]

  unfoldable pub save_all :
      List String
      → Option Error
      → LatestPropertiesStore bs.Store
      → LatestPropertiesStore bs.Store × Option Error
  unfolding save_one last_error
  save_all [] err srv = (srv, err)
  save_all (addr ∷ rest) err srv =
      let (after, err2) = save_one addr srv in save_all rest (last_error err err2) after

  unfoldable pub save_changes :
      LatestPropertiesStore bs.Store → LatestPropertiesStore bs.Store × Option Error
  unfolding changed_addresses save_all
  save_changes srv = save_all (changed_addresses srv.changed_things) none srv
