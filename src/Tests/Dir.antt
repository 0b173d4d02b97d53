-- ===== src/Tests/Dir.antt =====
-- A directory on a bbolt database in memory, whose values are the documents of one Thing.
use done_rest.Prelude.{
  String, true, false, ◌≡◌, ◌≢◌, refl, ap, none, some, List, [], ◌∷◌, ◌==◌, lookup, insert, remove,
}
use done_rest.Buckets.Bolts.Bucket.{set as bucket_set, get as bucket_get, delete as bucket_delete}
use done_rest.Buckets.Bolts.Store.{BoltStore}
use done_rest.Buckets.Bolts.Store.Interface.{bolt_store}
use done_rest.Dir.{ValueJson, td_addr, td_value, get_td, update_td}
use done_rest.Dir.Documents.{Change, removes, updates, change_all, changed_addr, get_td-update_td}
use done_rest.Dir.Cursors.{release_td_cursor, get-release_td_cursor}
use done_rest.Buckets.CursorCache.{get, release}
use done_rest.Buckets.Bolts.Cursor.Interface.{bolt_cursors}
use done_rest.Tests.Bolts.{listed}
use done_rest.Tests.HistCursors.{iterating, held, by_alice}
use done_rest.Tests.Databases.{Buckets, in_memory}

abbrev documents : ValueJson
unfolding td_value
documents = record {
  marshal_value = λ tv. tv.payload;
  unmarshal_value = λ text. (td_value 3 "agent" "agent" "thing" text, none);
}

abbrev empty_directory : BoltStore Buckets
empty_directory = record { bolt_db = []; store_path = "directory"; bucket_ref_count = 1 }

abbrev other_changes : List Change
other_changes = updates 4 "agent" "agent" "lamp" "{}" ∷ removes "agent" "lamp" ∷ []

lamp_apart : td_addr "agent" "lamp" ≢ td_addr "agent" "thing"
unfolding td_addr
lamp_apart h = let differ : false ≡ true = ap (λ (s : String). s == "agent/thing") h in cc differ

get_td-update_td_example :
    let (after, value, err) = get_td documents (bolt_store in_memory) "things" "agent" "thing" (
      change_all documents
        (bolt_store in_memory)
        "things"
        other_changes
        (update_td documents
          (bolt_store in_memory)
          "things"
          3
          "agent"
          "agent"
          "thing"
          "doc"
          empty_directory).0) in
    (value ≡ td_value 3 "agent" "agent" "thing" "doc") × (err ≡ none)
unfolding documents update_td bucket_set changed_addr bucket_get lookup change_all bucket_delete
    insert remove
get_td-update_td_example =
    get_td-update_td documents (bolt_store in_memory) "things" 3 "agent" "agent" "thing" "doc"
      other_changes empty_directory refl refl (lamp_apart, (lamp_apart, tt)) refl

get-release_td_cursor_example :
    let try = get 100 "key" "alice" true in
    ((release_td_cursor (bolt_cursors listed) by_alice held).1 ≡ none)
    × ((try (release_td_cursor (bolt_cursors listed) by_alice held).0).1 ≡ some iterating)
    × ((try (release "alice" "key" held).0).1 ≡ none)
unfolding lookup
get-release_td_cursor_example =
    get-release_td_cursor (bolt_cursors listed) by_alice held iterating (_, refl, refl, refl) refl
