-- ===== src/Tests/HistCursors.antt =====
-- Cursors of the history with keys whose times are marks.
use done_rest.Prelude.{
  String, ◌≡◌, inr, refl, none, some, List, [], ◌∷◌, map, true, ltb, arith, lookup,
}
use done_rest.Buckets.Api.{Place, forward}
use done_rest.Buckets.CursorCache.{CursorCache}
use done_rest.Buckets.Bolts.Cursor.{BBoltCursor, place_of}
use done_rest.Buckets.Bolts.Cursor.Interface.{bolt_cursors}
use done_rest.Hist.{ThingValue}
use done_rest.Hist.Encoding.{IsEncodable, encode_value, thing_addr}
use done_rest.Hist.Cursors.{find_next_name}
use done_rest.Hist.Cursors.Search.{search, Finds, find_next_name-search}
use done_rest.Hist.Cursors.Service.{CursorCall, replied, next_n}
use done_rest.Hist.Cursors.Batches.{matching, next_n-matching}
use done_rest.Tests.Hist.{unary, reading}
use done_rest.Tests.Bolts.{ListCursor, listed}

abbrev pub humid : ThingValue
humid = record reading { name = "humidity"; payload = "40"; created_msec = 4 }

abbrev pub later : ThingValue
later = record reading { payload = "22"; created_msec = 5 }

humid-IsEncodable : IsEncodable humid
humid-IsEncodable = record {
  agent_free = omega arith;
  thing_free = omega arith;
  name_free = omega arith;
  sender_free = omega arith;
  timed = omega arith;
  typed = inr (inr refl);
}

later-IsEncodable : IsEncodable later
later-IsEncodable = record {
  agent_free = omega arith;
  thing_free = omega arith;
  name_free = omega arith;
  sender_free = omega arith;
  timed = omega arith;
  typed = inr (inr refl);
}

abbrev pub around : List ThingValue
around = humid ∷ later ∷ []

abbrev pub placed : Place
placed = record {
  behind = map (encode_value unary 9) around;
  here = ("k", "v");
  ahead = map (encode_value unary 9) around;
}

-- A cursor between the values, which is on the values both ways.
abbrev pub iterating : BBoltCursor ListCursor
iterating = record {
  cursor = some ([], some placed);
  bucket_id = thing_addr reading;
  context = "temperature";
}

find_next_name-search_example :
    Finds unary 9
      (bolt_cursors listed)
      (forward (bolt_cursors listed))
      iterating
      (search (λ t. ltb 9 t) "temperature" around)
      (find_next_name unary (bolt_cursors listed) 3 iterating "temperature" 9)
unfolding place_of thing_addr
find_next_name-search_example =
    find_next_name-search unary 9 (bolt_cursors listed) 3 9 "temperature" iterating around
      (omega arith) ((humid-IsEncodable, refl), ((later-IsEncodable, refl), tt))
      (map (encode_value unary 9) around, ("k", "v"), refl)

abbrev pub held : CursorCache (BBoltCursor ListCursor) String
held = record {
  cursors_by_key =
      (
        "key",
        record {
          key = "key";
          bucket = some "agent/thing";
          cursor = iterating;
          owner_id = "alice";
          last_used = 0;
          lifespan = 60;
        },
      )
      ∷ [];
  cursor_counter = 2;
  freed = [];
}

abbrev pub by_alice : CursorCall
by_alice = record { sender_id = "alice"; cursor_key = "key"; used_at = 100; now = 9 }

next_n-matching_example :
    (after : CursorCache (BBoltCursor ListCursor) String) × (next_n unary
        (bolt_cursors listed)
        3
        1
        by_alice
        held
      ≡ replied after (some (record { values = some later ∷ []; items_remaining = true })) none)
unfolding place_of lookup matching thing_addr
next_n-matching_example =
    next_n-matching unary 9 (bolt_cursors listed) 3 1 by_alice held iterating around (omega arith)
      (_, refl, refl, refl)
      (((humid-IsEncodable, refl), refl), (((later-IsEncodable, refl), refl), tt))
      (map (encode_value unary 9) around, ("k", "v"), refl)
