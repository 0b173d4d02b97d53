-- ===== src/Tests/Bolts.antt =====
-- Cursors over a list of entries.
use done_rest.Prelude.{◌≡◌, refl, Option, none, some, List, [], ◌∷◌, false}
use done_rest.Buckets.Api.{Entry, Place}
use done_rest.Buckets.Bolts.Cursor.{BoltCursors, BBoltCursor, next_n, place_of}
use done_rest.Buckets.Bolts.Cursor.Moves.{insert_all, next_n-ahead}

abbrev pub ListCursor : Type 0
ListCursor = List Entry × Option Place

abbrev pub to_first : ListCursor → ListCursor × Option Entry
to_first ([], p) = (([], none), none)
to_first (e ∷ es, p) = ((e ∷ es, some (record { behind = []; here = e; ahead = es })), some e)

abbrev pub step_to : List Entry → List Entry → Entry → List Entry → ListCursor × Option Entry
step_to es b x [] = ((es, some (record { behind = b; here = x; ahead = [] })), none)
step_to es b x (e ∷ a) = ((es, some (record { behind = x ∷ b; here = e; ahead = a })), some e)

abbrev pub step_back : List Entry → List Entry → Entry → List Entry → ListCursor × Option Entry
step_back es [] x a = ((es, some (record { behind = []; here = x; ahead = a })), none)
step_back es (e ∷ b) x a = ((es, some (record { behind = b; here = e; ahead = x ∷ a })), some e)

abbrev pub to_next : ListCursor → ListCursor × Option Entry
to_next (es, none) = ((es, none), none)
to_next (es, some p) = step_to es p.behind p.here p.ahead

abbrev pub to_prev : ListCursor → ListCursor × Option Entry
to_prev (es, none) = ((es, none), none)
to_prev (es, some p) = step_back es p.behind p.here p.ahead

abbrev pub end_of : List Entry → List Entry → Entry → List Entry → ListCursor × Option Entry
end_of es b x [] = ((es, some (record { behind = b; here = x; ahead = [] })), some x)
end_of es b x (e ∷ a) = end_of es (x ∷ b) e a

abbrev pub to_last : ListCursor → ListCursor × Option Entry
to_last ([], p) = (([], none), none)
to_last (e ∷ es, p) = end_of (e ∷ es) [] e es

pub next-none :
    (c : ListCursor) (x : Entry) (b : List Entry)
    → c.1 ≡ some (record { behind = b; here = x; ahead = [] })
    → (to_next c).1 ≡ none
next-none c x b h = rw (h, to_next) refl

pub next-some :
    (c : ListCursor) (x e : Entry) (b a : List Entry)
    → c.1 ≡ some (record { behind = b; here = x; ahead = e ∷ a })
    → ((to_next c).1 ≡ some e)
      × ((to_next c).0.1 ≡ some (record { behind = x ∷ b; here = e; ahead = a }))
next-some c x e b a h = rw (h, to_next) (refl, refl)

pub prev-none :
    (c : ListCursor) (x : Entry) (a : List Entry)
    → c.1 ≡ some (record { behind = []; here = x; ahead = a })
    → (to_prev c).1 ≡ none
prev-none c x a h = rw (h, to_prev) refl

pub prev-some :
    (c : ListCursor) (x e : Entry) (b a : List Entry)
    → c.1 ≡ some (record { behind = e ∷ b; here = x; ahead = a })
    → ((to_prev c).1 ≡ some e)
      × ((to_prev c).0.1 ≡ some (record { behind = b; here = e; ahead = x ∷ a }))
prev-some c x e b a h = rw (h, to_prev) (refl, refl)

pub first-none : (c : ListCursor) → c.0 ≡ [] → (to_first c).1 ≡ none
first-none c h = rw (h, to_first) refl

pub first-some :
    (c : ListCursor) (e : Entry) (es : List Entry)
    → c.0 ≡ e ∷ es
    → ((to_first c).1 ≡ some e)
      × ((to_first c).0.1 ≡ some (record { behind = []; here = e; ahead = es }))
first-some c e es h = rw (h, to_first) (refl, refl)

-- A seek finds the first entry, whatever the key.
abbrev pub listed : BoltCursors
listed = record {
  RawCursor = ListCursor;
  raw_first = to_first;
  raw_last = to_last;
  raw_next = to_next;
  raw_prev = to_prev;
  raw_seek = λ key c. to_first c;
  raw_place = λ c. c.1;
  raw_entries = λ c. c.0;
  raw_first-none = first-none;
  raw_first-some = first-some;
  raw_next-none = next-none;
  raw_next-some = next-some;
  raw_prev-none = prev-none;
  raw_prev-some = prev-some;
}

abbrev two_ahead : BBoltCursor ListCursor
two_ahead = record {
  cursor =
      some (
        [],
        some (record { behind = []; here = ("a", "1"); ahead = ("b", "2") ∷ ("c", "3") ∷ [] }),
      );
  bucket_id = "agent/thing";
  context = "";
}

next_n-ahead_example :
    ((next_n listed 5 two_ahead).1 ≡ insert_all (("b", "2") ∷ ("c", "3") ∷ []) [])
    × ((next_n listed 5 two_ahead).2 ≡ false)
unfolding place_of
next_n-ahead_example =
    next_n-ahead listed 5 two_ahead ("a", "1") [] (("b", "2") ∷ ("c", "3") ∷ []) refl
