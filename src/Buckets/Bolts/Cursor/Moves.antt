-- ===== src/Buckets/Bolts/Cursor/Moves.antt =====
-- The moves of BBoltCursor in done_tool/buckets/bolts/BBoltCursor.go.
use done_rest.Prelude.{
  ℕ, zero, suc, String, ◌≡◌, refl, Option, none, some, List, [], ◌∷◌, Dict, insert, arith, leb,
  leb-suc, leb-zero, take, length,
}
use done_rest.Buckets.Api.{Entry, Place}
use done_rest.Buckets.Bolts.Cursor.{
  BoltCursors, BBoltCursor, moved_by, first, next, prev, collect, collected, next_n, place_of,
  entries_of,
}

-- The map of the entries.
unfoldable pub insert_all : List Entry → Dict String → Dict String
insert_all [] docs = docs
insert_all (e ∷ es) docs = insert_all es (insert e.0 e.1 docs)

module _ (bolt : BoltCursors) where
  abbrev made : Option bolt.RawCursor → String → String → BBoltCursor bolt.RawCursor
  made o i n = record { cursor = o; bucket_id = i; context = n }

  moved-none :
      (move : bolt.RawCursor → bolt.RawCursor × Option Entry) (p : Place)
      (o : Option bolt.RawCursor) (i n : String)
      → ((raw : bolt.RawCursor) → bolt.raw_place raw ≡ some p → (move raw).1 ≡ none)
      → place_of bolt (made o i n) ≡ some p
      → (moved_by bolt move (made o i n)).1 ≡ none
  unfolding place_of moved_by
  moved-none move p none i n law h = refl
  moved-none move p (some raw) i n law h = law raw h

  moved-some :
      (move : bolt.RawCursor → bolt.RawCursor × Option Entry) (p q : Place) (e : Entry)
      (o : Option bolt.RawCursor) (i n : String)
      → ((raw : bolt.RawCursor)
          → bolt.raw_place raw ≡ some p
          → ((move raw).1 ≡ some e) × (bolt.raw_place (move raw).0 ≡ some q))
      → place_of bolt (made o i n) ≡ some p
      → ((moved_by bolt move (made o i n)).1 ≡ some e)
        × (place_of bolt (moved_by bolt move (made o i n)).0 ≡ some q)
  unfolding place_of moved_by
  moved-some move p q e none i n law h = cc h
  moved-some move p q e (some raw) i n law h = law raw h

  moved-context :
      (move : bolt.RawCursor → bolt.RawCursor × Option Entry) (o : Option bolt.RawCursor)
      (i n : String)
      → ((moved_by bolt move (made o i n)).0.bucket_id ≡ i)
        × ((moved_by bolt move (made o i n)).0.context ≡ n)
  unfolding moved_by
  moved-context move none i n = (refl, refl)
  moved-context move (some raw) i n = (refl, refl)

  pub first-none :
      (o : Option bolt.RawCursor) (i n : String)
      → entries_of bolt (made o i n) ≡ []
      → (first bolt (made o i n)).1 ≡ none
  unfolding entries_of first moved_by
  first-none none i n h = refl
  first-none (some raw) i n h = bolt.raw_first-none raw h

  pub first-some :
      (o : Option bolt.RawCursor) (i n : String) (e : Entry) (es : List Entry)
      → entries_of bolt (made o i n) ≡ e ∷ es
      → ((first bolt (made o i n)).1 ≡ some e)
        × (place_of bolt (first bolt (made o i n)).0
            ≡ some (record { behind = []; here = e; ahead = es }))
  unfolding entries_of first moved_by place_of
  first-some none i n e es h = cc h
  first-some (some raw) i n e es h = bolt.raw_first-some raw e es h

  pub next-none :
      (c : BBoltCursor bolt.RawCursor) (x : Entry) (b : List Entry)
      → place_of bolt c ≡ some (record { behind = b; here = x; ahead = [] })
      → (next bolt c).1 ≡ none
  unfolding next
  next-none c x b h =
      moved-none bolt.raw_next _ c.cursor c.bucket_id c.context (λ raw. bolt.raw_next-none raw x b)
        h

  pub next-some :
      (c : BBoltCursor bolt.RawCursor) (x e : Entry) (b a : List Entry)
      → place_of bolt c ≡ some (record { behind = b; here = x; ahead = e ∷ a })
      → ((next bolt c).1 ≡ some e)
        × (place_of bolt (next bolt c).0 ≡ some (record { behind = x ∷ b; here = e; ahead = a }))
  unfolding next
  next-some c x e b a h =
      moved-some bolt.raw_next _ _ e c.cursor c.bucket_id c.context
        (λ raw. bolt.raw_next-some raw x e b a) h

  pub prev-none :
      (c : BBoltCursor bolt.RawCursor) (x : Entry) (a : List Entry)
      → place_of bolt c ≡ some (record { behind = []; here = x; ahead = a })
      → (prev bolt c).1 ≡ none
  unfolding prev
  prev-none c x a h =
      moved-none bolt.raw_prev _ c.cursor c.bucket_id c.context (λ raw. bolt.raw_prev-none raw x a)
        h

  pub prev-some :
      (c : BBoltCursor bolt.RawCursor) (x e : Entry) (b a : List Entry)
      → place_of bolt c ≡ some (record { behind = e ∷ b; here = x; ahead = a })
      → ((prev bolt c).1 ≡ some e)
        × (place_of bolt (prev bolt c).0 ≡ some (record { behind = b; here = e; ahead = x ∷ a }))
  unfolding prev
  prev-some c x e b a h =
      moved-some bolt.raw_prev _ _ e c.cursor c.bucket_id c.context
        (λ raw. bolt.raw_prev-some raw x e b a) h

  pub first-context :
      (c : BBoltCursor bolt.RawCursor)
      → ((first bolt c).0.bucket_id ≡ c.bucket_id) × ((first bolt c).0.context ≡ c.context)
  unfolding first
  first-context c = moved-context bolt.raw_first c.cursor c.bucket_id c.context

  pub next-context :
      (c : BBoltCursor bolt.RawCursor)
      → ((next bolt c).0.bucket_id ≡ c.bucket_id) × ((next bolt c).0.context ≡ c.context)
  unfolding next
  next-context c = moved-context bolt.raw_next c.cursor c.bucket_id c.context

  pub prev-context :
      (c : BBoltCursor bolt.RawCursor)
      → ((prev bolt c).0.bucket_id ≡ c.bucket_id) × ((prev bolt c).0.context ≡ c.context)
  unfolding prev
  prev-context c = moved-context bolt.raw_prev c.cursor c.bucket_id c.context

  -- A walk over the entries ahead.
  abbrev IsStep :
      (bolt.RawCursor → bolt.RawCursor × Option Entry) → (bolt.RawCursor → Option Place) → Type 0
  IsStep move view =
      ((c : bolt.RawCursor) (x : Entry) (b : List Entry)
        → view c ≡ some (record { behind = b; here = x; ahead = [] })
        → (move c).1 ≡ none)
      × ((c : bolt.RawCursor) (x e : Entry) (b a : List Entry)
          → view c ≡ some (record { behind = b; here = x; ahead = e ∷ a })
          → ((move c).1 ≡ some e)
            × (view (move c).0 ≡ some (record { behind = x ∷ b; here = e; ahead = a })))

  collect-ahead :
      (move : bolt.RawCursor → bolt.RawCursor × Option Entry) (view : bolt.RawCursor → Option Place)
      → IsStep move view
      → (steps : ℕ) (c : bolt.RawCursor) (docs : Dict String) (x : Entry) (b a : List Entry)
      → view c ≡ some (record { behind = b; here = x; ahead = a })
      → (collect bolt move steps c docs).1 ≡ insert_all (take steps a) docs
        × ((collect bolt move steps c docs).2 ≡ leb steps (length a))
  unfolding collect insert_all
  collect-ahead move view law zero c docs x b a h = (refl, ground arith)
  collect-ahead move view law (suc steps) c docs x b [] h =
      (rw (law.0 c x b h, collect) refl, rw (law.0 c x b h, collect, leb-zero steps) refl)
  collect-ahead move view law (suc steps) c docs x b (e ∷ a) h =
      let (moved, there) = law.1 c x e b a h in
      let rest =
        collect-ahead move view law steps (move c).0 (insert e.0 e.1 docs) e (x ∷ b) a there in
      (rw (moved, collect) rest.0, rw (moved, collect, leb-suc steps (length a)) rest.1)

  next_n-made :
      (steps : ℕ) (o : Option bolt.RawCursor) (i n : String) (x : Entry) (b a : List Entry)
      → place_of bolt (made o i n) ≡ some (record { behind = b; here = x; ahead = a })
      → ((next_n bolt steps (made o i n)).1 ≡ insert_all (take steps a) [])
        × ((next_n bolt steps (made o i n)).2 ≡ leb steps (length a))
  unfolding next_n collected place_of
  next_n-made steps none i n x b a h = cc h
  next_n-made steps (some raw) i n x b a h =
      collect-ahead bolt.raw_next bolt.raw_place (bolt.raw_next-none, bolt.raw_next-some) steps raw
        [] x b a h

  -- A cursor that is not released and stands on an entry: NextN returns the entries ahead of it, at
  -- most as many as the steps, and that items remain exactly if there are as many, so also where
  -- none is left after them.
  pub next_n-ahead :
      (steps : ℕ) (c : BBoltCursor bolt.RawCursor) (x : Entry) (b a : List Entry)
      → place_of bolt c ≡ some (record { behind = b; here = x; ahead = a })
      → ((next_n bolt steps c).1 ≡ insert_all (take steps a) [])
        × ((next_n bolt steps c).2 ≡ leb steps (length a))
  next_n-ahead steps c x b a h = next_n-made steps c.cursor c.bucket_id c.context x b a h
