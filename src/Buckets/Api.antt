-- ===== src/Buckets/Api.antt =====
-- done_tool/buckets/IBucketStore.go: the interface IBucketCursor to the cursors of a store.
use done_rest.Prelude.{ℕ, Bool, Dict, String, ◌≡◌, refl, ap, Option, none, some, List, [], ◌∷◌}

abbrev pub Entry : Type 0
Entry = String × String

-- Where a cursor stands in its bucket: the entries behind it and ahead of it, the nearest first.
pub record Place : Type 0 where
  pub behind : List Entry
  pub here : Entry
  pub ahead : List Entry

-- `none` for an entry is Go's `valid == false`. The context is the name that the history service
-- keeps in it. The laws say what the interface documents of a cursor that stands on an entry; where
-- one stands that ran out of entries is left open.
pub record BucketCursors : Type 1 where
  pub Cursor : Type 0
  pub bucket_id : Cursor → String
  pub context : Cursor → String
  pub first : Cursor → Cursor × Option Entry
  pub last : Cursor → Cursor × Option Entry
  pub next : Cursor → Cursor × Option Entry
  pub prev : Cursor → Cursor × Option Entry
  pub seek : String → Cursor → Cursor × Option Entry
  pub next_n : ℕ → Cursor → Cursor × Dict String × Bool
  pub place : Cursor → Option Place
  pub entries : Cursor → List Entry
  pub first-none : (c : Cursor) → entries c ≡ [] → (first c).1 ≡ none
  pub first-some :
      (c : Cursor) (e : Entry) (es : List Entry)
      → entries c ≡ e ∷ es
      → ((first c).1 ≡ some e)
        × (place (first c).0 ≡ some (record { behind = []; here = e; ahead = es }))
  pub next-none :
      (c : Cursor) (x : Entry) (b : List Entry)
      → place c ≡ some (record { behind = b; here = x; ahead = [] })
      → (next c).1 ≡ none
  pub next-some :
      (c : Cursor) (x e : Entry) (b a : List Entry)
      → place c ≡ some (record { behind = b; here = x; ahead = e ∷ a })
      → ((next c).1 ≡ some e)
        × (place (next c).0 ≡ some (record { behind = x ∷ b; here = e; ahead = a }))
  pub prev-none :
      (c : Cursor) (x : Entry) (a : List Entry)
      → place c ≡ some (record { behind = []; here = x; ahead = a })
      → (prev c).1 ≡ none
  pub prev-some :
      (c : Cursor) (x e : Entry) (b a : List Entry)
      → place c ≡ some (record { behind = e ∷ b; here = x; ahead = a })
      → ((prev c).1 ≡ some e)
        × (place (prev c).0 ≡ some (record { behind = b; here = e; ahead = x ∷ a }))
  pub bucket_id-first : (c : Cursor) → bucket_id (first c).0 ≡ bucket_id c
  pub bucket_id-next : (c : Cursor) → bucket_id (next c).0 ≡ bucket_id c
  pub bucket_id-prev : (c : Cursor) → bucket_id (prev c).0 ≡ bucket_id c
  pub context-next : (c : Cursor) → context (next c).0 ≡ context c
  pub context-prev : (c : Cursor) → context (prev c).0 ≡ context c

-- One of the two ways to walk: a step, the step that undoes it, and the place seen that way.
pub record Walk (cs : BucketCursors) : Type 0 where
  pub step : cs.Cursor → cs.Cursor × Option Entry
  pub undo : cs.Cursor → cs.Cursor × Option Entry
  pub view : cs.Cursor → Option Place
  pub step-none :
      (c : cs.Cursor) (x : Entry) (b : List Entry)
      → view c ≡ some (record { behind = b; here = x; ahead = [] })
      → (step c).1 ≡ none
  pub step-some :
      (c : cs.Cursor) (x e : Entry) (b a : List Entry)
      → view c ≡ some (record { behind = b; here = x; ahead = e ∷ a })
      → ((step c).1 ≡ some e)
        × (view (step c).0 ≡ some (record { behind = x ∷ b; here = e; ahead = a }))
  pub view-undo :
      (c : cs.Cursor) (x e : Entry) (b a : List Entry)
      → view c ≡ some (record { behind = e ∷ b; here = x; ahead = a })
      → view (undo c).0 ≡ some (record { behind = b; here = e; ahead = x ∷ a })
  pub bucket_id-step : (c : cs.Cursor) → cs.bucket_id (step c).0 ≡ cs.bucket_id c
  pub bucket_id-undo : (c : cs.Cursor) → cs.bucket_id (undo c).0 ≡ cs.bucket_id c
  pub context-step : (c : cs.Cursor) → cs.context (step c).0 ≡ cs.context c
  pub context-undo : (c : cs.Cursor) → cs.context (undo c).0 ≡ cs.context c

-- The place of a cursor that walks back.
unfoldable pub turned : Option Place → Option Place
turned none = none
turned (some p) = some (record { behind = p.ahead; here = p.here; ahead = p.behind })

pub turned-turned : (p q : Option Place) → turned p ≡ q → p ≡ turned q
unfolding turned
turned-turned none q h = rw (← h) refl
turned-turned (some p) q h = rw (← h) refl

module _ (cs : BucketCursors) where
  abbrev pub forward : Walk cs
  forward = record {
    step = cs.next;
    undo = cs.prev;
    view = cs.place;
    step-none = cs.next-none;
    step-some = cs.next-some;
    view-undo = λ c x e b a h. (cs.prev-some c x e b a h).1;
    bucket_id-step = cs.bucket_id-next;
    bucket_id-undo = cs.bucket_id-prev;
    context-step = cs.context-next;
    context-undo = cs.context-prev;
  }

  unfoldable pub backward : Walk cs
  unfolding turned
  backward = record {
    step = cs.prev;
    undo = cs.next;
    view = λ c. turned (cs.place c);
    step-none = λ c x b h. cs.prev-none c x b (turned-turned (cs.place c) _ h);
    step-some = λ c x e b a h.
        let moved = cs.prev-some c x e a b (turned-turned (cs.place c) _ h) in
        (moved.0, ap turned moved.1);
    view-undo =
        λ c x e b a h. ap turned (cs.next-some c x e a b (turned-turned (cs.place c) _ h)).1;
    bucket_id-step = cs.bucket_id-prev;
    bucket_id-undo = cs.bucket_id-next;
    context-step = cs.context-prev;
    context-undo = cs.context-next;
  }
