-- ===== src/State/Isolation.antt =====
-- The clients of StateService.go do not see each other's values.
use done_rest.Prelude.{
  String, true, ◌≡◌, ◌≢◌, refl, ap, ◌∙◌, Option, none, some, List, [], ◌∷◌, Dict, eq_refl, All,
  ne→false,
}
use done_rest.Errors.{Error}
use done_rest.Buckets.Stores.{BucketStore, Holdings, placed, all_placed, outcome}
use done_rest.State.{
  Request, deletes, gets, gets_multiple, sets, sets_multiple, delete, get, get_multiple, set,
  set_multiple, handle, run, text_of, found_of, first_error,
}

placed-other :
    (id other key k : String) (val : Option String) (held : Holdings)
    → id ≢ other
    → placed id key val held other k ≡ held other k
unfolding placed
placed-other id other key k val held apart = rw (ne→false id other apart) refl

placed_self :
    (id key : String) (val : Option String) (held : Holdings) → placed id key val held id key ≡ val
unfolding placed
placed_self id key val held = rw (eq_refl id, eq_refl key) refl

first_error-none : (e f : Option Error) → first_error e f ≡ none → e ≡ none
unfolding first_error
first_error-none none f h = refl
first_error-none (some e) f h = h

all_placed-other :
    (id other k : String) (docs : Dict String) (held : Holdings)
    → id ≢ other
    → all_placed id docs held other k ≡ held other k
unfolding all_placed
all_placed-other id other k [] held apart = refl
all_placed-other id other k ((j, v) ∷ docs) held apart =
    all_placed-other id other k docs (placed id j (some v) held) apart
    ∙ placed-other id other j k (some v) held apart

outcome-other :
    (err : Option Error) (changed before : Holdings) (other k : String)
    → changed other k ≡ before other k
    → outcome err changed before other k ≡ before other k
outcome-other none changed before other k h = h
outcome-other (some e) changed before other k h = refl

module _ (bs : BucketStore) where
  -- What is held under the key of another client.
  abbrev at : String → String → bs.Store → Option String
  at other k store = bs.stored store other k

  closed_after :
      (id other k : String) (s : bs.Store) → at other k (bs.close_bucket id s).0 ≡ at other k s
  closed_after id other k s = ap (λ (h : Holdings). h other k) (bs.stored-close_bucket id s)

  opened_before :
      (id other k : String) (s : bs.Store) → at other k (bs.get_bucket id s) ≡ at other k s
  opened_before id other k s = ap (λ (h : Holdings). h other k) (bs.stored-get_bucket id s)

  handle-other :
      (id other k : String) (request : Request) (s : bs.Store)
      → id ≢ other
      → at other k (handle bs id request s) ≡ at other k s
  unfolding handle delete get get_multiple set set_multiple
  handle-other id other k (deletes key) s apart =
      closed_after id other k _
      ∙ ap (λ (h : Holdings). h other k) (bs.stored-delete id key (bs.get_bucket id s))
      ∙ outcome-other (bs.delete id key (bs.get_bucket id s)).1
          (placed id key none (bs.stored (bs.get_bucket id s))) (bs.stored (bs.get_bucket id s))
          other k (placed-other id other key k none (bs.stored (bs.get_bucket id s)) apart)
      ∙ opened_before id other k s
  handle-other id other k (gets key) s apart =
      closed_after id other k _
      ∙ ap (λ (h : Holdings). h other k) (bs.stored-get id key (bs.get_bucket id s))
      ∙ opened_before id other k s
  handle-other id other k (gets_multiple keys) s apart =
      closed_after id other k _
      ∙ ap (λ (h : Holdings). h other k) (bs.stored-get_multiple id keys (bs.get_bucket id s))
      ∙ opened_before id other k s
  handle-other id other k (sets key val) s apart =
      closed_after id other k _
      ∙ ap (λ (h : Holdings). h other k) (bs.stored-set id key val (bs.get_bucket id s))
      ∙ outcome-other (bs.set id key val (bs.get_bucket id s)).1
          (placed id key (some val) (bs.stored (bs.get_bucket id s)))
          (bs.stored (bs.get_bucket id s)) other k
          (placed-other id other key k (some val) (bs.stored (bs.get_bucket id s)) apart)
      ∙ opened_before id other k s
  handle-other id other k (sets_multiple kv) s apart =
      closed_after id other k _
      ∙ ap (λ (h : Holdings). h other k) (bs.stored-set_multiple id kv (bs.get_bucket id s))
      ∙ outcome-other (bs.set_multiple id kv (bs.get_bucket id s)).1
          (all_placed id kv (bs.stored (bs.get_bucket id s))) (bs.stored (bs.get_bucket id s)) other
          k (all_placed-other id other k kv (bs.stored (bs.get_bucket id s)) apart)
      ∙ opened_before id other k s

  handle-open_buckets :
      (id : String) (request : Request) (s : bs.Store)
      → bs.open_buckets (handle bs id request s) ≡ bs.open_buckets s
  unfolding handle delete get get_multiple set set_multiple
  handle-open_buckets id (deletes key) s =
      bs.open_buckets-close_bucket id s _ (bs.open_buckets-delete id key _)
  handle-open_buckets id (gets key) s =
      bs.open_buckets-close_bucket id s _ (bs.open_buckets-get id key _)
  handle-open_buckets id (gets_multiple keys) s =
      bs.open_buckets-close_bucket id s _ (bs.open_buckets-get_multiple id keys _)
  handle-open_buckets id (sets key val) s =
      bs.open_buckets-close_bucket id s _ (bs.open_buckets-set id key val _)
  handle-open_buckets id (sets_multiple kv) s =
      bs.open_buckets-close_bucket id s _ (bs.open_buckets-set_multiple id kv _)

  run-other :
      (other k : String) (calls : List (String × Request)) (s : bs.Store)
      → All (λ (call : String × Request). call.0 ≢ other) calls
      → at other k (run bs calls s) ≡ at other k s
  unfolding run
  run-other other k [] s apart = refl
  run-other other k ((id, request) ∷ calls) s apart =
      run-other other k calls (handle bs id request s) apart.1
      ∙ handle-other id other k request s apart.0

  -- Any sequence of requests leaves as many buckets open as before: each closes the bucket it opens.
  run-open_buckets :
      (calls : List (String × Request)) (s : bs.Store)
      → bs.open_buckets (run bs calls s) ≡ bs.open_buckets s
  unfolding run
  run-open_buckets [] s = refl
  run-open_buckets ((id, request) ∷ calls) s =
      run-open_buckets calls (handle bs id request s) ∙ handle-open_buckets id request s

  stored-set :
      (id key val : String) (s : bs.Store)
      → (set bs id key val s).1 ≡ none
      → at id key (set bs id key val s).0 ≡ some val
  unfolding set
  stored-set id key val s fine =
      closed_after id id key _
      ∙ ap (λ (h : Holdings). h id key) (bs.stored-set id key val (bs.get_bucket id s))
      ∙ rw (fine, placed_self id key (some val) (bs.stored (bs.get_bucket id s))) refl

  -- A value that a client set without an error, after any requests of other clients: if the client
  -- reads it without an error, it is found and is the value that was set.
  pub get-run-set :
      (id key val : String) (calls : List (String × Request)) (s : bs.Store)
      → (set bs id key val s).1 ≡ none
      → All (λ (call : String × Request). call.0 ≢ id) calls
      → (get bs id key (run bs calls (set bs id key val s).0)).2 ≡ none
      → (get bs id key (run bs calls (set bs id key val s).0)).1
        ≡ record { key = key; found = true; value = val }
  unfolding get found_of text_of
  get-run-set id key val calls s fine apart read =
      let after = run bs calls (set bs id key val s).0 in
      let opened = bs.get_bucket id after in
      let unfailing = first_error-none (bs.get id key opened).2 _ read in
      let found =
        bs.get-stored id key opened unfailing
        ∙ opened_before id id key after
        ∙ run-other id key calls (set bs id key val s).0 apart
        ∙ stored-set id key val s fine in
      rw (unfailing, found) refl
