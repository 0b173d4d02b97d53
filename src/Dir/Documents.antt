-- ===== src/Dir/Documents.antt =====
-- What the directory of done_mod/mod_dir/dir_srv answers after its documents were changed.
use done_rest.Prelude.{
  ℕ, String, ◌≡◌, ◌≢◌, refl, ap, ◌∙◌, Option, none, some, List, [], ◌∷◌, All, eq_refl, ne→false,
}
use done_rest.Errors.{Error}
use done_rest.Buckets.Stores.{BucketStore, Holdings, placed, outcome}
use done_rest.Dir.{ValueJson, td_addr, td_value, remove_td, update_td, read_td, get_td}

placed_same :
    (id key : String) (val : Option String) (held : Holdings) → placed id key val held id key ≡ val
unfolding placed
placed_same id key val held = rw (eq_refl id, eq_refl key) refl

placed_apart :
    (id key other : String) (val : Option String) (held : Holdings)
    → key ≢ other
    → placed id key val held id other ≡ held id other
unfolding placed
placed_apart id key other val held apart = rw (eq_refl id, ne→false key other apart) refl

outcome_apart :
    (err : Option Error) (changed before : Holdings) (id other : String)
    → changed id other ≡ before id other
    → outcome err changed before id other ≡ before id other
outcome_apart none changed before id other h = h
outcome_apart (some e) changed before id other h = refl

-- A change of the directory by a client.
pub data Change : Type 0 where
  removes : String → String → Change
  updates : ℕ → String → String → String → String → Change

unfoldable pub changed_addr : Change → String
changed_addr (removes agent_id thing_id) = td_addr agent_id thing_id
changed_addr (updates now sender_id agent_id thing_id td_doc) = td_addr agent_id thing_id

module _ (json : ValueJson) (bs : BucketStore) (bucket_id : String) where
  unfoldable pub change : Change → bs.Store → bs.Store
  unfolding remove_td update_td
  change (removes agent_id thing_id) store = (remove_td json bs bucket_id agent_id thing_id store).0
  change (updates now sender_id agent_id thing_id td_doc) store =
      (update_td json bs bucket_id now sender_id agent_id thing_id td_doc store).0

  unfoldable pub change_all : List Change → bs.Store → bs.Store
  unfolding change
  change_all [] store = store
  change_all (c ∷ later) store = change_all later (change c store)

  abbrev raw_at : String → bs.Store → Option String
  raw_at addr store = bs.stored store bucket_id addr

  raw_at-change :
      (c : Change) (addr : String) (store : bs.Store)
      → changed_addr c ≢ addr
      → raw_at addr (change c store) ≡ raw_at addr store
  unfolding change remove_td update_td changed_addr
  raw_at-change (removes agent_id thing_id) addr store apart =
      let key = td_addr agent_id thing_id in
      ap (λ (h : Holdings). h bucket_id addr) (bs.stored-delete bucket_id key store)
      ∙ outcome_apart (bs.delete bucket_id key store).1
          (placed bucket_id key none (bs.stored store)) (bs.stored store) bucket_id addr
          (placed_apart bucket_id key addr none (bs.stored store) apart)
  raw_at-change (updates now sender_id agent_id thing_id td_doc) addr store apart =
      let key = td_addr agent_id thing_id in
      let text = json.marshal_value (td_value now sender_id agent_id thing_id td_doc) in
      ap (λ (h : Holdings). h bucket_id addr) (bs.stored-set bucket_id key text store)
      ∙ outcome_apart (bs.set bucket_id key text store).1
          (placed bucket_id key (some text) (bs.stored store)) (bs.stored store) bucket_id addr
          (placed_apart bucket_id key addr (some text) (bs.stored store) apart)

  raw_at-change_all :
      (changes : List Change) (addr : String) (store : bs.Store)
      → All (λ (c : Change). changed_addr c ≢ addr) changes
      → raw_at addr (change_all changes store) ≡ raw_at addr store
  unfolding change_all
  raw_at-change_all [] addr store apart = refl
  raw_at-change_all (c ∷ later) addr store apart =
      raw_at-change_all later addr (change c store) apart.1 ∙ raw_at-change c addr store apart.0

  -- A document whose value JSON reads back as it was written, and that was updated without an
  -- error, after any changes of documents at other addresses: if it is read without an error of the
  -- bucket, the value is as it was written, with its agent, Thing, sender and time, and there is no
  -- error.
  pub get_td-update_td :
      (now : ℕ) (sender_id agent_id thing_id td_doc : String) (changes : List Change)
      (store : bs.Store)
      → let tv = td_value now sender_id agent_id thing_id td_doc in
        json.unmarshal_value (json.marshal_value tv) ≡ (tv, none)
        → (update_td json bs bucket_id now sender_id agent_id thing_id td_doc store).1 ≡ none
        → All (λ (c : Change). changed_addr c ≢ td_addr agent_id thing_id) changes
        → (bs.get bucket_id (td_addr agent_id thing_id) (
            change_all changes
              (update_td json bs bucket_id now sender_id agent_id thing_id td_doc store).0)).2
          ≡ none
        → let (after, value, err) = get_td json bs bucket_id agent_id thing_id (
            change_all changes
              (update_td json bs bucket_id now sender_id agent_id thing_id td_doc store).0) in
          (value ≡ td_value now sender_id agent_id thing_id td_doc) × (err ≡ none)
  unfolding update_td get_td read_td
  get_td-update_td now sender_id agent_id thing_id td_doc changes store same fine apart readable =
      let addr = td_addr agent_id thing_id in
      let tv = td_value now sender_id agent_id thing_id td_doc in
      let text = json.marshal_value tv in
      let updated = (bs.set bucket_id addr text store).0 in
      let found : (bs.get bucket_id addr (change_all changes updated)).1 ≡ some text =
        bs.get-stored bucket_id addr (change_all changes updated) readable
        ∙ raw_at-change_all changes addr updated apart
        ∙ ap (λ (h : Holdings). h bucket_id addr) (bs.stored-set bucket_id addr text store)
        ∙ ap
            (λ e.
              outcome e (placed bucket_id addr (some text) (bs.stored store)) (bs.stored store)
                bucket_id addr)
            fine
        ∙ placed_same bucket_id addr (some text) (bs.stored store) in
      rw (found, same) (refl, refl)
