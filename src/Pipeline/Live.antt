-- ===== src/Pipeline/Live.antt =====
-- One live document for each stored object, also when two deliveries of the same bytes race.
use wordsworth.Prelude.{
  suc, String, ◌≡◌, true, Option, none, some, List, [], ◌∷◌, ◌++◌, nat_eq, string_eq, option_eq,
  arith, ok, err, Option-cases, inl, inr, eq_refl,
}
use wordsworth.States.{is_allowed}
use wordsworth.World.{World, integrity_error, Document}
use wordsworth.Audit.{Host, append, current_state}
use wordsworth.Pipeline.{
  Arrival, is_live, live_in, live_document_for, insert_document, register, register_live,
  winner_or_raise, transition,
}

live_in-is_live :
    (key : String) (ds : List Document) (d : Document)
    → live_in key ds ≡ some d
    → is_live key d ≡ true
unfolding live_in
live_in-is_live key [] d e = cc
live_in-is_live key (x ∷ ds) d e = ground (arith, live_in-is_live key ds d)

live_in-append :
    (key : String) (ds : List Document) (d : Document)
    → live_in key ds ≡ none
    → is_live key d ≡ true
    → live_in key (ds ++ d ∷ []) ≡ some d
unfolding live_in
live_in-append key [] d e l = ground arith
live_in-append key (x ∷ ds) d e l = ground (arith, live_in-append key ds d)

module _ (h : Host) (key : String) (a : Arrival) (sha : Option String) where
  -- The document that `register` makes in a world.
  abbrev newcomer : World → Document
  newcomer w = record {
    id = w.next_id;
    object_key = key;
    filename = a.filename;
    superseded_by = none;
    source_url = a.source_url;
    fetched_at = a.fetched_at;
    source_sha256 = sha;
  }

  register_new :
      (w : World)
      → live_document_for key w ≡ none
      → current_state w.next_id w ≡ none
      → ((register h key a sha w).0 ≡ ok (newcomer w))
        × ((register h key a sha w).1.documents ≡ w.documents ++ newcomer w ∷ [])
  unfolding register insert_document transition append live_document_for current_state is_allowed
  register_new w free fresh = (ground arith, ground arith)

  register_taken :
      (w : World) (d : Document)
      → live_document_for key w ≡ some d
      → register h key a sha w ≡ (err integrity_error, record w { next_id = suc w.next_id })
  unfolding register insert_document
  register_taken w d taken = ground arith

  -- `register_live` returns a document that is live for the object, and afterwards it is the one
  -- that a look-up finds, whatever other sessions commit between its look-up and its insert, if in
  -- what they leave the next id has no record yet.
  pub register_live_lem :
      (meanwhile : World → World) (w : World)
      → current_state (meanwhile w).next_id (meanwhile w) ≡ none
      → (d : Document) × ((register_live h meanwhile key a sha w).0 ≡ ok d)
        × (live_document_for key (register_live h meanwhile key a sha w).1 ≡ some d)
        × (is_live key d ≡ true)
  unfolding register_live live_document_for winner_or_raise
  register_live_lem meanwhile w fresh = elim (Option-cases (live_in key w.documents)) [
    | inr (d, there) ↦ (d, rw there, rw there there, live_in-is_live key w.documents d there)
    | inl none_yet ↦ elim (Option-cases (live_in key (meanwhile w).documents)) [
      | inr (d, won) ↦ (
        d,
        rw (none_yet, register_taken (meanwhile w) d won) (rw won),
        rw (none_yet, register_taken (meanwhile w) d won) (rw won won),
        live_in-is_live key (meanwhile w).documents d won,
      )
      | inl free ↦
          let made = register_new (meanwhile w) free fresh in
          let live : is_live key (newcomer (meanwhile w)) ≡ true = rw (eq_refl key) in
          (
            newcomer (meanwhile w),
            rw (none_yet, made.0),
            rw (none_yet, made.0, made.1)
                (live_in-append key (meanwhile w).documents (newcomer (meanwhile w)) free live),
            live,
          )
    ]
  ]
