-- ===== src/Operations/Paging.antt =====
-- Following the cursors from page to page.
use decentralized_claims_reg.Prelude.{
  ℕ, zero, suc, String, Bool, false, Option, none, some, List, [], ◌∷◌, ◌++◌, ◌≡◌, ◌≢◌, refl, sym,
  subst, inl, inr, arith, ◌+◌, ◌-◌, ◌%◌, ◌≤◌, Bool-cases,
}
use decentralized_claims_reg.Prelude.Lists.{take, length, get_elem?, All, AllPairs, length-take-le}
use decentralized_claims_reg.Prelude.Text.{str_eq, append, text_length, repeated}
use decentralized_claims_reg.Postgres.{ok}
use decentralized_claims_reg.Postgres.Rules.{Result-cases}
use decentralized_claims_reg.Index.Tables.{EventRow, Index}
use decentralized_claims_reg.Index.Search.{
  Position, EventPage, position, position_lt, listing, in_order, search_events,
}
use decentralized_claims_reg.Index.Newest.{IsCollation, keep-All_same, newest_first-All}
use decentralized_claims_reg.Index.Pages.{
  Continues, complete, partial, search_events-Continues, get_elem?-All,
}
use decentralized_claims_reg.Operations.Search.{
  Tools, Deployment, Filters, PageResponse, event_responses, last_event, cursor_fields,
  encode_event_cursor, decode_event_cursor, query, statuses, page_response, cursor_after, search,
}

-- The last of at most `n` events.
last_of :
    (n : ℕ) (events : List EventRow) (e : EventRow)
    → length events ≤ suc n
    → get_elem? events n ≡ some e
    → last_event events ≡ some e
unfolding last_event get_elem?
last_of n [] e h k = absurd (cc)
last_of zero (x ∷ []) e h k = k
last_of zero (x ∷ y ∷ events) e h k = absurd (omega (arith, h))
last_of (suc n) (x ∷ []) e h k = absurd (cc)
last_of (suc n) (x ∷ y ∷ events) e h k = last_of n (y ∷ events) e (omega (arith, h)) k

All-first : (P : EventRow → Type 0) (xs ys : List EventRow) → All P (xs ++ ys) → All P xs
All-first P [] ys h = tt
All-first P (x ∷ xs) ys h = (h.0, All-first P xs ys h.1)

module _ (tools : Tools) where
  -- An event that has an identifier, and whose cursor base64 and JSON give back.
  pub record IsReadable (e : EventRow) : Type 0 where
    pub named : str_eq e.event_id "" ≡ false
    pub decoded :
        tools.b64decode (
          append
            (encode_event_cursor tools e)
            (repeated ((4 - text_length (encode_event_cursor tools e) % 4) % 4) "="))
        ≡ some (tools.dumps (cursor_fields e))
    pub loaded : tools.loads (tools.dumps (cursor_fields e)) ≡ some (cursor_fields e)

  decode-encode :
      (e : EventRow)
      → IsReadable e
      → decode_event_cursor tools (some (encode_event_cursor tools e)) ≡ ok (some (position e))
  unfolding decode_event_cursor
  decode-encode e h = simp (h.decoded, h.loaded, h.named) refl

  no_cursor :
      (page : EventPage) (cursor : String) (e : Option EventRow)
      → page.has_more ≡ false
      → cursor_after tools page e ≡ some cursor
      → ⊥
  no_cursor page cursor none done h = cc
  no_cursor page cursor (some e) done h = ground (arith, done, h)

  module _ (text_lt : String → String → Bool) (o : IsCollation text_lt) (d : Deployment)
      (f : Filters) (s : Index) where
    -- What a page that has a next cursor says, where the search began at `before` with the status of
    -- number `status`: the cursor is the position of its last event, and the events that the search
    -- lists are those of the page and those that it lists from there on, also where events that are
    -- not older came in.
    pub record Follows (response : PageResponse) (cursor : String) : Type 0 where
      pub status : Option ℕ
      pub before : Option Position
      pub page : List EventRow
      pub last : EventRow
      pub known_status : statuses f.status ≡ ok status
      pub begins : decode_event_cursor tools f.cursor ≡ ok before
      pub shows : response.items ≡ event_responses page
      pub ends : last_event page ≡ some last
      pub resumes : decode_event_cursor tools (some cursor) ≡ ok (some (position last))
      pub continues :
          (later : List EventRow)
          → All (λ r. position_lt text_lt (position r) (position last) ≡ false) later
          → listing text_lt (query d f status before) before s.events
            ≡ page
              ++ listing text_lt
                  (query d f status before)
                  (some (position last))
                  (s.events ++ later)

    listed-IsReadable :
        (status : Option ℕ) (before : Option Position)
        → All IsReadable s.events
        → All IsReadable (listing text_lt (query d f status before) before s.events)
    unfolding listing
    listed-IsReadable status before h =
        newest_first-All text_lt o IsReadable _ (keep-All_same _ IsReadable s.events h)

    -- The last event of a page that is not complete can be read back from its cursor.
    page-Follows :
        (status : Option ℕ) (before : Option Position) (page : EventPage) (cursor : String)
        → statuses f.status ≡ ok status
        → decode_event_cursor tools f.cursor ≡ ok before
        → length page.events ≤ f.limit
        → 1 ≤ f.limit
        → All IsReadable (listing text_lt (query d f status before) before s.events)
        → (page_response tools f.limit page).next_cursor ≡ some cursor
        → Continues text_lt o (query d f status before) s page
        → Follows (page_response tools f.limit page) cursor
    unfolding page_response
    page-Follows status before page cursor known begins short some_ readable e
          (complete done all_) =
        absurd (no_cursor page cursor (last_event page.events) done e)
    page-Follows status before page cursor known begins short some_ readable e
          (partial last more at rest) =
        let final : last_event page.events ≡ some last =
          last_of (f.limit - 1) page.events last (omega (arith, short, some_)) at in
        let written : encode_event_cursor tools last ≡ cursor =
          let same : cursor_after tools page (some last) ≡ some cursor =
            subst (λ x. cursor_after tools page x ≡ some cursor) final e in
          ground (arith, more, same) in
        let able : IsReadable last =
          get_elem?-All IsReadable page.events (f.limit - 1) last
            (All-first IsReadable page.events
              (listing text_lt (query d f status before) (some (position last)) (s.events ++ []))
              (subst (All IsReadable) (rest [] tt) readable))
            at in
        record {
          status = status;
          before = before;
          page = page.events;
          last = last;
          known_status = known;
          begins = begins;
          shows = refl;
          ends = final;
          resumes =
              subst (λ c. decode_event_cursor tools (some c) ≡ ok (some (position last))) written
                (decode-encode last able);
          continues = rest;
        }

    page_short :
        (status : Option ℕ) (before : Option Position) (page : EventPage)
        → search_events text_lt (query d f status before) s ≡ ok page
        → (length page.events ≤ f.limit) × (1 ≤ f.limit)
    unfolding search_events
    page_short status before page h = (
      let same : take f.limit
                (take (f.limit + 1) (listing text_lt (query d f status before) before s.events))
              ≡ page.events =
            ground (arith, h) in
          subst (λ x. length x ≤ f.limit) same
            (length-take-le f.limit
              (take (f.limit + 1) (listing text_lt (query d f status before) before s.events))),
      ground (arith, h),
    )

    -- Where event identifiers are unique, each event can be read back from its cursor, and texts are
    -- compared in a strict order: a search that returns a next cursor shows a page of what it lists, and
    -- a search with that cursor goes on right behind the page's last event, in the same listing, also
    -- where events that are not older came in.
    pub search-Follows :
        (response : PageResponse) (cursor : String)
        → AllPairs (λ r t. r.event_id ≢ t.event_id) s.events
        → All IsReadable s.events
        → search tools text_lt d f s ≡ ok response
        → response.next_cursor ≡ some cursor
        → Follows response cursor
    unfolding search
    search-Follows response cursor unique readable h e =
        elim (Bool-cases (in_order text_lt f.from_block f.to_block)) [
          | inr reversed ↦ absurd (ground (arith, reversed, h))
          | inl forward ↦ elim (Result-cases (statuses f.status)) [
            | inr (x, unknown) ↦ absurd (ground (arith, forward, unknown, h))
            | inl (status, known) ↦ elim (Result-cases (decode_event_cursor tools f.cursor)) [
              | inr (x, invalid) ↦ absurd (ground (arith, forward, known, invalid, h))
              | inl (before, begins) ↦
                  elim (Result-cases (search_events text_lt (query d f status before) s)) [
                    | inr (x, refused_) ↦
                        absurd (ground (arith, forward, known, begins, refused_, h))
                    | inl (page, found) ↦
                        let same : page_response tools f.limit page ≡ response =
                          ground (arith, forward, known, begins, found, h) in
                        let (short, some_) = page_short status before page found in
                        subst (λ r. Follows r cursor) same
                          (page-Follows status before page cursor known begins short some_
                            (listed-IsReadable status before readable)
                            (subst (λ r. r.next_cursor ≡ some cursor) (sym same) e)
                            (search_events-Continues text_lt o (query d f status before) s unique
                              page found))
                  ]
            ]
          ]
        ]
