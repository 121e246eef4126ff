-- ===== src/Index/Pages.antt =====
-- Reading the events page by page.
use decentralized_claims_reg.Prelude.{
  ℕ, zero, suc, String, Bool, true, false, Option, none, some, List, [], ◌∷◌, ◌++◌, ◌≡◌, ◌≢◌, refl,
  sym, ap, ◌∙◌, subst, ◌⊎◌, inl, inr, arith, ltb, leb, ◌&&◌, ◌+◌, ◌-◌, Bool-cases,
}
use decentralized_claims_reg.Prelude.Lists.{
  keep, take, length, get_elem?, All, All-imp, AllPairs, keep-append, keep-keep, keep-same,
  keep_none, keep_every, keep-All, append-nil,
}
use decentralized_claims_reg.Postgres.{ok}
use decentralized_claims_reg.Index.Tables.{EventRow, Index}
use decentralized_claims_reg.Index.Search.{
  Position, Query, EventPage, position, position_lt, selects, older, newest_first, listing, page_of,
  search_events,
}
use decentralized_claims_reg.Index.Newest.{
  IsCollation, lt, lt_irreflexive, lt_transitive, lt_asymmetric, Newer, Sorted, newest_first-Sorted,
  keep-newest_first, keep-All_same, newest_first-All,
}

pub get_elem?-All :
    (P : EventRow → Type 0) (rows : List EventRow) (n : ℕ) (c : EventRow)
    → All P rows
    → get_elem? rows n ≡ some c
    → P c
unfolding get_elem?
get_elem?-All P [] n c h e = cc
get_elem?-All P (r ∷ rest) zero c h e = let same : r ≡ c = ground arith in subst P same h.0
get_elem?-All P (r ∷ rest) (suc n) c h e = get_elem?-All P rest n c h.1 e

module _ (text_lt : String → String → Bool) (o : IsCollation text_lt) where
  -- In listed events, those older than one are those after it.
  after_element :
      (rows : List EventRow) (n : ℕ) (c : EventRow)
      → Sorted text_lt o rows
      → get_elem? rows n ≡ some c
      → rows ≡ take (suc n) rows ++ keep (older text_lt (some (position c))) rows
  unfolding take get_elem? keep
  after_element [] n c h e = cc
  after_element (r ∷ rest) zero c h e =
      let same : r ≡ c = ground arith in
      subst (λ x. r ∷ rest ≡ r ∷ [] ++ keep (older text_lt (some (position x))) (r ∷ rest)) same
        (rw (lt_irreflexive text_lt o (position r))
          (ap (◌∷◌ r) (sym (keep_every (older text_lt (some (position r))) rest h.0))))
  after_element (r ∷ rest) (suc n) c h e =
      let below : Newer text_lt o r c = get_elem?-All (Newer text_lt o r) rest n c h.0 e in
      rw (lt_asymmetric text_lt o (position c) (position r) below)
        (ap (◌∷◌ r) (after_element rest n c h.1 e))

AllPairs-keep :
    (R : EventRow → EventRow → Type 0) (p : EventRow → Bool) (rows : List EventRow)
    → AllPairs R rows
    → AllPairs R (keep p rows)
unfolding keep
AllPairs-keep R p [] u = tt
AllPairs-keep R p (r ∷ rest) u = elim (Bool-cases (p r)) [
  | inl e ↦ rw e (keep-All_same p (R r) rest u.0, AllPairs-keep R p rest u.1)
  | inr e ↦ rw e (AllPairs-keep R p rest u.1)
]

-- The last event of a page of `suc n` events where there are more.
PageOf : ℕ → List EventRow → List EventRow → Bool → Type 0
PageOf n rows page more =
    ((more ≡ false) × (page ≡ rows))
    ⊎ ((more ≡ true)
        × (page ≡ take (suc n) rows)
        × (c : EventRow) × (get_elem? rows n ≡ some c)
        × (get_elem? page n ≡ some c))

page_split :
    (n : ℕ) (rows : List EventRow)
    → PageOf n rows
        (take (suc n) (take (suc (suc n)) rows))
        (ltb (suc n) (length (take (suc (suc n)) rows)))
unfolding PageOf take get_elem?
page_split n [] = inl (ground arith, refl)
page_split zero (r ∷ []) = inl (refl, refl)
page_split zero (r ∷ s ∷ rest) = inr (ground arith, refl, r, refl, refl)
page_split (suc n) (r ∷ rest) = elim (page_split n rest) [
  | inl (all_, same) ↦ inl (ground (arith, all_), ap (◌∷◌ r) same)
  | inr (more, same, c, here_, there) ↦ inr (ground (arith, more), ap (◌∷◌ r) same, c, here_, there)
]

module _ (text_lt : String → String → Bool) (o : IsCollation text_lt) (q : Query) where
  abbrev listed : Option Position → EventRow → Bool
  listed before r = selects text_lt q r && older text_lt before r

  -- Being older than a listed event implies being older than where the listing starts.
  older_again :
      (before : Option Position) (c r : EventRow)
      → older text_lt before c ≡ true
      → (listed before r && older text_lt (some (position c)) r) ≡ listed (some (position c)) r
  older_again none c r h = ground arith
  older_again (some p) c r h = elim (Bool-cases (lt text_lt o (position r) (position c))) [
    | inr f ↦ ground (arith, f)
    | inl t ↦ ground (arith, t, lt_transitive text_lt o (position r) (position c) p t h)
  ]

  -- The listing from an event on, also after newer events came in.
  listing_from :
      (before : Option Position) (c : EventRow) (rows later : List EventRow)
      → AllPairs (λ r s. r.event_id ≢ s.event_id) rows
      → older text_lt before c ≡ true
      → All (λ r. lt text_lt o (position r) (position c) ≡ false) later
      → keep (older text_lt (some (position c))) (listing text_lt q before rows)
        ≡ listing text_lt q (some (position c)) (rows ++ later)
  unfolding listing
  listing_from before c rows later u h new =
      let from : EventRow → Bool = listed (some (position c)) in
      let none_new : keep from later ≡ [] = keep_none from later (
        All-imp (λ r. lt text_lt o (position r) (position c) ≡ false) (λ r. from r ≡ false) later
          (λ r f. ground (arith, f)) new) in
      keep-newest_first text_lt o (older text_lt (some (position c))) (keep (listed before) rows)
        (AllPairs-keep (λ r s. r.event_id ≢ s.event_id) (listed before) rows u)
      ∙ ap (newest_first text_lt) (
          keep-keep (older text_lt (some (position c))) (listed before) rows
          ∙ keep-same (λ r. listed before r && older text_lt (some (position c)) r) from rows
              (λ r. older_again before c r h)
          ∙ sym (append-nil (keep from rows))
          ∙ ap (λ x. keep from rows ++ x) (sym none_new)
          ∙ sym (keep-append from rows later))

  -- A page is all of the listing; or its last event is where the rest of the listing starts.
  pub data Continues (s : Index) (page : EventPage) : Type 0 where
    complete :
        page.has_more ≡ false → page.events ≡ listing text_lt q q.before s.events → Continues s page
    partial :
        (last : EventRow)
        → page.has_more ≡ true
        → get_elem? page.events (q.limit - 1) ≡ some last
        → ((later : List EventRow)
            → All (λ r. position_lt text_lt (position r) (position last) ≡ false) later
            → listing text_lt q q.before s.events
              ≡ page.events ++ listing text_lt q (some (position last)) (s.events ++ later))
        → Continues s page

  module _ (s : Index) (u : AllPairs (λ r t. r.event_id ≢ t.event_id) s.events) where
    rows : List EventRow
    rows = listing text_lt q q.before s.events

    rows-older : All (λ r. older text_lt q.before r ≡ true) rows
    unfolding rows listing
    rows-older =
        newest_first-All text_lt o (λ r. older text_lt q.before r ≡ true)
          (keep (listed q.before) s.events)
          (keep-All (λ r. older text_lt q.before r ≡ true) (listed q.before) s.events
            (λ r h. ground arith))

    rows-Sorted : Sorted text_lt o rows
    unfolding rows listing
    rows-Sorted =
        newest_first-Sorted text_lt o (keep (listed q.before) s.events)
          (AllPairs-keep (λ r t. r.event_id ≢ t.event_id) (listed q.before) s.events u)

    -- The page that is read, and the rest of the listing behind it.
    split_continues :
        (n : ℕ)
        → q.limit ≡ suc n
        → PageOf n rows
            (take (suc n) (take (suc (suc n)) rows))
            (ltb (suc n) (length (take (suc (suc n)) rows)))
        → Continues s (page_of (suc n) (take (suc (suc n)) rows))
    unfolding rows PageOf
    split_continues n e (inl (all_, same)) = complete all_ same
    split_continues n e (inr (more, same, c, here_, there)) =
        let last_index : n ≡ q.limit - 1 = omega arith in
        partial c more
          (subst (λ k. get_elem? (take (suc n) (take (suc (suc n)) rows)) k ≡ some c) last_index
            there)
          λ later new.
            after_element text_lt o rows n c rows-Sorted here_
            ∙ ap (λ page. page ++ keep (older text_lt (some (position c))) rows) (sym same)
            ∙ ap (λ rest. take (suc n) (take (suc (suc n)) rows) ++ rest)
                (listing_from q.before c s.events later u
                  (get_elem?-All (λ r. older text_lt q.before r ≡ true) rows n c rows-older here_)
                  new)

    page_continues :
        (n : ℕ) → q.limit ≡ suc n → Continues s (page_of q.limit (take (q.limit + 1) rows))
    page_continues n e =
        let next : q.limit + 1 ≡ suc (suc n) = omega arith in
        let shape : page_of q.limit (take (q.limit + 1) rows)
            ≡ page_of (suc n) (take (suc (suc n)) rows) =
          ap (λ k. page_of k (take (q.limit + 1) rows)) e
          ∙ ap (λ k. page_of (suc n) (take k rows)) next in
        subst (Continues s) (sym shape) (split_continues n e (page_split n rows))

    positive : (k : ℕ) → leb 1 k ≡ true → (n : ℕ) × (k ≡ suc n)
    positive zero h = absurd (ground arith)
    positive (suc n) h = (n, refl)

    -- Where event identifiers are unique and texts are compared in a strict order, a page is the whole
    -- listing from its cursor on if it says that there is no more; otherwise the listing is the page
    -- followed by the listing from its last event on, also where events that are not older came in.
    pub search_events-Continues :
        (page : EventPage) → search_events text_lt q s ≡ ok page → Continues s page
    unfolding search_events rows
    search_events-Continues page h = elim (Bool-cases (leb 1 q.limit)) [
      | inr low ↦ absurd (ground (arith, h, low))
      | inl least ↦
          let (n, e) = positive q.limit least in
          let same : page_of q.limit (take (q.limit + 1) (listing text_lt q q.before s.events))
              ≡ page =
            ground (arith, h) in
          subst (Continues s) same (page_continues n e)
    ]
