-- ===== src/Messages/Inbox/Pages.antt =====
-- Lemmas on `List` of internal/store/messages.go: the rows of a page.
use self_organizing_multi_ag.Base.{
  ℕ, suc, ◌+◌, ◌-◌, ◌<◌, ◌≡◌, ◌≢◌, refl, sym, ◌∙◌, ap, subst, Bool, true, false, not, ◌&&◌, Option,
  none, some, List, [], ◌∷◌, take, All, arith, leb, if◌then◌else◌, Bool-cases, inl, inr,
}
use self_organizing_multi_ag.Errors.{ok}
use self_organizing_multi_ag.Db.{Db, MessageRow}
use self_organizing_multi_ag.Table.{select, place, order_by}
use self_organizing_multi_ag.Paging.{page_limit}
use self_organizing_multi_ag.Messages.Inbox.{
  Cursor, no_cursor, after_seq, bad_cursor, MessageFilter, is_bad, beyond, wanted, seq_before,
  is_dead, last_seq, scan_page, next_cursor, page_rows, list_messages,
}

-- Every row comes after the number.
abbrev After : ℕ → List MessageRow → Type 0
After b t = All (λ (x : MessageRow). b < x.seq) t

-- The rows stand in the order of their sequence numbers, as they are inserted.
abbrev pub Increasing : List MessageRow → Type 0
Increasing [] = Unit
Increasing (r ∷ t) = After r.seq t × Increasing t

After-select :
    (b : ℕ) (p : MessageRow → Bool) (t : List MessageRow) → After b t → After b (select p t)
unfolding select
After-select b p [] h = tt
After-select b p (r ∷ t) h = ground (arith, After-select b p t h.1)

Increasing-select :
    (p : MessageRow → Bool) (t : List MessageRow) → Increasing t → Increasing (select p t)
unfolding select
Increasing-select p [] h = tt
Increasing-select p (r ∷ t) h =
    ground (arith, After-select r.seq p t h.0, Increasing-select p t h.1)

place-front : (r : MessageRow) (t : List MessageRow) → After r.seq t → place seq_before r t ≡ r ∷ t
unfolding place
place-front r [] h = refl
place-front r (x ∷ t) h = ground arith

order_by-Increasing : (t : List MessageRow) → Increasing t → order_by seq_before t ≡ t
unfolding order_by
order_by-Increasing [] h = refl
order_by-Increasing (r ∷ t) h = rw (order_by-Increasing t h.1) (place-front r t h.0)

-- The live rows up to a number.
abbrev pub live_to : ℕ → ℕ → MessageRow → Bool
live_to now s r = not (is_dead now r) && leb r.seq s

none_below : (now s : ℕ) (t : List MessageRow) → After s t → select (live_to now s) t ≡ []
unfolding select
none_below now s [] h = refl
none_below now s (r ∷ t) h = ground (arith, none_below now s t h.1)

-- What a scan returns: nothing where it read nothing, else the live rows up to the last one read.
abbrev Page : ℕ → List MessageRow → List MessageRow × Option ℕ → Type 0
Page now ws (page, none) = page ≡ []
Page now ws (page, some s) = (page ≡ select (live_to now s) ws) × ((b : ℕ) → After b ws → b < s)

one_row :
    (now : ℕ) (r : MessageRow) (ws page : List MessageRow)
    → Increasing (r ∷ ws)
    → page ≡ (if is_dead now r then [] else r ∷ [])
    → Page now (r ∷ ws) (page, some r.seq)
unfolding select
one_row now r ws page inc e = (ground (arith, none_below now r.seq ws inc.0), λ b h. h.0)

more_rows :
    (now s : ℕ) (r : MessageRow) (page longer ws : List MessageRow)
    → Increasing (r ∷ ws)
    → Page now ws (page, some s)
    → longer ≡ (if is_dead now r then page else r ∷ page)
    → Page now (r ∷ ws) (longer, some s)
unfolding select
more_rows now s r page longer ws inc (e, high) l =
    let above : r.seq < s = high r.seq inc.0 in
    (ground (arith, above), λ b h. ground (arith, high b h.1))

-- One round of the loop, on what the rest of it returns.
abbrev round : ℕ → ℕ → MessageRow → List MessageRow × Option ℕ → List MessageRow × Option ℕ
round now room r (page, last) =
    if is_dead now r
    then (page, last_seq r last)
    else if leb room 1
    then (r ∷ [], some r.seq)
    else (r ∷ page, last_seq r last)

round-Page :
    (now room : ℕ) (r : MessageRow) (ws : List MessageRow) (rest : List MessageRow × Option ℕ)
    → Increasing (r ∷ ws)
    → Page now ws rest
    → Page now (r ∷ ws) (round now room r rest)
round-Page now room r ws (page, none) inc h = elim (Bool-cases (is_dead now r)) [
  | inl dead ↦ rw dead (one_row now r ws page inc (rw (dead, h) refl))
  | inr fresh ↦ elim (Bool-cases (leb room 1)) [
    | inl full ↦ rw (fresh, full) (one_row now r ws (r ∷ []) inc (rw fresh refl))
    | inr free ↦ rw (fresh, free) (one_row now r ws (r ∷ page) inc (rw (fresh, h) refl))
  ]
]
round-Page now room r ws (page, some s) inc h = elim (Bool-cases (is_dead now r)) [
  | inl dead ↦ rw dead (more_rows now s r page page ws inc h (rw dead refl))
  | inr fresh ↦ elim (Bool-cases (leb room 1)) [
    | inl full ↦ rw (fresh, full) (one_row now r ws (r ∷ []) inc (rw fresh refl))
    | inr free ↦ rw (fresh, free) (more_rows now s r page (r ∷ page) ws inc h (rw fresh refl))
  ]
]

scan-Page :
    (now room n : ℕ) (ws : List MessageRow)
    → Increasing ws
    → Page now ws (scan_page now room (take n ws))
unfolding scan_page
scan-Page now room ℕ.zero ws inc = refl
scan-Page now room (suc n) [] inc = refl
scan-Page now room (suc n) (r ∷ ws) inc =
    let left = if is_dead now r then room else room - 1 in
    round-Page now room r ws (scan_page now left (take n ws)) inc (scan-Page now left n ws inc.1)

-- The rows that a cursor has reached.
abbrev pub reached : Cursor → MessageRow → Bool
reached no_cursor r = false
reached (after_seq s) r = leb r.seq s
reached bad_cursor r = false

beyond-reached : (c : Cursor) (r : MessageRow) → beyond c r ≡ true → reached c r ≡ false
beyond-reached no_cursor r h = refl
beyond-reached (after_seq s) r h = ground arith
beyond-reached bad_cursor r h = refl

-- No row is both beyond the cursor of the request and reached by it.
nothing_between :
    (f : MessageFilter) (now : ℕ) (t : List MessageRow)
    → select (λ r. not (is_dead now r) && reached f.cursor r) (select (wanted f) t) ≡ []
unfolding select wanted
nothing_between f now [] = refl
nothing_between f now (r ∷ t) = ground (arith, nothing_between f now t, beyond-reached f.cursor r)

shown-Page :
    (f : MessageFilter) (now : ℕ) (t : List MessageRow) (scan : List MessageRow × Option ℕ)
    → Page now (select (wanted f) t) scan
    → scan.0
      ≡ select
          (λ r. not (is_dead now r) && reached (next_cursor f.cursor scan.1) r)
          (select (wanted f) t)
shown-Page f now t (page, none) h = h ∙ sym (nothing_between f now t)
shown-Page f now t (page, some s) h = h.0

list_messages_ok :
    (f : MessageFilter) (now : ℕ) (db : Db) (page : List MessageRow) (c : Cursor)
    → list_messages f now db ≡ ok (page, c)
    → let scan = scan_page now (page_limit f.limit) (page_rows f db) in
      (scan.0 ≡ page) × (next_cursor f.cursor scan.1 ≡ c)
unfolding list_messages
list_messages_ok f now db page c h = elim (Bool-cases (is_bad f.cursor)) [
  | inl bad ↦ absurd (ground arith)
  | inr good ↦ ground arith
]

page_rows_lem :
    (f : MessageFilter) (db : Db)
    → Increasing db.messages
    → page_rows f db ≡ take (page_limit f.limit + 1) (select (wanted f) db.messages)
unfolding page_rows
page_rows_lem f db inc = ap (take (page_limit f.limit + 1)) (
    order_by-Increasing (select (wanted f) db.messages)
      (Increasing-select (wanted f) db.messages inc))

-- A scan that read no row had none to read.
last_seq_some : (r : MessageRow) (o : Option ℕ) → last_seq r o ≢ none
last_seq_some r none e = cc
last_seq_some r (some s) e = cc

scan_none : (now room : ℕ) (rows : List MessageRow) → (scan_page now room rows).1 ≡ none → rows ≡ []
unfolding scan_page
scan_none now room [] h = refl
scan_none now room (r ∷ rows) h =
    let rest = scan_page now (if is_dead now r then room else room - 1) rows in
    absurd (ground (arith, last_seq_some r rest.1))

wanted-After :
    (f : MessageFilter) (s : ℕ) (t : List MessageRow)
    → f.cursor ≡ after_seq s
    → After s (select (wanted f) t)
unfolding select wanted
wanted-After f s [] e = tt
wanted-After f s (r ∷ t) e = ground (arith, wanted-After f s t e)

take_none : (n : ℕ) (t : List MessageRow) → take (n + 1) t ≡ [] → t ≡ []
take_none n [] h = refl
take_none n (r ∷ t) h =
    let e : n + 1 ≡ suc n = omega arith in absurd (cc (subst (λ k. take k (r ∷ t) ≡ []) e h))

-- A scan that leaves the cursor where it was had no row to read.
stopped :
    (f : MessageFilter) (now : ℕ) (t : List MessageRow) (scan : List MessageRow × Option ℕ)
    → Page now (select (wanted f) t) scan
    → (scan.1 ≡ none → select (wanted f) t ≡ [])
    → next_cursor f.cursor scan.1 ≡ f.cursor
    → select (wanted f) t ≡ []
stopped f now t (page, none) h none_read e = none_read refl
stopped f now t (page, some s) h none_read e =
    let above : s < s = h.1 s (wanted-After f s t (sym e)) in absurd (omega arith)

-- A page of `List` holds exactly the live messages that the filter wants between the cursor that
-- the request names and the one that it returns: none is skipped and none comes twice. The cursor
-- stands still only where no message that the filter wants is left. The messages stand in the
-- order of their sequence numbers.
pub list_messages_lem :
    (f : MessageFilter) (now : ℕ) (db : Db) (page : List MessageRow) (c : Cursor)
    → Increasing db.messages
    → list_messages f now db ≡ ok (page, c)
    → (page ≡ select (λ r. not (is_dead now r) && reached c r) (select (wanted f) db.messages))
      × (c ≡ f.cursor → select (wanted f) db.messages ≡ [])
list_messages_lem f now db page c inc h =
    let (same_page, same_cursor) = list_messages_ok f now db page c h in
    let ws = select (wanted f) db.messages in
    let room = page_limit f.limit in
    let rows = page_rows f db in
    let scanned = scan-Page now room (room + 1) ws (Increasing-select (wanted f) db.messages inc) in
    let same_rows = page_rows_lem f db inc in
    let holds = subst (λ rs. Page now ws (scan_page now room rs)) (sym same_rows) scanned in
    (
      sym same_page
          ∙ shown-Page f now db.messages (scan_page now room rows) holds
          ∙ ap (λ k. select (λ r. not (is_dead now r) && reached k r) ws) same_cursor,
      λ still.
          stopped f now db.messages (scan_page now room rows) holds
            (λ e. take_none room ws (sym same_rows ∙ scan_none now room rows e))
            (same_cursor ∙ still),
    )
