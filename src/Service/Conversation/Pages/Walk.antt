-- ===== src/Service/Conversation/Pages/Walk.antt =====
-- A client that follows the cursors of internal/service/conversation_service.go while nothing changes.
use mathlib.Core.List.{append_assoc, map-append}
use mathlib.Core.Option
use nexo_im.Base.{
  ◌-◌, subst, take-append, take_all, split_at, take-map, length-map, last-append, All-middle,
  negsuc, ℕ, zero, suc, ◌+◌, ◌<◌, ◌≤◌, ℤ, pos, pos_part, ◌+ℤ◌, Text, ◌=ₜ◌, true, false, ◌≡◌, refl,
  ◌∙◌, sym, ap, inl, inr, Option, none, some, List, [], ◌∷◌, ◌++◌, map, select, take, length,
  length-append, ltb, All, arith, Bool-cases, ◌<ℤ◌,
}
use nexo_im.Entity.Conversation.{Conversation}
use nexo_im.Backend.{Db}
use nexo_im.Repository.Conversation.Page.{
  ConversationWithSeq, Cursor, no_cursor, cursor_of, with_seq, user_conversations, after_cursor,
  limited, conversations_page,
}
use nexo_im.Repository.Conversation.Page.Order.{
  HasDistinctIds, IsNewestFirst, newest_first-IsNewestFirst, select-after_row, All-newest_first,
}
use nexo_im.Service.Conversation.Pages.{page_limit, Shown, show_page}

-- The page behind a cursor, as the service cuts it.
abbrev pub page : Db → Text → ℤ → Cursor → Shown
page d owner_id limit k =
    show_page (page_limit limit) (conversations_page owner_id (page_limit limit +ℤ pos 1) k d)

-- What a page shows, and then what its cursor leads to.
abbrev follow :
    Shown → (Cursor → Option (List ConversationWithSeq)) → Option (List ConversationWithSeq)
follow p next = elim (p.next_cursor) [
  | none ↦ some p.rows
  | some k ↦ Option.map (λ later. p.rows ++ later) (next k)
]

-- The rows of all pages from a cursor on; `none` if there are more than `fuel` pages.
pub walk : ℕ → Db → Text → ℤ → Cursor → Option (List ConversationWithSeq)
walk zero d owner_id limit k = none
walk (suc fuel) d owner_id limit k = follow (page d owner_id limit k) (walk fuel d owner_id limit)

page_limit_pos :
    (limit : ℤ)
    → (0 < pos_part (page_limit limit)) × (page_limit limit ≡ pos (pos_part (page_limit limit)))
unfolding page_limit
page_limit_pos (pos n) = ground arith
page_limit_pos (negsuc n) = ground arith

one_more : (n : ℕ) → pos (suc n) +ℤ pos 1 ≡ pos (suc (suc n))
unfolding ◌+ℤ◌
one_more n = ground arith

limited-suc : (n : ℕ) (cs : List Conversation) → limited (pos (suc n)) cs ≡ take (suc n) cs
limited-suc n cs = ground arith

-- A time of its own, which a cursor needs.
abbrev pub Dated : Conversation → Type 0
Dated c = pos 0 <ℤ c.updated_at

module _ (d : Db) where
  rows : List Conversation → List ConversationWithSeq
  rows = map (with_seq d)

  -- Rows that fit on a page are all shown, and there is no more.
  show_last :
      (n : ℕ) (rest : List Conversation)
      → length rest ≤ suc n
      → show_page (pos (suc n)) (rows (take (suc (suc n)) rest))
        ≡ record { rows = rows rest; has_more = false; next_cursor = none }
  unfolding show_page rows
  show_last n rest h = ground (arith, take_all (suc (suc n)) rest, length-map (with_seq d) rest)

  -- Of more rows a page is shown, and the cursor is that of its last row.
  show_more :
      (ps : List Conversation) (x : Conversation) (rest : List Conversation)
      → 0 < length rest
      → show_page (pos (suc (length ps))) (rows (take (suc (suc (length ps))) (ps ++ x ∷ rest)))
        ≡ record { rows = rows (ps ++ x ∷ []); has_more = true; next_cursor = some (cursor_of x) }
  unfolding show_page rows with_seq
  show_more ps x [] h = absurd (omega arith)
  show_more ps x (y ∷ rest) h =
      let two : suc (suc (length ps)) ≡ length ps + 2 = omega arith in
      let one : suc (length ps) ≡ length ps + 1 = omega arith in
      ground (
        arith,
        two,
        one,
        take-append 2 ps (x ∷ (y ∷ rest)),
        take-append 1 ps (x ∷ (y ∷ [])),
        take-map (with_seq d) (suc (length ps)) (ps ++ x ∷ (y ∷ [])),
        length-map (with_seq d) (ps ++ x ∷ (y ∷ [])),
        length-append ps (x ∷ (y ∷ [])),
        map-append (with_seq d) ps (x ∷ []),
        last-append (rows ps) (with_seq d x),
      )

  module _ (owner_id : Text) (limit : ℤ) where
    abbrev whole : List Conversation
    whole = user_conversations owner_id d

    page_behind :
        (n : ℕ) (k : Cursor) (rest : List Conversation)
        → page_limit limit ≡ pos (suc n)
        → after_cursor k whole ≡ rest
        → page d owner_id limit k ≡ show_page (pos (suc n)) (rows (take (suc (suc n)) rest))
    unfolding conversations_page rows
    page_behind n k rest e at =
        rw (e, one_more n, at)
          (ap (λ l. show_page (pos (suc n)) (rows l)) (limited-suc (suc n) rest))

    -- The cursor at the last row of a page leads to the rows behind it.
    behind_row :
        (done ps : List Conversation) (x : Conversation) (rest : List Conversation)
        → IsNewestFirst whole
        → All Dated whole
        → whole ≡ done ++ (ps ++ x ∷ rest)
        → after_cursor (cursor_of x) whole ≡ rest
    behind_row done ps x rest sorted dated split =
        let e : whole ≡ (done ++ ps) ++ x ∷ rest = split ∙ sym (append_assoc done ps (x ∷ rest)) in
        let dated_x = All-middle Dated (done ++ ps) x rest (subst (λ l. All Dated l) e dated) in
        let sorted_x = subst (λ l. IsNewestFirst l) e sorted in
        ground (arith, e, dated_x, select-after_row (done ++ ps) x rest sorted_x)

    -- A page with more behind it, and what is behind it.
    follow_more :
        (ps : List Conversation) (x : Conversation) (rest : List Conversation) (k : Cursor)
        (next : Cursor → Option (List ConversationWithSeq))
        → page_limit limit ≡ pos (suc (length ps))
        → after_cursor k whole ≡ ps ++ x ∷ rest
        → 0 < length rest
        → next (cursor_of x) ≡ some (rows rest)
        → follow (page d owner_id limit k) next ≡ some (rows (ps ++ x ∷ rest))
    unfolding rows
    follow_more ps x rest k next e at h later =
        rw (page_behind (length ps) k (ps ++ x ∷ rest) e at, show_more ps x rest h, later)
          (ap some (
            sym (map-append (with_seq d) (ps ++ x ∷ []) rest)
            ∙ ap (map (with_seq d)) (append_assoc ps (x ∷ []) rest)))

    walk_rest :
        (n fuel : ℕ) (k : Cursor) (done rest : List Conversation)
        → page_limit limit ≡ pos (suc n)
        → IsNewestFirst whole
        → All Dated whole
        → whole ≡ done ++ rest
        → after_cursor k whole ≡ rest
        → length rest < fuel
        → walk fuel d owner_id limit k ≡ some (rows rest)
    unfolding walk
    walk_rest n zero k done rest e sorted dated split at h = absurd (omega arith)
    walk_rest n (suc fuel) k done rest e sorted dated split at h =
        elim (Bool-cases (ltb (suc n) (length rest))) [
          | inr fits ↦ rw (page_behind n k rest e at, show_last n rest (ground arith)) refl
          | inl more ↦
              let (ps, x, later, parts, size) = split_at n rest (ground arith) in
              let whole_parts : whole ≡ done ++ (ps ++ x ∷ later) =
                split ∙ ap (λ l. done ++ l) parts in
              let lengths = length-append ps (x ∷ later) in
              subst (λ l. walk (suc fuel) d owner_id limit k ≡ some (rows l)) (sym parts)
                (follow_more ps x later k (walk fuel d owner_id limit) (ground arith) (at ∙ parts)
                  (ground arith)
                  (walk_rest n fuel (cursor_of x) (done ++ (ps ++ x ∷ [])) later e sorted dated
                    (ground (
                      arith,
                      append_assoc done (ps ++ x ∷ []) later,
                      append_assoc ps (x ∷ []) later,
                    ))
                    (behind_row done ps x later sorted dated whole_parts) (ground arith)))
        ]

    -- Where the rows of a user have different conversation ids and positive times, a client that follows
    -- the cursors from the first page on, while the tables do not change, gets to a page without a cursor
    -- after at most one page more than there are conversations, and the pages together are exactly the
    -- list without pages, for every limit.
    pub walk-whole :
        (fuel : ℕ)
        → HasDistinctIds (select (λ c. c.owner_id =ₜ owner_id) d.conversations)
        → All Dated (select (λ c. c.owner_id =ₜ owner_id) d.conversations)
        → length whole < fuel
        → walk fuel d owner_id limit no_cursor
          ≡ some (conversations_page owner_id (pos 0) no_cursor d)
    unfolding user_conversations conversations_page rows
    walk-whole fuel distinct dated h =
        let own = select (λ (c : Conversation). c.owner_id =ₜ owner_id) d.conversations in
        let bounds = page_limit_pos limit in
        walk_rest (pos_part (page_limit limit) - 1) fuel no_cursor [] whole (ground arith)
          (newest_first-IsNewestFirst own distinct) (All-newest_first Dated own dated) refl refl h
