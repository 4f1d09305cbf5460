-- ===== src/Control/Listing/Pages.antt =====
-- The pages of `List`, in src/dfsha/control/queries.py, one after the other.
use mathlib.Core.List.{append-nil, append_assoc}
use dfsha.Prelude.{
  ℕ, zero, suc, ◌≤◌, ◌<◌, ◌≡◌, refl, sym, ap, ◌∙◌, inl, inr, Bool, true, false, not, ◌&&◌, Option,
  some, List, [], ◌++◌, Text, arith, leb, ◌==◌, ==_refl, if◌then◌else◌, length, take, drop,
  first_of?, all_of, Bool-cases, and-true, else_of, take-append-drop, length-drop, length-take,
  leb→le,
}
use dfsha.Common.Domain.{Result, ok, ◌>>=◌}
use dfsha.Control.State.{Meta, User, Node, System, is_file}
use dfsha.Control.Auth.{require}
use dfsha.Control.Paths.{children, text_ltb, not_empty}
use dfsha.Control.Paths.Order.{ascending, distinct, same_name, children-ascending}
use dfsha.Control.Handles.{found}
use dfsha.Control.Listing.{
  Entry, Cursor, Listed, entries_of, behind, last_of, start_of, cursor_after, page_of, list_node,
}
use dfsha.Control.Listing.Rest.{
  same_id, keep_if-everything, after_nothing, behind-last, first_of?-last, last_of-append,
  last_of-some, take-all, entries_of-append,
}

abbrev follow : Bool → Result (List Entry) → Result (List Entry)
follow true rest = rest
follow false rest = ok []

module _ (encode : Cursor → Text) (decode : Text → Option Cursor) (sys : System) (tx : Meta)
    (user : User) (node : Node) (limit : ℕ) where
  -- A client that follows the cursors until there is none; `zero` is that it gave up.
  pub read_pages : ℕ → Text → Result (List Entry)
  read_pages zero cursor = ok []
  read_pages (suc fuel) cursor = do
    page ← list_node encode decode sys tx user node limit cursor
    rest ← follow (not_empty page.next_cursor) (read_pages fuel page.next_cursor)
    ok (page.entries ++ rest)

  module _ (reads : (at : Cursor) → decode (encode at) ≡ some at)
      (some_text : (at : Cursor) → not_empty (encode at) ≡ true)
      (short : (at : Cursor) → leb (length (encode at)) 512 ≡ true)
      (is_directory : not (is_file node.kind) ≡ true) (may : require sys tx user node 5 ≡ ok tt)
      (allowed : (leb 1 limit && leb limit 100) ≡ true)
      (ids : distinct same_id (children tx node.id) ≡ true)
      (names : distinct same_name (children tx node.id) ≡ true)
      (named : all_of (λ (n : Node). not_empty n.name) (children tx node.id) ≡ true) where
    list_node-page :
        (cursor start : Text)
        → leb (length cursor) 512 ≡ true
        → start_of encode decode tx user node cursor ≡ ok start
        → list_node encode decode sys tx user node limit cursor
          ≡ page_of encode decode tx user node limit (behind start (children tx node.id))
    unfolding list_node
    list_node-page cursor start fits e = rw (is_directory, may, allowed, fits, e) refl

    last_entry : Node → Cursor
    last_entry l = record { id = node.id; revision = node.revision; user = user.id; last = l.id }

    start_of-encode :
        (pre post : List Node) (l : Node)
        → children tx node.id ≡ pre ++ post
        → last_of pre ≡ some l
        → start_of encode decode tx user node (encode (last_entry l)) ≡ ok l.name
    unfolding start_of found last_entry
    start_of-encode pre post l split e =
        let again : first_of? (λ (n : Node). n.id == l.id) (children tx node.id) ≡ some l =
          ap (first_of? (λ (n : Node). n.id == l.id)) split
          ∙ first_of?-last pre post l (ap (distinct same_id) (sym split) ∙ ids) e in
        rw
          (
            some_text (last_entry l),
            reads (last_entry l),
            ==_refl node.id,
            ==_refl node.revision,
            ==_refl user.id,
            again,
          )
          refl

    -- The last page.
    read_pages-last :
        (fuel : ℕ) (rest : List Node) (cursor start : Text) (es : List Entry)
        → leb (length cursor) 512 ≡ true
        → start_of encode decode tx user node cursor ≡ ok start
        → behind start (children tx node.id) ≡ rest
        → entries_of tx rest ≡ ok es
        → leb (length rest) limit ≡ true
        → read_pages (suc fuel) cursor ≡ ok es
    unfolding read_pages page_of
    read_pages-last fuel rest cursor start es fits at is e few =
        let whole : take limit rest ≡ rest = take-all limit rest (leb→le _ _ few) in
        rw (list_node-page cursor start fits at, is, whole, e, few) (ap ok (append-nil es))

    -- A page that is not the last one.
    page_of-more :
        (rest : List Node) (l : Node) (front : List Entry)
        → leb (length rest) limit ≡ false
        → entries_of tx (take limit rest) ≡ ok front
        → last_of (take limit rest) ≡ some l
        → page_of encode decode tx user node limit rest
          ≡ ok (record {
            entries = front;
            next_cursor = encode (last_entry l);
            directory_revision = node.revision;
          })
    unfolding page_of cursor_after last_entry
    page_of-more rest l front many e last =
        let b = leb (length rest) limit in
        let named_last = cursor_after encode decode user node (last_of (take limit rest)) in
        let answer : List Entry → Text → Result Listed = λ es t.
          ok (record { entries = es; next_cursor = t; directory_revision = node.revision }) in
        ap (λ (r : Result (List Entry)). r >>= λ es. answer es (if b then [] else named_last)) e
        ∙ ap (answer front) (
            sym (else_of b [] named_last many refl)
            ∙ ap (cursor_after encode decode user node) last)

    read_pages-more :
        (fuel : ℕ) (rest : List Node) (cursor start : Text) (l : Node) (front back : List Entry)
        → leb (length cursor) 512 ≡ true
        → start_of encode decode tx user node cursor ≡ ok start
        → behind start (children tx node.id) ≡ rest
        → leb (length rest) limit ≡ false
        → entries_of tx (take limit rest) ≡ ok front
        → last_of (take limit rest) ≡ some l
        → read_pages fuel (encode (last_entry l)) ≡ ok back
        → read_pages (suc fuel) cursor ≡ ok (front ++ back)
    unfolding read_pages
    read_pages-more fuel rest cursor start l front back fits at is many e last again =
        let next : Listed → Result (List Entry) = λ page.
          follow (not_empty page.next_cursor) (read_pages fuel page.next_cursor) >>= λ rest.
          ok (page.entries ++ rest) in
        let page =
          list_node-page cursor start fits at
          ∙ (ap (page_of encode decode tx user node limit) is
              ∙ page_of-more rest l front many e last) in
        ap (λ (r : Result Listed). r >>= next) page
        ∙ (ap
              (λ b.
                follow b (read_pages fuel (encode (last_entry l))) >>= λ rest. ok (front ++ rest))
              (some_text (last_entry l))
            ∙ ap (λ (r : Result (List Entry)). r >>= λ rest. ok (front ++ rest)) again)

    read_pages-from :
        (fuel : ℕ) (pre rest : List Node) (cursor start : Text) (es : List Entry)
        → children tx node.id ≡ pre ++ rest
        → leb (length cursor) 512 ≡ true
        → start_of encode decode tx user node cursor ≡ ok start
        → behind start (children tx node.id) ≡ rest
        → entries_of tx rest ≡ ok es
        → length rest < fuel
        → read_pages fuel cursor ≡ ok es
    read_pages-from zero pre rest cursor start es split fits at is e enough = absurd (omega arith)
    read_pages-from (suc fuel) pre rest cursor start es split fits at is e enough =
        elim (Bool-cases (leb (length rest) limit)) [
          | inl few ↦ read_pages-last fuel rest cursor start es fits at is e few
          | inr many ↦
              let page = take limit rest in
              let later = drop limit rest in
              let halves : page ++ later ≡ rest = take-append-drop limit rest in
              let (front, back, e1, e2, joined) =
                entries_of-append tx page later es (ap (entries_of tx) halves ∙ e) in
              let more : limit < length rest = ground (arith, many) in
              let positive : 1 ≤ limit = leb→le 1 limit (and-true _ _ allowed).0 in
              let (l, last) =
                last_of-some page (omega (arith, length-take limit rest, more, positive)) in
              let split' : children tx node.id ≡ (pre ++ page) ++ later =
                split ∙ (ap (◌++◌ pre) (sym halves) ∙ sym (append_assoc pre page later)) in
              let last' = last_of-append pre page l last in
              let next = encode (last_entry l) in
              let sorted = children-ascending tx node.id names in
              let behind_next : behind l.name (children tx node.id) ≡ later =
                ap (behind l.name) split'
                ∙ behind-last (pre ++ page) later l (ap ascending (sym split') ∙ sorted) last' in
              let shorter : length later < fuel =
                omega (arith, length-drop limit rest, enough, more, positive) in
              let again =
                read_pages-from fuel (pre ++ page) later next l.name back split'
                  (short (last_entry l)) (start_of-encode (pre ++ page) later l split' last')
                  behind_next e2 shorter in
              read_pages-more fuel rest cursor start l front back fits at is many e1 last again
              ∙ ap ok (sym joined)
        ]

    -- A directory whose children differ in name and id is listed completely: who follows the cursors
    -- gets the entry of every child once, in the order of their names, whatever the limit.
    pub read_pages_complete :
        (fuel : ℕ) (es : List Entry)
        → entries_of tx (children tx node.id) ≡ ok es
        → length (children tx node.id) < fuel
        → read_pages fuel [] ≡ ok es
    unfolding start_of behind
    read_pages_complete fuel es e enough =
        read_pages-from fuel [] (children tx node.id) [] [] es refl refl refl
          (keep_if-everything (λ (n : Node). text_ltb [] n.name) (children tx node.id)
            (after_nothing (children tx node.id) named))
          e enough
