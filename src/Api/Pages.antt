-- ===== src/Api/Pages.antt =====
-- A client that follows the cursors of a listing: decode_cursor and paginate_rows of
-- server/src/internal_api/v2/common.rs, as the listings of the internal API call them.
use mathlib.Core.Path.{subst}
use tweet_db.Base.{
  ℕ, ◌-◌, zero, suc, ◌+◌, ◌<◌, ◌≡◌, refl, sym, ap, ◌∙◌, inl, inr, ltb, lt→ltb, ltb→lt, Bool-cases,
  Option, none, some, true, false, List, [], ◌∷◌, ◌++◌, map, append_assoc, String, AppResult, ok,
  ◌>>=◌, take, length, length-take, take_all, All, arith,
}
use tweet_db.Api.{resolve_limit, limit_plus_one, page_items, paginate_rows}

resolve_limit_positive : (limit : Option ℕ) → (n : ℕ) × (resolve_limit limit ≡ suc n)
unfolding resolve_limit
resolve_limit_positive limit = (resolve_limit limit - 1, ground arith)

abbrev pub follow {ℓ} :
    {V : Type ℓ} → List V × Option String → (String → AppResult (List V)) → AppResult (List V)
follow (items, none) rest = ok items
follow (items, some next) rest = rest next >>= λ more. ok (items ++ more)

-- The client asks for page after page, as often as `fuel` says.
unfoldable pub walk {ℓ} :
    {V : Type ℓ}
    → (Option String → AppResult (List V × Option String))
    → ℕ
    → Option String
    → AppResult (List V)
walk page zero cursor = ok []
walk page (suc fuel) cursor = page cursor >>= λ p. follow p (λ next. walk page fuel (some next))

-- The cursors of some rows are encoded, and read back.
abbrev pub IsReadable :
    {R C : Type 0} → (R → C) → (C → AppResult String) → (String → AppResult C) → List R → Type 0
IsReadable to_cursor encode_cursor decode =
    All (λ r. (s : String) × (encode_cursor (to_cursor r) ≡ ok s) × (decode s ≡ ok (to_cursor r)))

module _ {R V C : Type 0} (to_item : R → V) (to_cursor : R → C)
    (encode_cursor : C → AppResult String) (decode : String → AppResult C)
    (check : C → AppResult (Unit {0})) (fetch : Option C → ℕ → List R) where
  -- decode_cursor
  abbrev pub decode_cursor : Option String → AppResult (Option C)
  decode_cursor none = ok none
  decode_cursor (some raw) = decode raw >>= λ c. ok (some c)

  abbrev pub checked_cursor : Option C → AppResult (Unit {0})
  checked_cursor none = ok tt
  checked_cursor (some c) = check c

  -- A listing: the cursor is read and checked, and one row more than the limit is fetched after it.
  unfoldable pub list_page : ℕ → Option String → AppResult (List V × Option String)
  list_page limit cursor = decode_cursor cursor >>= λ c.
      (checked_cursor c >>= λ _.
      paginate_rows to_item to_cursor encode_cursor (fetch c (limit_plus_one limit)) limit)

  IsReadable-parts :
      (before : List R) (row : R) (after : List R)
      → IsReadable to_cursor encode_cursor decode (before ++ (row ∷ after))
      → IsReadable to_cursor encode_cursor decode before
        × IsReadable to_cursor encode_cursor decode (row ∷ after)
  IsReadable-parts [] row after readable = (tt, readable)
  IsReadable-parts (x ∷ before) row after readable =
      let (front, back) = IsReadable-parts before row after readable.1 in
      ((readable.0, front), back)

  -- A listing accepts the cursors of its own rows.
  abbrev pub IsAccepting : Type 0
  IsAccepting = (row : R) → check (to_cursor row) ≡ ok tt

  -- The statement behind the listing gives the first of the rows in their order, or of those that
  -- come after the row of a cursor.
  pub record IsListing (rows : List R) : Type 0 where
    pub first : (n : ℕ) → fetch none n ≡ take n rows
    pub later :
        (before after : List R) (row : R) (n : ℕ)
        → rows ≡ before ++ (row ∷ after)
        → fetch (some (to_cursor row)) n ≡ take n after

  page_items_lem :
      (rows : List R) (last : Option String)
      → IsReadable to_cursor encode_cursor decode rows
      → (end : Option String) × (page_items to_item to_cursor encode_cursor rows last
          ≡ ok (map to_item rows, end))
  unfolding page_items
  page_items_lem [] last readable = (last, refl)
  page_items_lem (row ∷ rows) last readable =
      let (s, written, read) = readable.0 in
      let (end, rest) = page_items_lem rows (some s) readable.1 in (end, rw (written, rest))

  page_items_last :
      (before : List R) (row : R) (next : String) (last : Option String)
      → IsReadable to_cursor encode_cursor decode before
      → encode_cursor (to_cursor row) ≡ ok next
      → page_items to_item to_cursor encode_cursor (before ++ (row ∷ [])) last
        ≡ ok (map to_item (before ++ (row ∷ [])), some next)
  unfolding page_items
  page_items_last [] row next last readable written = rw (written)
  page_items_last (x ∷ before) row next last readable written =
      let (s, front, read) = readable.0 in
      rw (front, page_items_last before row next (some s) readable.1 written)

  -- A page that is not the last, and what comes after it.
  split_page :
      (n : ℕ) (rows : List R)
      → n < length rows
      → (before : List R) × (row : R) × (after : List R) × (rows ≡ before ++ (row ∷ after))
        × (take (suc n) rows ≡ before ++ (row ∷ []))
        × (length after < length rows)
  split_page n [] h = absurd (omega arith)
  split_page zero (x ∷ rows) h = ([], x, rows, refl, refl, omega arith)
  split_page (suc n) (x ∷ rows) h =
      let (before, row, after, whole, page, shorter) = split_page n rows (omega arith) in
      (
        x ∷ before,
        row,
        after,
        ap (λ xs. x ∷ xs) whole,
        ap (λ xs. x ∷ xs) page,
        omega (arith, shorter),
      )

  take-take : (n : ℕ) (rows : List R) → take n (take (suc n) rows) ≡ take n rows
  take-take zero rows = refl
  take-take (suc n) [] = refl
  take-take (suc n) (x ∷ rows) = ap (λ xs. x ∷ xs) (take-take n rows)

  map-append : (xs ys : List R) → map to_item (xs ++ ys) ≡ map to_item xs ++ map to_item ys
  map-append [] ys = refl
  map-append (x ∷ xs) ys = ap (λ zs. to_item x ∷ zs) (map-append xs ys)

  page_ends :
      (limit : ℕ) (rows : List R)
      → IsReadable to_cursor encode_cursor decode rows
      → ltb limit (length rows) ≡ false
      → paginate_rows to_item to_cursor encode_cursor (take (suc limit) rows) limit
        ≡ ok (map to_item rows, none)
  unfolding paginate_rows
  page_ends limit rows readable short =
      let (end, items) = page_items_lem rows none readable in
      let whole : take (suc limit) rows ≡ rows = take_all (suc limit) rows (ground arith) in
      rw (whole, short, items)

  page_continues :
      (limit : ℕ) (rows before : List R) (row : R) (next : String)
      → IsReadable to_cursor encode_cursor decode before
      → encode_cursor (to_cursor row) ≡ ok next
      → limit < length rows
      → take limit rows ≡ before ++ (row ∷ [])
      → paginate_rows to_item to_cursor encode_cursor (take (suc limit) rows) limit
        ≡ ok (map to_item (before ++ (row ∷ [])), some next)
  unfolding paginate_rows
  page_continues limit rows before row next readable written long page =
      let size = length-take (suc limit) rows in
      let more : ltb limit (length (take (suc limit) rows)) ≡ true =
        lt→ltb _ _ (omega (arith, size, long)) in
      rw (more, take-take limit rows, page, page_items_last before row next none readable written)

  listed :
      (n : ℕ) (rest : List R) (cursor : Option String) (c : Option C)
      → decode_cursor cursor ≡ ok c
      → checked_cursor c ≡ ok tt
      → ((k : ℕ) → fetch c k ≡ take k rest)
      → list_page n cursor ≡ paginate_rows to_item to_cursor encode_cursor (take (suc n) rest) n
  unfolding list_page limit_plus_one
  listed n rest cursor c read accepted fetched =
      let one : n + 1 ≡ suc n = omega arith in rw (read, accepted, one, fetched (suc n))

  walk_from :
      (accepting : IsAccepting) (rows : List R) (listing : IsListing rows) (n fuel : ℕ)
      → (before rest : List R) (cursor : Option String) (c : Option C) → rows ≡ before ++ rest
      → IsReadable to_cursor encode_cursor decode rest
      → decode_cursor cursor ≡ ok c
      → checked_cursor c ≡ ok tt
      → ((k : ℕ) → fetch c k ≡ take k rest)
      → length rest < fuel
      → walk (list_page (suc n)) fuel cursor ≡ ok (map to_item rest)
  unfolding walk
  walk_from accepting rows listing n zero before rest cursor c at readable read accepted fetched
        enough =
      absurd (omega arith)
  walk_from accepting rows listing n (suc fuel) before rest cursor c at readable read accepted
        fetched enough =
      elim (Bool-cases (ltb (suc n) (length rest))) [
        | inr short ↦ rw (
          listed (suc n) rest cursor c read accepted fetched,
          page_ends (suc n) rest readable short,
        )
        | inl long ↦
            let more = ltb→lt (suc n) (length rest) long in
            let (front, row, after, whole, page, shorter) = split_page n rest (omega arith) in
            let (start, others) =
              IsReadable-parts front row after
                (subst (IsReadable to_cursor encode_cursor decode) whole readable) in
            let (s, written, back) = others.0 in
            let parts : rows ≡ before ++ (front ++ (row ∷ after)) =
              at ∙ ap (λ xs. before ++ xs) whole in
            let ih =
              walk_from accepting rows listing n fuel (before ++ (front ++ (row ∷ []))) after
                (some s) (some (to_cursor row))
                (parts
                  ∙ ap (λ xs. before ++ xs) (sym (append_assoc front (row ∷ []) after))
                  ∙ sym (append_assoc before (front ++ (row ∷ [])) after))
                others.1 (rw (back)) (accepting row)
                (λ k.
                  listing.later (before ++ front) after row k
                    (parts ∙ sym (append_assoc before front (row ∷ after))))
                (omega (arith, shorter)) in
            let all : map to_item (front ++ (row ∷ [])) ++ map to_item after ≡ map to_item rest =
              sym (map-append (front ++ (row ∷ [])) after)
              ∙ ap (map to_item) (append_assoc front (row ∷ []) after ∙ sym whole) in
            rw (
              listed (suc n) rest cursor c read accepted fetched,
              page_continues (suc n) rest front row s start written more page,
              ih,
              all,
            )
      ]

  pub walk_all :
      (accepting : IsAccepting) (rows : List R)
      (readable : IsReadable to_cursor encode_cursor decode rows) (listing : IsListing rows)
      (limit : Option ℕ) (fuel : ℕ)
      → length rows < fuel
      → walk (list_page (resolve_limit limit)) fuel none ≡ ok (map to_item rows)
  walk_all accepting rows readable listing limit fuel enough =
      let (n, same) = resolve_limit_positive limit in
      rw (
        same,
        walk_from accepting rows listing n fuel [] rows none none refl readable refl refl
            listing.first enough,
      )
