-- ===== src/Query/Stream/Ending.antt =====
-- src/query.rs: the collections of a stream that end, and the streams whose daemon stops sending rows.
use mapepire_rs.Prelude.{
  ℕ, zero, suc, ◌+◌, ◌≤◌, ◌<◌, ◌≡◌, ◌≢◌, refl, ap, subst, ◌⊎◌, ◌∙◌, String, true, false, Option,
  none, some, List, [], ◌∷◌, length, arith, Result, ok, err, inl, inr, Result-cases,
}
use mapepire_rs.Prelude.Text.{str_eq}
use mapepire_rs.Protocol.Json.{Fields}
use mapepire_rs.Protocol.Request.{sql_more}
use mapepire_rs.Protocol.Response.{QueryResult, Response, query_result, non_empty}
use mapepire_rs.Protocol.Ids.{next}
use mapepire_rs.Error.{Error}
use mapepire_rs.Client.{Session, Server}
use mapepire_rs.Query.Stream.{
  StreamState, Item, end, row, failed, Polled, polled, poll, try_collect, drop_stream, prepend,
}

module _ (debug : Response → String) (serve : Server) {T : Type 0}
    (convert : Fields → Result T Error) where
  kept :
      (fuel : ℕ) (state state' : StreamState) (s s' : Session) (r : Fields) (t : T)
      (out : Result (List T) Error × Session)
      → poll debug serve state s ≡ polled (row r) state' s'
      → convert r ≡ ok t
      → try_collect debug serve convert fuel state' s' ≡ some out
      → try_collect debug serve convert (suc fuel) state s ≡ some (prepend t out.0, out.1)
  unfolding try_collect
  kept fuel state state' s s' r t out p e h = ground (arith, p, e, h)

  unreadable :
      (fuel : ℕ) (state state' : StreamState) (s s' : Session) (r : Fields) (e : Error)
      → poll debug serve state s ≡ polled (row r) state' s'
      → convert r ≡ err e
      → try_collect debug serve convert (suc fuel) state s ≡ some (err e, drop_stream state' s')
  unfolding try_collect
  unreadable fuel state state' s s' r e p q = ground (arith, p, q)

  -- The collection has one result, which every fuel above a bound gives.
  unfoldable pub Ends : ℕ → StreamState → Session → Type 0
  Ends n state s =
      (out : Result (List T) Error × Session) × ((fuel : ℕ)
        → n < fuel
        → try_collect debug serve convert fuel state s ≡ some out)

  -- A result that every positive fuel above the bound gives.
  pub ends :
      (n : ℕ) (state : StreamState) (s : Session) (out : Result (List T) Error × Session)
      → ((fuel : ℕ) → n ≤ fuel → try_collect debug serve convert (suc fuel) state s ≡ some out)
      → Ends n state s
  unfolding Ends
  ends n state s out h = (out, go)
    where
      go : (fuel : ℕ) → n < fuel → try_collect debug serve convert fuel state s ≡ some out
      go zero lt = absurd (omega arith)
      go (suc fuel) lt = h fuel (omega arith)

  Ends-row :
      (n : ℕ) (state state' : StreamState) (s s' : Session) (r : Fields)
      → poll debug serve state s ≡ polled (row r) state' s'
      → Ends n state' s'
      → Ends (suc n) state s
  unfolding Ends
  Ends-row n state state' s s' r p (out, h) = elim (Result-cases (convert r)) [
    | inl (t, e) ↦
        ends (suc n) state s (prepend t out.0, out.1)
          (λ fuel le. kept fuel state state' s s' r t out p e (h fuel (omega arith)))
    | inr (e, q) ↦
        ends (suc n) state s (err e, drop_stream state' s')
          (λ fuel le. unreadable fuel state state' s s' r e p q)
  ]

  -- A poll that yields no row.
  abbrev pub IsOver : Item → Type 0
  IsOver end = Unit
  IsOver (row r) = ⊥
  IsOver (failed e) = Unit

  pub Ends-over :
      (state : StreamState) (s : Session) (item : Item)
      → (poll debug serve state s).item ≡ item
      → IsOver item
      → Ends 0 state s
  unfolding try_collect
  Ends-over state s end p h =
      let last = poll debug serve state s in
      ends 0 state s (ok [], drop_stream last.state last.session) (λ fuel le. ground (arith, p))
  Ends-over state s (failed e) p h =
      let last = poll debug serve state s in
      ends 0 state s (err e, drop_stream last.state last.session) (λ fuel le. ground (arith, p))
  Ends-over state s (row r) p h = absurd h

  -- What a collection makes of a poll.
  collected : ℕ → Polled → Option (Result (List T) Error × Session)
  collected fuel p = elim p.item [
    | end ↦ some (ok [], drop_stream p.state p.session)
    | failed e ↦ some (err e, drop_stream p.state p.session)
    | row r ↦ elim (convert r) [
      | err e ↦ some (err e, drop_stream p.state p.session)
      | ok t ↦ elim (try_collect debug serve convert fuel p.state p.session) [
        | none ↦ none
        | some out ↦ some (prepend t out.0, out.1)
      ]
    ]
  ]

  -- Two states whose next polls agree are collected alike.
  pub Ends-poll :
      (n : ℕ) (state state' : StreamState) (s s' : Session)
      → poll debug serve state s ≡ poll debug serve state' s'
      → Ends n state' s'
      → Ends n state s
  unfolding Ends try_collect collected
  Ends-poll n state state' s s' p (out, h) =
      ends n state s out (λ fuel le. ap (collected fuel) p ∙ h (suc fuel) (omega arith))

  abbrev pub emptied : StreamState → StreamState
  emptied state = record state { rows = [] }

  pub Ends-rows :
      (n : ℕ) (rows : List Fields) (state : StreamState) (s : Session)
      → Ends n (emptied state) s
      → Ends (length rows + n) (record state { rows = rows }) s
  Ends-rows n [] state s h = subst (λ k. Ends k (emptied state) s) (omega arith) h
  Ends-rows n (r ∷ rows) state s h =
      subst (λ k. Ends k (record state { rows = r ∷ rows }) s) (omega arith)
        (Ends-row (length rows + n) (record state { rows = r ∷ rows })
          (record state { rows = rows }) s s r (unfold poll in refl) (Ends-rows n rows state s h))

  -- The state and the session once a page has come.
  abbrev pub turned : StreamState → QueryResult → StreamState
  turned state q = record state { rows = q.rows; done = q.is_done; ids = (next state.ids).1 }

  abbrev pub asked : String → StreamState → Session → Session
  asked cursor state s = record s {
    sent = sql_more (next state.ids).0 cursor state.page_size ∷ s.sent;
  }

  -- An answer to a `sqlmore` that is no page with rows: a failure, another response, a page for
  -- another request, or an empty page.
  abbrev pub HasNoRows : String → Result Response Error → Type 0
  HasNoRows id (ok (query_result q)) = (str_eq q.id id ≡ false) ⊎ (q.rows ≡ [])
  HasNoRows id _ = Unit

  -- How many rows a stream still has to yield: those in its buffer and, as long as it is not done,
  -- those of the pages that the daemon answers with, up to an answer that is no page with rows.
  pub data Yields : StreamState → Session → ℕ → Type 0 where
    over :
        (state : StreamState) (s : Session) → state.done ≡ true → Yields state s (length state.rows)
    no_cursor :
        (state : StreamState) (s : Session)
        → non_empty state.cont_id ≡ none
        → Yields state s (length state.rows)
    refused :
        (state : StreamState) (s : Session) (cursor : String)
        → non_empty state.cont_id ≡ some cursor
        → HasNoRows
            (next state.ids).0
            (serve s (sql_more (next state.ids).0 cursor state.page_size))
        → Yields state s (length state.rows)
    page :
        (state : StreamState) (s : Session) (cursor : String) (q : QueryResult) (n : ℕ)
        → state.done ≡ false
        → non_empty state.cont_id ≡ some cursor
        → serve s (sql_more (next state.ids).0 cursor state.page_size) ≡ ok (query_result q)
        → str_eq q.id (next state.ids).0 ≡ true
        → q.rows ≢ []
        → Yields (turned state q) (asked cursor state s) n
        → Yields state s (length state.rows + n)
