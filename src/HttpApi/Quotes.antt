-- ===== src/HttpApi/Quotes.antt =====
-- `fxQuote` of internal/httpapi/server.go. The table `exchange_rates`, which the program only reads, is
-- an argument; so is the database's `(1/rate)::numeric(18,8)::text`.
use Prim.Native.String.{len}
use text.Mathlib.Text.{◌==◌ as str_eq}
use peikonpurekkusu_payment.Prelude.{
  ℕ, ◌+◌, ◌≡◌, refl, ◌∙◌, inl, inr, true, false, not, ◌&&◌, ◌||◌, String, List, [], ◌∷◌, Option,
  none, some, is_some, ltb, ◌==◌, if◌then◌else◌, Bool-cases, Option-cases, ==_refl,
}
use peikonpurekkusu_payment.Prelude.Bytes.{Bytes}
use peikonpurekkusu_payment.Payment.{Uuid, Time, FxQuote}
use peikonpurekkusu_payment.Payment.Table.{lookup_quote}
use peikonpurekkusu_payment.Saga.World.{World, Env, History, queried, wrote, record_event}
use peikonpurekkusu_payment.HttpApi.{Request, get}
use peikonpurekkusu_payment.HttpApi.Create.{problem, Outside, check_quote, quote_problem}

-- A row of `exchange_rates`, its rate as text.
pub record ExchangeRate : Type 0 where
  pub id : Uuid
  pub base : String
  pub quote : String
  pub rate : String
  pub valid_from : Time

pub record FxQuoteRequest : Type 0 where
  pub base : String
  pub target : String

pub data QuoteAnswer : Type 0 where
  quote_refused : ℕ → String → QuoteAnswer
  quoted : FxQuote → QuoteAnswer

abbrev pub later_rate : ExchangeRate → Option ExchangeRate → Option ExchangeRate
later_rate x none = some x
later_rate x (some y) = if ltb x.valid_from y.valid_from then some y else some x

-- `where base = $1 and quote = $2 order by valid_from desc limit 1`
unfoldable pub latest : String → String → List ExchangeRate → Option ExchangeRate
latest base quote [] = none
latest base quote (x ∷ xs) =
    let rest = latest base quote xs in
    if str_eq x.base base && str_eq x.quote quote then later_rate x rest else rest

module _ (env : Env) (decode : Bytes → Option FxQuoteRequest) (invert : String → String)
    (new_uuid : History → Uuid) (ttl : Time) (rates : List ExchangeRate) where
  -- The id and the text of a rate: the pair's, or the inverse of the other direction's. A query that
  -- fails gives none.
  unfoldable pub find_rate : String → String → World → Option (Uuid × String) × World
  unfolding latest
  find_rate base target w =
      let w' = record_event queried w in
      if env.query_ok w.history
      then (elim (latest base target rates) [
        | some x ↦ (some (x.id, x.rate), w')
        | none ↦ (
          if env.query_ok w'.history
              then (elim (latest target base rates) [
                | none ↦ none
                | some x ↦ some (x.id, invert x.rate)
              ])
              else none,
          record_event queried w',
        )
      ])
      else (none, w')

  abbrev pub quote_of : World → String → String → Uuid → String → FxQuote
  quote_of w base target rate_id rate = record {
    id = new_uuid w.history;
    base = base;
    quote = target;
    rate = rate;
    rate_id = rate_id;
    created_at = w.now;
    expires_at = w.now + ttl;
  }

  -- `insert into fx_quotes …` under its primary key.
  unfoldable pub insert_quote : FxQuote → World → QuoteAnswer × World
  unfolding lookup_quote
  insert_quote q w =
      let w' = record_event (wrote (env.commit_ok w.history)) w in
      if env.commit_ok w.history && not (is_some (lookup_quote q.id w.quotes))
      then (quoted q, record w' { quotes = q ∷ w.quotes })
      else (quote_refused 500 "internal error", w')

  unfoldable pub with_rate : String → String → Option (Uuid × String) × World → QuoteAnswer × World
  unfolding insert_quote
  with_rate base target (none, w) = (quote_refused 400 "no rate available for pair", w)
  with_rate base target (some (rate_id, rate), w) =
      insert_quote (quote_of w base target rate_id rate) w

  unfoldable pub with_pair : Option FxQuoteRequest → World → QuoteAnswer × World
  unfolding with_rate find_rate
  with_pair none w = (quote_refused 400 "malformed body", w)
  with_pair (some req) w =
      if not (len req.base == 3) || not (len req.target == 3) || str_eq req.base req.target
      then (quote_refused 400 "distinct ISO-4217 base and target currencies required", w)
      else with_rate req.base req.target (find_rate req.base req.target w)

  -- A body that cannot be read is malformed.
  unfoldable pub read_pair : Option Bytes → Option FxQuoteRequest
  read_pair none = none
  read_pair (some body) = decode body

  unfoldable pub fx_quote : Request → World → QuoteAnswer × World
  unfolding with_pair read_pair get
  fx_quote r w = elim (env.uuid_parse (get "X-User-Id" r.headers)) [
    | none ↦ (quote_refused 401 "missing identity", w)
    | some _ ↦ with_pair (read_pair r.body) w
  ]

  -- A quote that is given out stands in the table, and holds for the time that it names.
  abbrev pub IsGiven : FxQuote → World → Type 0
  IsGiven q w = (lookup_quote q.id w.quotes ≡ some q) × (q.expires_at ≡ w.now + ttl)

  insert_quote-IsGiven :
      (p q : FxQuote) (w : World)
      → p.expires_at ≡ w.now + ttl
      → (insert_quote p w).0 ≡ quoted q
      → IsGiven q (insert_quote p w).1
  unfolding insert_quote lookup_quote
  insert_quote-IsGiven p q w until h =
      elim (Bool-cases (env.commit_ok w.history && not (is_some (lookup_quote p.id w.quotes)))) [
        | inr down ↦ absurd (cc (rw (down, insert_quote) at h))
        | inl up ↦
            rw (up, insert_quote)
              (rw⁻¹ (quoted_inj (rw (up, insert_quote) at h)) (rw (==_refl p.id) refl, until))
      ]
    where
      quoted_inj : {a b : FxQuote} → QuoteAnswer.quoted a ≡ QuoteAnswer.quoted b → a ≡ b
      quoted_inj e = cc

  with_rate-IsGiven :
      (base target : String) (x : Option (Uuid × String) × World) (q : FxQuote)
      → (with_rate base target x).0 ≡ quoted q
      → IsGiven q (with_rate base target x).1
  unfolding with_rate
  with_rate-IsGiven base target (none, w) q h = absurd (cc)
  with_rate-IsGiven base target (some (rate_id, rate), w) q h =
      insert_quote-IsGiven (quote_of w base target rate_id rate) q w refl h

  with_pair-IsGiven :
      (o : Option FxQuoteRequest) (w : World) (q : FxQuote)
      → (with_pair o w).0 ≡ quoted q
      → IsGiven q (with_pair o w).1
  unfolding with_pair
  with_pair-IsGiven none w q h = absurd (cc)
  with_pair-IsGiven (some req) w q h =
      elim (Bool-cases
        (not (len req.base == 3) || not (len req.target == 3) || str_eq req.base req.target)) [
          | inl bad ↦ absurd (cc (rw bad at h))
          | inr good ↦ rw good (
              with_rate-IsGiven req.base req.target (find_rate req.base req.target w) q
                (rw good at h))
        ]

  fx_quote-IsGiven :
      (r : Request) (w : World) (q : FxQuote)
      → (fx_quote r w).0 ≡ quoted q
      → IsGiven q (fx_quote r w).1
  unfolding fx_quote
  fx_quote-IsGiven r w q h = elim (Option-cases (env.uuid_parse (get "X-User-Id" r.headers))) [
    | inl e ↦ absurd (cc (rw (e, fx_quote) at h))
    | inr (user_id, e) ↦
        rw (e, fx_quote) (with_pair-IsGiven (read_pair r.body) w q (rw (e, fx_quote) at h))
  ]

  check_given :
      (out : Outside) (text : String) (q : FxQuote) (v : World)
      → lookup_quote q.id v.quotes ≡ some q
      → env.uuid_parse text ≡ some q.id
      → str_eq text "" ≡ false
      → env.query_ok v.history ≡ true
      → (check_quote env out text v).0 ≡ (
          if ltb q.expires_at v.now
          then inl (problem "fx quote expired — request a new quote")
          else inr (some q.id))
  unfolding check_quote quote_problem
  check_given out text q v found parsed given up =
      rw (given, check_quote)
        (rw parsed (
          rw (up, found)
            (elim (Bool-cases (ltb q.expires_at v.now)) [
              | inl late ↦ rw late refl
              | inr early ↦ rw early refl
            ])))

  -- A quote that was given out is accepted by a later creation until its lifetime has passed, and
  -- refused as expired after that, if it is still in the table and the query succeeds.
  pub check_quote-fx_quote :
      (out : Outside) (r : Request) (w v : World) (q : FxQuote) (text : String)
      → (fx_quote r w).0 ≡ quoted q
      → lookup_quote q.id v.quotes ≡ lookup_quote q.id (fx_quote r w).1.quotes
      → env.uuid_parse text ≡ some q.id
      → str_eq text "" ≡ false
      → env.query_ok v.history ≡ true
      → (check_quote env out text v).0 ≡ (
          if ltb ((fx_quote r w).1.now + ttl) v.now
          then inl (problem "fx quote expired — request a new quote")
          else inr (some q.id))
  check_quote-fx_quote out r w v q text h kept parsed given up =
      let (found, until) = fx_quote-IsGiven r w q h in
      rw⁻¹ until (check_given out text q v (kept ∙ found) parsed given up)
